-- ===== src/Miner/SelectLaws.antt =====
-- What `SelectMempoolTxs` selects can be applied.
use neo_coin.Base.{
  ℕ, suc, ◌-◌, ◌≤◌, ◌≡◌, refl, ap, ◌∙◌, arith, true, false, not, ◌==◌, if◌then◌else◌, none, List,
  [], ◌∷◌, map, length, Bool-cases, inl, inr,
}
use neo_coin.Base.Int.{ℤ, pos, leb_ℤ, pos_part}
use neo_coin.Base.Words.{add64}
use neo_coin.Base.Bytes.{Bytes}
use neo_coin.Base.Result.{ok, fail_if, >>=-eq-ok, Result-cases}
use neo_coin.Types.{Error, Transaction, TransactionType, is_transfer}
use neo_coin.Platform.{Platform}
use neo_coin.Ledger.{State, apply_transfer, apply_type, apply_txs}
use neo_coin.Chain.{Blockchain}
use neo_coin.Chain.Add.{tip_height, with_chain_id}
use neo_coin.Mempool.{Entry}
use neo_coin.Miner.Select.{try_entry, select_from, select_mempool_txs, sort_entries}

abbrev pub txs_of : List (Transaction × Bytes) → List Transaction
txs_of picked = map (λ x. x.0) picked

is_transfer-true : (k : TransactionType) → is_transfer k ≡ true → k ≡ TransactionType.transfer
is_transfer-true TransactionType.coinbase h = cc
is_transfer-true TransactionType.transfer h = refl
is_transfer-true (TransactionType.other s) h = cc

module _ (P : Platform) (bc : Blockchain) (height : ℕ) where
  -- A transaction that is picked is one that the ledger accepts.
  try_entry-apply_type :
      (i : ℕ) (t : Transaction) (s : State) {s' : State}
      → try_entry P bc height t s ≡ ok s'
      → apply_type P bc.consensus t.tx_type height i t s ≡ ok s'
  unfolding try_entry apply_type apply_transfer
  try_entry-apply_type i t s e =
      let (u, transfer, rest) =
        >>=-eq-ok (fail_if (not (is_transfer t.tx_type)) Error.only_transfers) _ e in
      let kind = is_transfer-true t.tx_type (ground (arith, transfer)) in
      ap (λ k. apply_type P bc.consensus k height i t s) kind ∙ rest

  apply_txs-step :
      (i : ℕ) (t : Transaction) (ts : List Transaction) (s : State) {s1 : State}
      → apply_type P bc.consensus t.tx_type height i t s ≡ ok s1
      → apply_txs P bc.consensus height i (t ∷ ts) s ≡ apply_txs P bc.consensus height (suc i) ts s1
  unfolding apply_txs
  apply_txs-step i t ts s e = rw (e, apply_txs)

  -- What a selection satisfies: the ledger applies it as a whole, and it has room.
  pub record IsApplicable (room i : ℕ) (picked : List (Transaction × Bytes)) (s : State)
      : Type 0 where
    pub final : State
    pub applies : apply_txs P bc.consensus height i (txs_of picked) s ≡ (final, none)
    pub fits : length picked ≤ room

  nothing-IsApplicable : (room i : ℕ) (s : State) → IsApplicable room i [] s
  unfolding apply_txs
  nothing-IsApplicable room i s = record { final = s; applies = refl; fits = omega arith }

  more-IsApplicable :
      (room i : ℕ) (t : Transaction) (id : Bytes) (picked : List (Transaction × Bytes))
      (s s1 : State)
      → (room == 0) ≡ false
      → try_entry P bc height t s ≡ ok s1
      → IsApplicable (room - 1) (suc i) picked s1
      → IsApplicable room i ((t, id) ∷ picked) s
  more-IsApplicable room i t id picked s s1 some_room tried rest = record {
    final = rest.final;
    applies =
        apply_txs-step i t (txs_of picked) s (try_entry-apply_type i t s tried) ∙ rest.applies;
    fits = ground (arith, rest.fits, some_room);
  }

  select_from-IsApplicable :
      (room i : ℕ) (es : List Entry) (s : State)
      → IsApplicable room i (select_from P bc height room es s) s
  unfolding select_from
  select_from-IsApplicable room i [] s = nothing-IsApplicable room i s
  select_from-IsApplicable room i (e ∷ es) s =
      let t = with_chain_id bc.chain_id e.tx in
      elim (Bool-cases (room == 0)) [
        | inl full ↦ rw (full, select_from) (nothing-IsApplicable room i s)
        | inr some_room ↦ elim (Result-cases (try_entry P bc height t s)) [
          | inr (x, failed) ↦
              rw (some_room, select_from) (rw failed (select_from-IsApplicable room i es s))
          | inl (s1, tried) ↦
              rw (some_room, select_from)
                (rw tried (
                  more-IsApplicable room i t e.tx_id (select_from P bc height (room - 1) es s1) s s1
                    some_room tried (select_from-IsApplicable (room - 1) (suc i) es s1)))
        ]
      ]

-- Whatever the pool holds, the selected transactions, in their order, are applied without error to
-- the chain's state at the next height, from any index of the block on, and they are at most as
-- many as asked for, or 100 where no positive number is asked for.
pub select_mempool_txs-IsApplicable :
    (P : Platform) (bc : Blockchain) (snapshot : List Entry) (max : ℤ) (i : ℕ)
    → IsApplicable P bc
        (add64 (tip_height bc) 1)
        (if leb_ℤ max (pos 0) then 100 else pos_part max)
        i
        (select_mempool_txs P bc snapshot max)
        bc.state
unfolding select_mempool_txs
select_mempool_txs-IsApplicable P bc snapshot max i =
    select_from-IsApplicable P bc (add64 (tip_height bc) 1)
      (if leb_ℤ max (pos 0) then 100 else pos_part max) i (sort_entries snapshot) bc.state
