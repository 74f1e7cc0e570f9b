-- ===== src/Miner/Select.antt =====
-- Which pending transactions go into the next block: `SelectMempoolTxs` of blockchain/chain.go and
-- `EntriesSortedByFeeDesc` of blockchain/mempool.go. The order of the snapshot, which the runtime
-- chooses, is an argument; `sort.Slice` leaves entries that compare equal in some order.
use neo_coin.Base.{ℕ, ◌-◌, Bool, not, ltb, ◌==◌, if◌then◌else◌, List, [], ◌∷◌}
use neo_coin.Base.Int.{ℤ, pos, leb_ℤ, ltb_ℤ, pos_part}
use neo_coin.Base.Words.{add64}
use neo_coin.Base.Bytes.{Bytes}
use neo_coin.Base.Result.{Result, ok, err, ◌>>=◌, ◌>>◌, fail_if}
use neo_coin.Types.{Error, Transaction, is_transfer}
use neo_coin.Platform.{Platform}
use neo_coin.Tx.{from_address, verify_for_consensus}
use neo_coin.Ledger.{State, account_of, check_funds, move_funds}
use neo_coin.Chain.{Blockchain}
use neo_coin.Chain.Add.{tip_height, with_chain_id}
use neo_coin.Mempool.{Entry}

-- The comparison: a higher fee first, then the earlier arrival.
unfoldable pub is_before : Entry → Entry → Bool
is_before a b =
    if not (a.tx.fee == b.tx.fee) then ltb b.tx.fee a.tx.fee else ltb_ℤ a.received b.received

unfoldable pub insert_entry : Entry → List Entry → List Entry
unfolding is_before
insert_entry e [] = e ∷ []
insert_entry e (f ∷ fs) =
    let later = insert_entry e fs in if is_before e f then e ∷ f ∷ fs else f ∷ later

-- `EntriesSortedByFeeDesc`, of a snapshot.
unfoldable pub sort_entries : List Entry → List Entry
unfolding insert_entry
sort_entries [] = []
sort_entries (e ∷ es) = insert_entry e (sort_entries es)

module _ (P : Platform) (bc : Blockchain) (height : ℕ) where
  -- The body of the loop: the state that an entry's transaction leaves, or why it is passed over.
  unfoldable pub try_entry : Transaction → State → Result Error State
  try_entry t s = do
    fail_if (not (is_transfer t.tx_type)) Error.only_transfers
    verify_for_consensus P t bc.consensus height
    from ← from_address P t
    check_funds (account_of s from) t
    ok (move_funds from t s)

  -- The loop of `SelectMempoolTxs`, while there is room.
  unfoldable pub select_from : ℕ → List Entry → State → List (Transaction × Bytes)
  unfolding try_entry with_chain_id
  select_from room [] s = []
  select_from room (e ∷ es) s =
      if room == 0 then [] else elim (try_entry (with_chain_id bc.chain_id e.tx) s) [
        | err x ↦ select_from room es s
        | ok s' ↦ (with_chain_id bc.chain_id e.tx, e.tx_id) ∷ select_from (room - 1) es s'
      ]

-- `SelectMempoolTxs`: the picked transactions with their ids.
unfoldable pub select_mempool_txs :
    Platform → Blockchain → List Entry → ℤ → List (Transaction × Bytes)
unfolding select_from sort_entries tip_height
select_mempool_txs P bc snapshot max =
    let room = if leb_ℤ max (pos 0) then 100 else pos_part max in
    select_from P bc (add64 (tip_height bc) 1) room (sort_entries snapshot) bc.state
