-- ===== src/Mempool/Bound.antt =====
-- The pool's size: `AddWithTxID` of blockchain/mempool.go evicts before it exceeds the maximum.
use mathlib.Core.Path.{subst}
use neo_coin.Base.{
  ℕ, ◌+◌, ◌-◌, ◌^◌, ◌<◌, ◌≤◌, ◌≡◌, ◌⊎◌, inl, inr, refl, sym, ap, arith, false, ◌==◌, ltb, some,
  List, [], ◌∷◌, length, Option-cases, Bool-cases,
}
use neo_coin.Base.Int.{ℤ, pos, ◌≤ℤ◌}
use neo_coin.Base.Bytes.{Bytes}
use neo_coin.Base.Dict.{Dict, bytes_key, ℕ_key, lookup, insert, erase}
use neo_coin.Base.Result.{Result-cases}
use neo_coin.Types.{Transaction, ConsensusParams}
use neo_coin.Platform.{Platform}
use neo_coin.Tx.{from_address}
use neo_coin.Mempool.{Entry, Mempool, id_at, remove, put}
use neo_coin.Mempool.Spam.{AiFilter, check_spam}
use neo_coin.Mempool.Evict.{
  is_full, evict_victim, evict_with_dependents, lowest_fee, make_room, add_locked, add_entry,
  add_with_tx_id, resolve_id, entry_for, lowest_from, lower_fee,
}
use neo_coin.Mempool.Consistent.{IsConsistent, remove-present, remove-IsConsistent}
use neo_coin.Mempool.Evictions.{evict_with_dependents-Leaves, evict_later-Leaves, length-erase}
use neo_coin.Mempool.Operations.{IsConsistent-SameMaps, check_spam-SameMaps}

length-insert {ℓ} :
    {V : Type ℓ} (k : Bytes) (v : V) (m : Dict Bytes V) → length (insert k v m) ≤ length m + 1
unfolding insert
length-insert k v [] = omega arith
length-insert k v ((j, w) ∷ m) = ground (arith, length-insert k v m)

length-erase_present {ℓ} :
    {V : Type ℓ} (k : Bytes) (m : Dict Bytes V) {v : V}
    → lookup k m ≡ some v
    → length (erase k m) < length m
unfolding lookup erase
length-erase_present k [] e = cc
length-erase_present k ((j, w) ∷ m) {v} e =
    ground (arith, length-erase k m, length-erase_present k m {v = v})

-- The best so far is nothing, or an entry of the pool.
IsHeld : Dict Bytes Entry → Bytes → Type 0
IsHeld entries id = (id ≡ []) ⊎ ((e : Entry) × (lookup id entries ≡ some e))

lower_fee-IsHeld :
    (entries : Dict Bytes Entry) (id : Bytes) (best : Bytes × ℕ)
    → IsHeld entries best.0
    → IsHeld entries (lower_fee id (lookup id entries) best).0
unfolding IsHeld
lower_fee-IsHeld entries id best h = elim (Option-cases (lookup id entries)) [
  | inl absent ↦ rw absent h
  | inr (e, found) ↦ elim (Bool-cases (ltb e.tx.fee best.1)) [
    | inl lower ↦ rw found (rw lower (inr (e, found)))
    | inr higher ↦ rw found (rw higher h)
  ]
]

lowest_from-IsHeld :
    (order : List Bytes) (entries : Dict Bytes Entry) (best : Bytes × ℕ)
    → IsHeld entries best.0
    → IsHeld entries (lowest_from order entries best).0
unfolding lowest_from
lowest_from-IsHeld [] entries best h = h
lowest_from-IsHeld (id ∷ ids) entries best h =
    lowest_from-IsHeld ids entries _ (lower_fee-IsHeld entries id best h)

lowest_fee-held :
    (order : List Bytes) (m : Mempool)
    → (length (lowest_fee order m) == 0) ≡ false
    → (e : Entry) × (lookup (lowest_fee order m) m.entries ≡ some e)
unfolding lowest_fee IsHeld
lowest_fee-held order m some_id =
    elim (lowest_from-IsHeld order m.entries ([], 2 ^ 64 - 1) (inl refl)) [
      | inl nothing ↦ absurd (ground (arith, nothing))
      | inr held ↦ held
    ]

-- The number of entries does not exceed the maximum.
abbrev pub Fits : Mempool → Type 0
Fits m = pos (length m.entries) ≤ℤ m.max_size

module _ (P : Platform) where
  put-Fits :
      (m m' : Mempool) (from : Bytes) (e : Entry)
      → m'.max_size ≡ m.max_size
      → pos (length m'.entries + 1) ≤ℤ m.max_size
      → Fits (put from e m')
  unfolding put
  put-Fits m m' from e limit room = ground (arith, length-insert e.tx_id e m'.entries)

  -- An eviction makes room.
  evict_with_dependents-lt :
      (order : List Bytes) (id : Bytes) (m : Mempool) {e : Entry}
      → IsConsistent P m
      → lookup id m.entries ≡ some e
      → length (evict_with_dependents P order id m).entries < length m.entries
  unfolding evict_with_dependents
  evict_with_dependents-lt order id m {e} h found =
      let file = h.filed id e found in
      let removed = remove-present P id m e found file.sent in
      let less : length (remove P id m).entries < length m.entries =
        subst (λ x. length x.entries < length m.entries) (sym removed)
          (length-erase_present id m.entries found) in
      let rest =
        evict_later-Leaves P order file.from e.tx.nonce (remove P id m)
          (remove-IsConsistent P id m h) in
      rw (found, evict_victim) (rw file.sent (omega (arith, less, rest.shrinks.size)))

  make_room-Fits :
      (order : List Bytes) (from : Bytes) (e : Entry) (m : Mempool)
      → IsConsistent P m
      → Fits m
      → Fits (make_room P order from e m).0
  unfolding make_room is_full
  make_room-Fits order from e m h fits = elim (Bool-cases (is_full m)) [
    | inr room ↦ rw (room, make_room) (put-Fits m m from e refl (ground (arith, room)))
    | inl full ↦ elim (Bool-cases (length (lowest_fee order m) == 0)) [
      | inl nothing ↦ rw (full, make_room) (rw nothing fits)
      | inr victim ↦
          let (x, held) = lowest_fee-held order m victim in
          let less = evict_with_dependents-lt order (lowest_fee order m) m h held in
          let left = evict_with_dependents-Leaves P order (lowest_fee order m) m h in
          rw (full, make_room)
            (rw victim (
              put-Fits m (evict_with_dependents P order (lowest_fee order m) m) from e
                left.shrinks.limit (ground (arith, less, fits))))
    ]
  ]

  add_locked-Fits :
      (order : List Bytes) (from : Bytes) (e : Entry) (m : Mempool)
      → IsConsistent P m
      → Fits m
      → Fits (add_locked P order from e m).0
  unfolding add_locked
  add_locked-Fits order from e m h fits = elim (Option-cases (lookup e.tx_id m.entries)) [
    | inr (x, present) ↦ rw (present, add_locked) fits
    | inl new ↦ elim (Option-cases (id_at m.by_sender_nonce from e.tx.nonce)) [
      | inr (id, taken) ↦ rw (new, add_locked) (rw taken fits)
      | inl free ↦ rw (new, add_locked) (rw free (make_room-Fits order from e m h fits))
    ]
  ]

  add_entry-Fits :
      (ai : AiFilter) (order : List Bytes) (e : Entry) (m : Mempool)
      → IsConsistent P m
      → Fits m
      → Fits (add_entry P ai order e m).0
  unfolding add_entry
  add_entry-Fits ai order e m h fits = elim (Result-cases (from_address P e.tx)) [
    | inr (x, failed) ↦ rw (failed, add_entry) fits
    | inl (from, sent) ↦
        let after = (check_spam P ai e.tx m).0 in
        let same = check_spam-SameMaps P ai e.tx m in
        let still : Fits after = ground (arith, ap length same.0, same.2, fits) in
        elim (Result-cases (check_spam P ai e.tx m).1) [
          | inr (x, spam) ↦ rw (sent, add_entry) (rw spam still)
          | inl (u, clean) ↦
              rw (sent, add_entry)
                (rw clean (
                  add_locked-Fits order from e after (IsConsistent-SameMaps P m after same h)
                    still))
        ]
  ]

  -- A consistent pool that does not exceed its maximum does not exceed it after any addition.
  pub add_with_tx_id-Fits :
      (ai : AiFilter) (order : List Bytes) (time : ℤ) (t : Transaction) (given : Bytes)
      (p : ConsensusParams) (height : ℕ) (m : Mempool)
      → IsConsistent P m
      → Fits m
      → Fits (add_with_tx_id P ai order time t given p height m).0
  unfolding add_with_tx_id
  add_with_tx_id-Fits ai order time t given p height m h fits =
      elim (Result-cases (resolve_id P t given p height)) [
        | inr (x, failed) ↦ rw (failed, add_with_tx_id) fits
        | inl (id, resolved) ↦
            rw (resolved, add_with_tx_id) (add_entry-Fits ai order (entry_for t time id) m h fits)
      ]
