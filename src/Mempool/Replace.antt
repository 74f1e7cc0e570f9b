-- ===== src/Mempool/Replace.antt =====
-- What a replacement by fee does: `ReplaceByFeeWithTxID` of blockchain/mempool.go.
use neo_coin.Base.{
  ℕ, ◌<◌, ◌≡◌, inl, inr, refl, ◌∙◌, arith, leb, none, some, List, Option-cases, Bool-cases,
}
use neo_coin.Base.Int.{ℤ}
use neo_coin.Base.Bytes.{Bytes, bytes_eq_iff}
use neo_coin.Base.Dict.{bytes_key, ℕ_key, lookup, lookup-insert_self}
use neo_coin.Base.Result.{ok, Result-cases}
use neo_coin.Types.{Transaction, ConsensusParams}
use neo_coin.Platform.{Platform}
use neo_coin.Tx.{from_address}
use neo_coin.Mempool.{Entry, Mempool, id_at, tx_for_sender_nonce, put}
use neo_coin.Mempool.Evict.{
  evict_by_sender_nonce, resolve_id, entry_for, replace_at, replace_entry, replace_by_fee, fee_of,
}
use neo_coin.Mempool.Index.{id_at-index_put}
use neo_coin.Mempool.Consistent.{IsConsistent}
use neo_coin.Mempool.Operations.{put-IsConsistent}
use neo_coin.Mempool.Evictions.{evict_by_sender_nonce-Leaves}

module _ (P : Platform) where
  -- A replacement that the pool makes: the sender's transaction at the nonce paid strictly less, and
  -- the new one stands in its place.
  pub record IsReplaced (t : Transaction) (m m' : Mempool) : Type 0 where
    pub from : Bytes
    pub sent : from_address P t ≡ ok from
    pub old : Entry
    pub displaced : tx_for_sender_nonce m from t.nonce ≡ some old
    pub pays_more : old.tx.fee < t.fee
    pub entry : Entry
    pub placed : tx_for_sender_nonce m' from t.nonce ≡ some entry
    pub same_tx : entry.tx ≡ t

  tx_for_sender_nonce-pointed :
      (m : Mempool) (from : Bytes) (n : ℕ) {id : Bytes} {e : Entry}
      → id_at m.by_sender_nonce from n ≡ some id
      → lookup id m.entries ≡ some e
      → tx_for_sender_nonce m from n ≡ some e
  unfolding tx_for_sender_nonce
  tx_for_sender_nonce-pointed m from n at found = rw (at, tx_for_sender_nonce) found

  pub put-placed :
      (m : Mempool) (from : Bytes) (e : Entry)
      → tx_for_sender_nonce (put from e m) from e.tx.nonce ≡ some e
  unfolding put
  put-placed m from e =
      tx_for_sender_nonce-pointed (put from e m) from e.tx.nonce
        (id_at-index_put from from e.tx.nonce e.tx.nonce e.tx_id m.by_sender_nonce
          ∙ ground (arith, bytes_eq_iff from from))
        (lookup-insert_self e.tx_id e m.entries)

  -- What a replacement comes to, once it has passed its tests.
  replace_at-parts :
      (order : List ℕ) (from : Bytes) (e : Entry) (m : Mempool)
      → IsConsistent P m
      → from_address P e.tx ≡ ok from
      → IsConsistent P (replace_at P order from e m).0
        × (((replace_at P order from e m).1.3 ≡ none)
            → tx_for_sender_nonce (replace_at P order from e m).0 from e.tx.nonce ≡ some e)
  unfolding replace_at
  replace_at-parts order from e m h sent =
      let left = evict_by_sender_nonce P order from e.tx.nonce m in
      let (leaves, free) = evict_by_sender_nonce-Leaves P order from e.tx.nonce m h in
      elim (Option-cases (lookup e.tx_id left.0.entries)) [
        | inr (x, present) ↦ rw (present, replace_at) (leaves.consistent, λ none_failed. cc)
        | inl new ↦
            rw (new, replace_at)
              (
                put-IsConsistent P left.0 leaves.consistent from e sent new free,
                λ fine. put-placed left.0 from e,
              )
      ]

  replace_entry-parts :
      (order : List ℕ) (e : Entry) (m : Mempool)
      → IsConsistent P m
      → IsConsistent P (replace_entry P order e m).0
        × (((replace_entry P order e m).1.3 ≡ none)
            → IsReplaced e.tx m (replace_entry P order e m).0)
  unfolding replace_entry
  replace_entry-parts order e m h = elim (Result-cases (from_address P e.tx)) [
    | inr (x, failed) ↦ rw (failed, replace_entry) (h, λ fine. cc)
    | inl (from, sent) ↦ elim (Option-cases (id_at m.by_sender_nonce from e.tx.nonce)) [
      | inl free ↦ rw (sent, replace_entry) (rw free (h, λ fine. cc))
      | inr (id, held) ↦ elim (Bool-cases (leb e.tx.fee (fee_of (lookup id m.entries)))) [
        | inl low ↦ rw (sent, replace_entry) (rw (held, low) (h, λ fine. cc))
        | inr high ↦
            let at = h.pointed from e.tx.nonce id held in
            let (consistent, placed) = replace_at-parts order from e m h sent in
            let more : at.entry.tx.fee < e.tx.fee = ground (arith, at.found) in
            rw (sent, replace_entry)
              (rw (held, high)
                (
                  consistent,
                  λ fine. record {
                    from = from;
                    sent = sent;
                    old = at.entry;
                    displaced = tx_for_sender_nonce-pointed m from e.tx.nonce held at.found;
                    pays_more = more;
                    entry = e;
                    placed = placed fine;
                    same_tx = refl;
                  },
                ))
      ]
    ]
  ]

  -- Whatever replacement is asked for, and in whatever order the dependents are evicted: the maps of
  -- the pool still describe the same transactions; and if no error is returned, the sender's
  -- transaction at that nonce paid strictly less and the new one stands in its place.
  pub replace_by_fee-IsReplaced :
      (order : List ℕ) (time : ℤ) (t : Transaction) (given : Bytes) (p : ConsensusParams)
      (height : ℕ) (m : Mempool)
      → IsConsistent P m
      → IsConsistent P (replace_by_fee P order time t given p height m).0
        × (((replace_by_fee P order time t given p height m).1.3 ≡ none)
            → IsReplaced t m (replace_by_fee P order time t given p height m).0)
  unfolding replace_by_fee
  replace_by_fee-IsReplaced order time t given p height m h =
      elim (Result-cases (resolve_id P t given p height)) [
        | inr (x, failed) ↦ rw (failed, replace_by_fee) (h, λ fine. cc)
        | inl (id, resolved) ↦
            rw (resolved, replace_by_fee) (replace_entry-parts order (entry_for t time id) m h)
      ]
