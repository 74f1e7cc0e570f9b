-- ===== src/Mempool/Accept.antt =====
-- When the pool of blockchain/mempool.go takes a transaction in.
use neo_coin.Base.{
  ℕ, ◌<◌, ◌≡◌, ◌≢◌, refl, ap, ◌∙◌, arith, true, false, leb, none, some, List, ◌∷◌, length,
}
use mathlib.Core.Path.{subst}
use neo_coin.Base.Int.{ℤ, pos, leb_ℤ}
use neo_coin.Base.Bytes.{Bytes}
use neo_coin.Base.Dict.{bytes_key, ℕ_key, lookup, lookup-insert_self, lookup-insert_ne}
use neo_coin.Base.Result.{ok}
use neo_coin.Types.{Transaction, ConsensusParams}
use neo_coin.Platform.{Platform}
use neo_coin.Tx.{from_address}
use neo_coin.Mempool.{Entry, Mempool, id_at, put, tx_for_sender_nonce}
use neo_coin.Mempool.Spam.{AiFilter, check_spam}
use neo_coin.Mempool.Evict.{
  is_full, make_room, add_locked, add_entry, add_with_tx_id, resolve_id, entry_for,
  evict_by_sender_nonce, replace_at, replace_entry, replace_by_fee, fee_of, put_replacement,
  Replaced,
}
use neo_coin.Mempool.Consistent.{IsConsistent}
use neo_coin.Mempool.Evictions.{evict_by_sender_nonce-Leaves, evict_by_sender_nonce-gone}
use neo_coin.Mempool.Operations.{check_spam-SameMaps}
use neo_coin.Mempool.Replace.{put-placed, replace_by_fee-IsReplaced}

is_full-same :
    (m after : Mempool)
    → after.entries ≡ m.entries
    → after.max_size ≡ m.max_size
    → is_full after ≡ is_full m
unfolding is_full
is_full-same m after entries size =
    ap (λ s. leb_ℤ s (pos (length after.entries))) size
    ∙ ap (λ x. leb_ℤ m.max_size (pos (length x))) entries

replace_at-new :
    (P : Platform) (order : List ℕ) (from : Bytes) (e : Entry) (m : Mempool)
    → lookup e.tx_id (evict_by_sender_nonce P order from e.tx.nonce m).0.entries ≡ none
    → replace_at P order from e m ≡ (
      put from e (evict_by_sender_nonce P order from e.tx.nonce m).0,
      (e.tx_id, true, (evict_by_sender_nonce P order from e.tx.nonce m).1, none),
    )
unfolding replace_at
replace_at-new P order from e m gone =
    ap (put_replacement from e (evict_by_sender_nonce P order from e.tx.nonce m)) gone

module _ (P : Platform) (t : Transaction) (given : Bytes) (p : ConsensusParams) (height : ℕ)
    (time : ℤ) (m : Mempool) where
  -- A transaction that can be filed: its id resolves to a new one, and its sender is known.
  pub record IsFresh (id from : Bytes) : Type 0 where
    pub resolved : resolve_id P t given p height ≡ ok id
    pub sent : from_address P t ≡ ok from
    pub new : lookup id m.entries ≡ none

  -- A pool with room takes in a transaction that is not spam, whose id is new and whose sender has
  -- none pending at its nonce: it answers with the id and finds the transaction under its sender
  -- and nonce.
  pub add_with_tx_id_accepts :
      (ai : AiFilter) (order : List Bytes) (id from : Bytes)
      → IsFresh id from
      → (check_spam P ai t m).1 ≡ ok tt
      → id_at m.by_sender_nonce from t.nonce ≡ none
      → is_full m ≡ false
      → ((add_with_tx_id P ai order time t given p height m).1 ≡ (id, none))
        × (tx_for_sender_nonce (add_with_tx_id P ai order time t given p height m).0 from t.nonce
            ≡ some (entry_for t time id))
  unfolding add_with_tx_id
  add_with_tx_id_accepts ai order id from h clean free room =
      let after = (check_spam P ai t m).0 in
      let (entries, index, size) = check_spam-SameMaps P ai t m in
      let still_new : lookup id after.entries ≡ none = ap (lookup id) entries ∙ h.new in
      let still_free : id_at after.by_sender_nonce from t.nonce ≡ none =
        ap (λ x. id_at x from t.nonce) index ∙ free in
      let still_room : is_full after ≡ false = is_full-same m after entries size ∙ room in
      let e = entry_for t time id in
      let placed : add_with_tx_id P ai order time t given p height m
          ≡ (put from e after, (id, none)) =
        rw (h.resolved, add_with_tx_id)
          (rw (h.sent, add_entry)
            (rw clean
              (rw (still_new, add_locked) (rw still_free (rw (still_room, make_room) refl))))) in
      (
        ap (λ x. x.1) placed,
        ap (λ x. tx_for_sender_nonce x.0 from t.nonce) placed ∙ put-placed P after from e,
      )

  -- A replacement that passes its tests comes down to the eviction and what follows.
  replace_by_fee-replace_at :
      (order : List ℕ) (id from old_id : Bytes) {r : Mempool × Replaced}
      → IsFresh id from
      → id_at m.by_sender_nonce from t.nonce ≡ some old_id
      → leb t.fee (fee_of (lookup old_id m.entries)) ≡ false
      → replace_at P order from (entry_for t time id) m ≡ r
      → replace_by_fee P order time t given p height m ≡ r
  unfolding replace_by_fee
  replace_by_fee-replace_at order id from old_id h at pays e =
      rw (h.resolved, replace_by_fee) (rw (h.sent, replace_entry) (rw (at, pays) e))

  -- A consistent pool makes a replacement that pays more than the pending transaction, under a new
  -- id: it answers with the id, that it replaced, the displaced id as the first of those evicted, and
  -- no error; the new transaction stands under its sender and nonce and under its id, the displaced
  -- one is gone, and the pool is consistent.
  pub replace_by_fee_accepts :
      (order : List ℕ) (id from old_id : Bytes) (old : Entry)
      → IsConsistent P m
      → IsFresh id from
      → id_at m.by_sender_nonce from t.nonce ≡ some old_id
      → lookup old_id m.entries ≡ some old
      → old.tx.fee < t.fee
      → let answer = replace_by_fee P order time t given p height m in
        ((others : List Bytes) × (answer.1 ≡ (id, true, old_id ∷ others, none)))
        × (tx_for_sender_nonce answer.0 from t.nonce ≡ some (entry_for t time id))
        × (lookup id answer.0.entries ≡ some (entry_for t time id))
        × (lookup old_id answer.0.entries ≡ none)
        × IsConsistent P answer.0
  unfolding replace_by_fee put
  replace_by_fee_accepts order id from old_id old consistent h at found more =
      let e = entry_for t time id in
      let left = evict_by_sender_nonce P order from t.nonce m in
      let (leaves, free) = evict_by_sender_nonce-Leaves P order from t.nonce m consistent in
      let (out, (others, first)) =
        evict_by_sender_nonce-gone P order from t.nonce m old_id consistent at in
      let gone : lookup id left.0.entries ≡ none = leaves.shrinks.absent id h.new in
      let pays : leb t.fee (fee_of (lookup old_id m.entries)) ≡ false =
        ground (arith, found, more) in
      let placed =
        replace_by_fee-replace_at order id from old_id h at pays
          (replace_at-new P order from e m gone) in
      let other : id ≢ old_id = λ same.
        let clash : lookup old_id m.entries ≡ none =
          subst (λ k. lookup k m.entries ≡ none) same h.new in
        cc (clash, found) in
      (
        (others, ap (λ x. x.1) placed ∙ ap (λ x. (id, true, x, none)) first),
        ap (λ x. tx_for_sender_nonce x.0 from t.nonce) placed ∙ put-placed P left.0 from e,
        ap (λ x. lookup id x.0.entries) placed ∙ lookup-insert_self id e left.0.entries,
        ap (λ x. lookup old_id x.0.entries) placed
            ∙ lookup-insert_ne id old_id e left.0.entries other
            ∙ out,
        (replace_by_fee-IsReplaced P order time t given p height m consistent).0,
      )
