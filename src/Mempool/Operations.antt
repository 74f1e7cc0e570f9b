-- ===== src/Mempool/Operations.antt =====
-- Every operation of the pool keeps its invariant, whatever order the runtime visits the maps in.
use mathlib.Core.Path.{subst}
use neo_coin.Base.{
  ltb, map, refl, Option, ℕ, ◌≡◌, inl, inr, ap, ◌∙◌, arith, ◌&&◌, ◌==◌, none, some, List, [], ◌∷◌,
  length, Option-cases, Bool-cases,
}
use neo_coin.Base.Int.{ℤ}
use neo_coin.Base.Bytes.{Bytes, bytes_eq, bytes_eq_iff}
use neo_coin.Base.Dict.{bytes_key, ℕ_key, lookup, insert, lookup-insert, lookup-insert_self}
use neo_coin.Base.Result.{ok, Result-cases}
use neo_coin.Types.{Transaction, ConsensusParams}
use neo_coin.Platform.{Platform}
use neo_coin.Tx.{from_address}
use neo_coin.Mempool.{Entry, Mempool, id_at, index_put, remove, remove_many, put}
use neo_coin.Mempool.Spam.{any_pattern, spam_patterns, to_lower, judge, ask, AiFilter, check_spam}
use neo_coin.Mempool.Evict.{
  is_full, evict_with_dependents, lowest_fee, make_room, add_locked, add_entry, add_with_tx_id,
  resolve_id, entry_for,
}
use neo_coin.Mempool.Index.{id_at-index_put}
use neo_coin.Mempool.Consistent.{IsFiled, IsPointed, IsConsistent, remove-IsConsistent}
use neo_coin.Mempool.Evictions.{evict_with_dependents-Leaves}

module _ (P : Platform) where
  pub remove_many-IsConsistent :
      (ids : List Bytes) (m : Mempool) → IsConsistent P m → IsConsistent P (remove_many P ids m)
  unfolding remove_many
  remove_many-IsConsistent [] m h = h
  remove_many-IsConsistent (id ∷ ids) m h =
      remove_many-IsConsistent ids (remove P id m) (remove-IsConsistent P id m h)

  module _ (m : Mempool) (h : IsConsistent P m) (from : Bytes) (e : Entry)
      (sent : from_address P e.tx ≡ ok from) (new : lookup e.tx_id m.entries ≡ none)
      (free : id_at m.by_sender_nonce from e.tx.nonce ≡ none) where
    put-IsFiled :
        (j : Bytes) (f : Entry)
        → lookup j (insert e.tx_id e m.entries) ≡ some f
        → IsFiled P (index_put from e.tx.nonce e.tx_id m.by_sender_nonce) j f
    put-IsFiled j f held = elim (Bool-cases (bytes_eq e.tx_id j)) [
      | inl same ↦
          let whole : e ≡ f = ground (arith, lookup-insert e.tx_id j e m.entries) in
          let key : e.tx_id ≡ j = (bytes_eq_iff e.tx_id j).0 same in
          subst (IsFiled P (index_put from e.tx.nonce e.tx_id m.by_sender_nonce) j) whole (record {
            same_id = key;
            from = from;
            sent = sent;
            at =
                id_at-index_put from from e.tx.nonce e.tx.nonce e.tx_id m.by_sender_nonce
                ∙ ground (arith, bytes_eq_iff from from);
          })
      | inr differs ↦
          let stays : lookup j m.entries ≡ some f =
            ground (arith, lookup-insert e.tx_id j e m.entries) in
          let old = h.filed j f stays in
          record {
            same_id = old.same_id;
            from = old.from;
            sent = old.sent;
            at = ground (
              arith,
              id_at-index_put from old.from e.tx.nonce f.tx.nonce e.tx_id m.by_sender_nonce,
              bytes_eq_iff from old.from,
              old.at,
            );
          }
    ]

    put-IsPointed :
        (b : Bytes) (n : ℕ) (j : Bytes)
        → id_at (index_put from e.tx.nonce e.tx_id m.by_sender_nonce) b n ≡ some j
        → IsPointed P (insert e.tx_id e m.entries) b n j
    put-IsPointed b n j held = elim (Bool-cases (bytes_eq from b && e.tx.nonce == n)) [
      | inl same ↦
          let key : e.tx_id ≡ j =
            ground (arith, id_at-index_put from b e.tx.nonce n e.tx_id m.by_sender_nonce) in
          let sender : from ≡ b = ground (arith, bytes_eq_iff from b) in
          record {
            entry = e;
            found =
                subst (λ k. lookup k (insert e.tx_id e m.entries) ≡ some e) key
                  (lookup-insert_self e.tx_id e m.entries);
            sent = sent ∙ ap ok sender;
            nonce_is = ground (arith);
          }
      | inr differs ↦
          let stays : id_at m.by_sender_nonce b n ≡ some j =
            ground (arith, id_at-index_put from b e.tx.nonce n e.tx_id m.by_sender_nonce) in
          let old = h.pointed b n j stays in
          record {
            entry = old.entry;
            found =
                ground
                  (arith, lookup-insert e.tx_id j e m.entries, bytes_eq_iff e.tx_id j, old.found);
            sent = old.sent;
            nonce_is = old.nonce_is;
          }
    ]

    pub put-IsConsistent : IsConsistent P (put from e m)
    unfolding put
    put-IsConsistent = record { filed = put-IsFiled; pointed = put-IsPointed }

  make_room-IsConsistent :
      (order : List Bytes) (from : Bytes) (e : Entry) (m : Mempool)
      → IsConsistent P m
      → from_address P e.tx ≡ ok from
      → lookup e.tx_id m.entries ≡ none
      → id_at m.by_sender_nonce from e.tx.nonce ≡ none
      → IsConsistent P (make_room P order from e m).0
  unfolding make_room
  make_room-IsConsistent order from e m h sent new free = elim (Bool-cases (is_full m)) [
    | inr room ↦ rw (room, make_room) (put-IsConsistent m h from e sent new free)
    | inl full ↦ elim (Bool-cases (length (lowest_fee order m) == 0)) [
      | inl nothing ↦ rw (full, make_room) (rw nothing h)
      | inr victim ↦
          let left = evict_with_dependents-Leaves P order (lowest_fee order m) m h in
          rw (full, make_room)
            (rw victim (
              put-IsConsistent (evict_with_dependents P order (lowest_fee order m) m)
                left.consistent from e sent (left.shrinks.absent e.tx_id new)
                (left.shrinks.free from e.tx.nonce free)))
    ]
  ]

  add_locked-IsConsistent :
      (order : List Bytes) (from : Bytes) (e : Entry) (m : Mempool)
      → IsConsistent P m
      → from_address P e.tx ≡ ok from
      → IsConsistent P (add_locked P order from e m).0
  unfolding add_locked
  add_locked-IsConsistent order from e m h sent = elim (Option-cases (lookup e.tx_id m.entries)) [
    | inr (x, present) ↦ rw (present, add_locked) h
    | inl new ↦ elim (Option-cases (id_at m.by_sender_nonce from e.tx.nonce)) [
      | inr (id, taken) ↦ rw (new, add_locked) (rw taken h)
      | inl free ↦
          rw (new, add_locked) (rw free (make_room-IsConsistent order from e m h sent new free))
    ]
  ]

  -- A spam check touches the counters only.
  abbrev pub SameMaps : Mempool → Mempool → Type 0
  SameMaps m m' =
      (m'.entries ≡ m.entries)
      × (m'.by_sender_nonce ≡ m.by_sender_nonce)
      × (m'.max_size ≡ m.max_size)

  judge-SameMaps : (m : Mempool) (o : Option ℕ) → SameMaps m (judge m o).0
  judge-SameMaps m none = (refl, refl, refl)
  judge-SameMaps m (some score) = elim (Bool-cases (ltb 80 score)) [
    | inl high ↦ rw (high, judge) (refl, refl, refl)
    | inr low ↦ rw (low, judge) (refl, refl, refl)
  ]

  ask-SameMaps : (ai : AiFilter) (t : Transaction) (m : Mempool) → SameMaps m (ask P ai t m).0
  ask-SameMaps none t m = (refl, refl, refl)
  ask-SameMaps (some filter) t m = elim (Result-cases (from_address P t)) [
    | inr (x, failed) ↦ rw (failed, ask) (refl, refl, refl)
    | inl (from, sent) ↦ rw (sent, ask) (judge-SameMaps m (filter t from))
  ]

  pub check_spam-SameMaps :
      (ai : AiFilter) (t : Transaction) (m : Mempool) → SameMaps m (check_spam P ai t m).0
  unfolding check_spam
  check_spam-SameMaps ai t m =
      elim (Bool-cases (any_pattern spam_patterns (map to_lower t.tx_data))) [
        | inl spam ↦ rw (spam, check_spam) (refl, refl, refl)
        | inr clean ↦ rw (clean, check_spam) (ask-SameMaps ai t m)
      ]

  pub IsConsistent-SameMaps :
      (m m' : Mempool) → SameMaps m m' → IsConsistent P m → IsConsistent P m'
  IsConsistent-SameMaps m m' (entries, index, size) h = record {
    filed = λ id e held. rw index (h.filed id e (rw (← entries) held));
    pointed = λ from n id held. rw entries (h.pointed from n id (rw (← index) held));
  }

  add_entry-IsConsistent :
      (ai : AiFilter) (order : List Bytes) (e : Entry) (m : Mempool)
      → IsConsistent P m
      → IsConsistent P (add_entry P ai order e m).0
  unfolding add_entry
  add_entry-IsConsistent ai order e m h = elim (Result-cases (from_address P e.tx)) [
    | inr (x, failed) ↦ rw (failed, add_entry) h
    | inl (from, sent) ↦
        let after = (check_spam P ai e.tx m).0 in
        let same = IsConsistent-SameMaps m after (check_spam-SameMaps ai e.tx m) h in
        elim (Result-cases (check_spam P ai e.tx m).1) [
          | inr (x, spam) ↦ rw (sent, add_entry) (rw spam same)
          | inl (u, clean) ↦
              rw (sent, add_entry) (rw clean (add_locked-IsConsistent order from e after same sent))
        ]
  ]

  -- Whatever transaction is added, under whatever id, and whatever is evicted for it in whatever
  -- order: the two maps of the pool still describe the same transactions.
  pub add_with_tx_id-IsConsistent :
      (ai : AiFilter) (order : List Bytes) (time : ℤ) (t : Transaction) (given : Bytes)
      (p : ConsensusParams) (height : ℕ) (m : Mempool)
      → IsConsistent P m
      → IsConsistent P (add_with_tx_id P ai order time t given p height m).0
  unfolding add_with_tx_id
  add_with_tx_id-IsConsistent ai order time t given p height m h =
      elim (Result-cases (resolve_id P t given p height)) [
        | inr (x, failed) ↦ rw (failed, add_with_tx_id) h
        | inl (id, resolved) ↦
            rw (resolved, add_with_tx_id)
              (add_entry-IsConsistent ai order (entry_for t time id) m h)
      ]
