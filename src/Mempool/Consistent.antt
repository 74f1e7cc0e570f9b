-- ===== src/Mempool/Consistent.antt =====
-- The pool's invariant, and that the operations of blockchain/mempool.go keep it in whatever order
-- the runtime visits the maps.
use mathlib.Core.Path.{subst}
use neo_coin.Base.{ℕ, ◌≡◌, ◌≢◌, inl, inr, sym, ap, ◌∙◌, arith, none, some, Option-cases}
use neo_coin.Base.Int.{ℤ}
use neo_coin.Base.Bytes.{Bytes, bytes_eq_iff}
use neo_coin.Base.Dict.{Dict, bytes_key, ℕ_key, lookup, erase, lookup-erase, lookup-erase_ne}
use neo_coin.Base.Result.{ok}
use neo_coin.Platform.{Platform}
use neo_coin.Tx.{from_address}
use neo_coin.Mempool.{Entry, Mempool, new_mempool, id_at, index_remove, remove}
use neo_coin.Mempool.Index.{
  Index, id_at-index_remove_self, id_at-index_remove_other, id_at-index_remove_back,
}

module _ (P : Platform) where
  -- An entry stands under its id and, by its sender and nonce, in the index.
  pub record IsFiled (index : Index) (id : Bytes) (e : Entry) : Type 0 where
    pub same_id : e.tx_id ≡ id
    pub from : Bytes
    pub sent : from_address P e.tx ≡ ok from
    pub at : id_at index from e.tx.nonce ≡ some id

  -- An id of the index stands for an entry with that sender and nonce.
  pub record IsPointed (entries : Dict Bytes Entry) (from : Bytes) (n : ℕ) (id : Bytes)
      : Type 0 where
    pub entry : Entry
    pub found : lookup id entries ≡ some entry
    pub sent : from_address P entry.tx ≡ ok from
    pub nonce_is : entry.tx.nonce ≡ n

  -- The two maps of the pool describe the same transactions.
  pub record IsConsistent (m : Mempool) : Type 0 where
    pub filed :
        (id : Bytes) (e : Entry) → lookup id m.entries ≡ some e → IsFiled m.by_sender_nonce id e
    pub pointed :
        (from : Bytes) (n : ℕ) (id : Bytes)
        → id_at m.by_sender_nonce from n ≡ some id
        → IsPointed m.entries from n id

  pub new_mempool-IsConsistent : (size : ℤ) → IsConsistent (new_mempool size)
  unfolding new_mempool id_at lookup
  new_mempool-IsConsistent size = record { filed = λ id e h. cc; pointed = λ from n id h. cc }

  -- A pool without one entry, whose sender is known.
  abbrev pub without : Mempool → Bytes → Bytes → ℕ → Mempool
  without m id from n = record m {
    entries = erase id m.entries;
    by_sender_nonce = index_remove from n id m.by_sender_nonce;
  }

  pub remove-absent : (id : Bytes) (m : Mempool) → lookup id m.entries ≡ none → remove P id m ≡ m
  unfolding remove
  remove-absent id m e = rw (e, remove)

  pub remove-present :
      (id : Bytes) (m : Mempool) (e : Entry) {from : Bytes}
      → lookup id m.entries ≡ some e
      → from_address P e.tx ≡ ok from
      → remove P id m ≡ without m id from e.tx.nonce
  unfolding remove
  remove-present id m e found sent = rw (found, remove) (rw sent)

  module _ (m : Mempool) (h : IsConsistent m) (id : Bytes) (e : Entry)
      (found : lookup id m.entries ≡ some e) where
    abbrev file : IsFiled m.by_sender_nonce id e
    file = h.filed id e found

    without-IsFiled :
        (j : Bytes) (f : Entry)
        → lookup j (erase id m.entries) ≡ some f
        → IsFiled (index_remove file.from e.tx.nonce id m.by_sender_nonce) j f
    without-IsFiled j f held =
        let other : j ≢ id =
          λ same. ground (arith, lookup-erase id j m.entries, bytes_eq_iff id j) in
        let stays : lookup j m.entries ≡ some f = ground (arith, lookup-erase id j m.entries) in
        let old = h.filed j f stays in
        record {
          same_id = old.same_id;
          from = old.from;
          sent = old.sent;
          at =
              id_at-index_remove_other file.from old.from e.tx.nonce f.tx.nonce id j
                m.by_sender_nonce old.at other;
        }

    without-IsPointed :
        (from : Bytes) (n : ℕ) (j : Bytes)
        → id_at (index_remove file.from e.tx.nonce id m.by_sender_nonce) from n ≡ some j
        → IsPointed (erase id m.entries) from n j
    without-IsPointed from n j held =
        let old =
          h.pointed from n j
            (id_at-index_remove_back file.from from e.tx.nonce n id j m.by_sender_nonce held) in
        let gone = id_at-index_remove_self file.from e.tx.nonce id m.by_sender_nonce file.at in
        let other : j ≢ id = λ same. clash j from n held gone old same in
        record {
          entry = old.entry;
          found = lookup-erase_ne id j m.entries (λ same. other (sym same)) ∙ old.found;
          sent = old.sent;
          nonce_is = old.nonce_is;
        }
      where
        clash :
            (j from : Bytes) (n : ℕ)
            → id_at (index_remove file.from e.tx.nonce id m.by_sender_nonce) from n ≡ some j
            → id_at (index_remove file.from e.tx.nonce id m.by_sender_nonce) file.from e.tx.nonce
              ≡ none
            → IsPointed m.entries from n j
            → j ≢ id
        clash j from n held gone old same =
            let entries_agree : some old.entry ≡ some e =
              sym old.found ∙ (ap (λ k. lookup k m.entries) same ∙ found) in
            let whole : old.entry ≡ e = cc in
            let sent : from_address P e.tx ≡ ok from =
              ap (λ f. from_address P f.tx) (sym whole) ∙ old.sent in
            let known : from_address P e.tx ≡ ok file.from = file.sent in
            let senders : from ≡ file.from = cc in
            let nonces : n ≡ e.tx.nonce = sym old.nonce_is ∙ ap (λ f. f.tx.nonce) whole in cc

    without-IsConsistent : IsConsistent (without m id file.from e.tx.nonce)
    without-IsConsistent = record { filed = without-IsFiled; pointed = without-IsPointed }

  pub remove-IsConsistent :
      (id : Bytes) (m : Mempool) → IsConsistent m → IsConsistent (remove P id m)
  remove-IsConsistent id m h = elim (Option-cases (lookup id m.entries)) [
    | inl absent ↦ subst IsConsistent (sym (remove-absent id m absent)) h
    | inr (e, found) ↦
        subst IsConsistent (sym (remove-present id m e found (h.filed id e found).sent))
          (without-IsConsistent m h id e found)
  ]
