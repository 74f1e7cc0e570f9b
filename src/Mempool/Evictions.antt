-- ===== src/Mempool/Evictions.antt =====
-- What the evictions of blockchain/mempool.go leave, whatever order the runtime visits the maps in.
use mathlib.Core.Path.{subst}
use neo_coin.Base.{
  ℕ, ◌≤◌, ◌≡◌, inl, inr, refl, ap, sym, ◌++◌, ◌∙◌, arith, Bool, true, false, ltb, if◌then◌else◌,
  Option, none, some, List, [], ◌∷◌, length, Option-cases,
}
use neo_coin.Base.Bytes.{Bytes}
use neo_coin.Base.Dict.{Dict, bytes_key, ℕ_key, lookup, erase, lookup-erase, lookup-erase_self}
use neo_coin.Base.Result.{Result-cases}
use neo_coin.Platform.{Platform}
use neo_coin.Tx.{from_address}
use neo_coin.Mempool.{Entry, Mempool, id_at, index_remove, remove}
use neo_coin.Mempool.Evict.{
  is_later, evict_later, evict_victim, evict_with_dependents, evict_id, evict_nonces,
  evict_by_sender_nonce,
}
use neo_coin.Mempool.Index.{Index, id_at-index_remove_self, id_at-index_remove_back}
use neo_coin.Mempool.Consistent.{IsConsistent, remove-absent, remove-present, remove-IsConsistent}

pub length-erase {ℓ} : {V : Type ℓ} (k : Bytes) (m : Dict Bytes V) → length (erase k m) ≤ length m
unfolding erase
length-erase k [] = omega arith
length-erase k ((j, v) ∷ m) = ground (arith, length-erase k m)

module _ (P : Platform) where
  -- Nothing appears: what is absent stays absent, and the pool does not grow.
  pub record Shrinks (m m' : Mempool) : Type 0 where
    pub absent : (id : Bytes) → lookup id m.entries ≡ none → lookup id m'.entries ≡ none
    pub free :
        (from : Bytes) (n : ℕ)
        → id_at m.by_sender_nonce from n ≡ none
        → id_at m'.by_sender_nonce from n ≡ none
    pub size : length m'.entries ≤ length m.entries
    pub limit : m'.max_size ≡ m.max_size

  pub Shrinks-refl : (m : Mempool) → Shrinks m m
  Shrinks-refl m = record {
    absent = λ id e. e;
    free = λ from n e. e;
    size = omega arith;
    limit = refl;
  }

  pub Shrinks-trans : {a b c : Mempool} → Shrinks a b → Shrinks b c → Shrinks a c
  Shrinks-trans h k = record {
    absent = λ id e. k.absent id (h.absent id e);
    free = λ from n e. k.free from n (h.free from n e);
    size = omega (arith, h.size, k.size);
    limit = k.limit ∙ h.limit;
  }

  index_remove-free :
      (a b : Bytes) (n k : ℕ) (id : Bytes) (x : Index)
      → id_at x b k ≡ none
      → id_at (index_remove a n id x) b k ≡ none
  index_remove-free a b n k id x e = elim (Option-cases (id_at (index_remove a n id x) b k)) [
    | inl free ↦ free
    | inr (j, held) ↦
        let back = id_at-index_remove_back a b n k id j x held in
        let clash : some j ≡ none = sym back ∙ e in cc
  ]

  remove-Shrinks : (id : Bytes) (m : Mempool) → IsConsistent P m → Shrinks m (remove P id m)
  remove-Shrinks id m h = elim (Option-cases (lookup id m.entries)) [
    | inl absent ↦ subst (Shrinks m) (sym (remove-absent P id m absent)) (Shrinks-refl m)
    | inr (e, found) ↦
        let file = h.filed id e found in
        subst (Shrinks m) (sym (remove-present P id m e found file.sent)) (record {
          absent = λ j none_there. ground (arith, lookup-erase id j m.entries);
          free = λ from n free.
              index_remove-free file.from from e.tx.nonce n id m.by_sender_nonce free;
          size = omega (arith, length-erase id m.entries);
          limit = refl;
        })
  ]

  -- What an eviction leaves: a consistent pool in which nothing has appeared.
  pub record Leaves (m m' : Mempool) : Type 0 where
    pub consistent : IsConsistent P m'
    pub shrinks : Shrinks m m'

  Leaves-refl : (m : Mempool) → IsConsistent P m → Leaves m m
  Leaves-refl m h = record { consistent = h; shrinks = Shrinks-refl m }

  Leaves-trans : {a b c : Mempool} → Leaves a b → Leaves b c → Leaves a c
  Leaves-trans h k = record {
    consistent = k.consistent;
    shrinks = Shrinks-trans h.shrinks k.shrinks;
  }

  pub remove-Leaves : (id : Bytes) (m : Mempool) → IsConsistent P m → Leaves m (remove P id m)
  remove-Leaves id m h = record {
    consistent = remove-IsConsistent P id m h;
    shrinks = remove-Shrinks id m h;
  }

  remove_if-Leaves :
      (b : Bool) (id : Bytes) (m : Mempool)
      → IsConsistent P m
      → Leaves m (if b then remove P id m else m)
  remove_if-Leaves true id m h = remove-Leaves id m h
  remove_if-Leaves false id m h = Leaves-refl m h

  pub evict_later-Leaves :
      (order : List Bytes) (from : Bytes) (n : ℕ) (m : Mempool)
      → IsConsistent P m
      → Leaves m (evict_later P order from n m)
  unfolding evict_later
  evict_later-Leaves [] from n m h = Leaves-refl m h
  evict_later-Leaves (id ∷ ids) from n m h =
      let one = remove_if-Leaves (is_later P from n (lookup id m.entries)) id m h in
      Leaves-trans one (evict_later-Leaves ids from n _ one.consistent)

  evict_victim-Leaves :
      (order : List Bytes) (id : Bytes) (o : Option Entry) (m : Mempool)
      → IsConsistent P m
      → Leaves m (evict_victim P order id o m)
  evict_victim-Leaves order id none m h = Leaves-refl m h
  evict_victim-Leaves order id (some e) m h = elim (Result-cases (from_address P e.tx)) [
    | inr (x, failed) ↦ rw (failed, evict_victim) (remove-Leaves id m h)
    | inl (from, sent) ↦
        let one = remove-Leaves id m h in
        rw (sent, evict_victim)
          (Leaves-trans one
            (evict_later-Leaves order from e.tx.nonce (remove P id m) one.consistent))
  ]

  pub evict_with_dependents-Leaves :
      (order : List Bytes) (id : Bytes) (m : Mempool)
      → IsConsistent P m
      → Leaves m (evict_with_dependents P order id m)
  unfolding evict_with_dependents
  evict_with_dependents-Leaves order id m h = evict_victim-Leaves order id (lookup id m.entries) m h

  evict_id-Leaves :
      (o : Option Bytes) (m : Mempool) (out : List Bytes)
      → IsConsistent P m
      → Leaves m (evict_id P o (m, out)).0
  evict_id-Leaves none m out h = Leaves-refl m h
  evict_id-Leaves (some id) m out h = remove-Leaves id m h

  evict_id_if-Leaves :
      (b : Bool) (o : Option Bytes) (m : Mempool) (out : List Bytes)
      → IsConsistent P m
      → Leaves m (if b then evict_id P o (m, out) else (m, out)).0
  evict_id_if-Leaves true o m out h = evict_id-Leaves o m out h
  evict_id_if-Leaves false o m out h = Leaves-refl m h

  evict_nonces-Leaves :
      (order : List ℕ) (from : Bytes) (n : ℕ) (m : Mempool) (out : List Bytes)
      → IsConsistent P m
      → Leaves m (evict_nonces P order from n (m, out)).0
  unfolding evict_nonces
  evict_nonces-Leaves [] from n m out h = Leaves-refl m h
  evict_nonces-Leaves (k ∷ ks) from n m out h =
      let next =
        if ltb n k then evict_id P (id_at m.by_sender_nonce from k) (m, out) else (m, out) in
      let one = evict_id_if-Leaves (ltb n k) (id_at m.by_sender_nonce from k) m out h in
      Leaves-trans one (evict_nonces-Leaves ks from n next.0 next.1 one.consistent)

  -- The sender's slot at the nonce is free after its eviction.
  evict_id-free :
      (m : Mempool) (from : Bytes) (n : ℕ) (out : List Bytes)
      → IsConsistent P m
      → id_at (evict_id P (id_at m.by_sender_nonce from n) (m, out)).0.by_sender_nonce from n ≡ none
  evict_id-free m from n out h = elim (Option-cases (id_at m.by_sender_nonce from n)) [
    | inl free ↦ rw free free
    | inr (id, held) ↦
        let at = h.pointed from n id held in
        let slot : id_at m.by_sender_nonce from at.entry.tx.nonce ≡ some id =
          subst (λ k. id_at m.by_sender_nonce from k ≡ some id) (sym at.nonce_is) held in
        rw (held, remove-present P id m at.entry at.found at.sent)
          (subst
            (λ k. id_at (index_remove from at.entry.tx.nonce id m.by_sender_nonce) from k ≡ none)
            at.nonce_is (id_at-index_remove_self from at.entry.tx.nonce id m.by_sender_nonce slot))
  ]

  pub evict_by_sender_nonce-Leaves :
      (order : List ℕ) (from : Bytes) (n : ℕ) (m : Mempool)
      → IsConsistent P m
      → Leaves m (evict_by_sender_nonce P order from n m).0
        × (id_at (evict_by_sender_nonce P order from n m).0.by_sender_nonce from n ≡ none)
  unfolding evict_by_sender_nonce
  evict_by_sender_nonce-Leaves order from n m h =
      let first = evict_id P (id_at m.by_sender_nonce from n) (m, []) in
      let one = evict_id-Leaves (id_at m.by_sender_nonce from n) m [] h in
      let rest = evict_nonces-Leaves order from n first.0 first.1 one.consistent in
      (Leaves-trans one rest, rest.shrinks.free from n (evict_id-free m from n [] h))

  append-head :
      (x : Bytes) (xs ys zs : List Bytes)
      → xs ≡ x ∷ ys
      → (rest : List Bytes) × (xs ++ zs ≡ x ∷ rest)
  append-head x xs ys zs e = (ys ++ zs, rw e refl)

  evict_id-head :
      (o : Option Bytes) (m : Mempool) (x : Bytes) (out ys : List Bytes)
      → out ≡ x ∷ ys
      → (rest : List Bytes) × ((evict_id P o (m, out)).1 ≡ x ∷ rest)
  evict_id-head none m x out ys e = (ys, e)
  evict_id-head (some id) m x out ys e = append-head x out ys (id ∷ []) e

  evict_id_if-head :
      (b : Bool) (o : Option Bytes) (m : Mempool) (x : Bytes) (out ys : List Bytes)
      → out ≡ x ∷ ys
      → (rest : List Bytes) × ((if b then evict_id P o (m, out) else (m, out)).1 ≡ x ∷ rest)
  evict_id_if-head true o m x out ys e = evict_id-head o m x out ys e
  evict_id_if-head false o m x out ys e = (ys, e)

  evict_nonces-head :
      (order : List ℕ) (from : Bytes) (n : ℕ) (m : Mempool) (x : Bytes) (out ys : List Bytes)
      → out ≡ x ∷ ys
      → (rest : List Bytes) × ((evict_nonces P order from n (m, out)).1 ≡ x ∷ rest)
  unfolding evict_nonces
  evict_nonces-head [] from n m x out ys e = (ys, e)
  evict_nonces-head (k ∷ ks) from n m x out ys e =
      let next =
        if ltb n k then evict_id P (id_at m.by_sender_nonce from k) (m, out) else (m, out) in
      let (zs, f) = evict_id_if-head (ltb n k) (id_at m.by_sender_nonce from k) m x out ys e in
      evict_nonces-head ks from n next.0 x next.1 zs f

  -- The sender's transaction at the nonce is out of the pool, and the first of those reported.
  pub evict_by_sender_nonce-gone :
      (order : List ℕ) (from : Bytes) (n : ℕ) (m : Mempool) (id : Bytes)
      → IsConsistent P m
      → id_at m.by_sender_nonce from n ≡ some id
      → (lookup id (evict_by_sender_nonce P order from n m).0.entries ≡ none)
        × ((rest : List Bytes) × ((evict_by_sender_nonce P order from n m).1 ≡ id ∷ rest))
  unfolding evict_by_sender_nonce
  evict_by_sender_nonce-gone order from n m id h held =
      let at = h.pointed from n id held in
      let first : evict_id P (id_at m.by_sender_nonce from n) (m, []) ≡ (remove P id m, id ∷ []) =
        rw held refl in
      let out : lookup id (remove P id m).entries ≡ none =
        ap (λ r. lookup id r.entries) (remove-present P id m at.entry at.found at.sent)
        ∙ lookup-erase_self id m.entries in
      let one = remove-Leaves id m h in
      let rest = evict_nonces-Leaves order from n (remove P id m) (id ∷ []) one.consistent in
      rw first (
        rest.shrinks.absent id out,
        evict_nonces-head order from n (remove P id m) id (id ∷ []) [] refl,
      )
