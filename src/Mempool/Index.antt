-- ===== src/Mempool/Index.antt =====
-- Reading the pool's index of senders and nonces after a write to it.
use neo_coin.Base.{
  ℕ, ◌≡◌, ◌≢◌, refl, arith, true, false, ◌&&◌, ◌==◌, if◌then◌else◌, none, some, [], ◌∷◌, length,
  Option-cases, inl, inr, Bool-cases,
}
use neo_coin.Base.Bytes.{Bytes, bytes_eq, bytes_eq_iff}
use neo_coin.Base.Dict.{Dict, bytes_key, ℕ_key, lookup, insert, erase, lookup-insert, lookup-erase}
use neo_coin.Mempool.{nonces_of, id_at, index_put, drop_nonce, index_remove}

abbrev pub Index : Type 0
Index = Dict Bytes (Dict ℕ Bytes)

lookup-empty : (n : ℕ) (m : Dict ℕ Bytes) → (length m == 0) ≡ true → lookup n m ≡ none
unfolding lookup
lookup-empty n [] h = refl
lookup-empty n (x ∷ m) h = ground arith

nonces_of-insert :
    (a b : Bytes) (d : Dict ℕ Bytes) (x : Index)
    → nonces_of (insert a d x) b ≡ (if bytes_eq a b then d else nonces_of x b)
unfolding nonces_of
nonces_of-insert a b d x = ground (arith, lookup-insert a b d x)

nonces_of-erase :
    (a b : Bytes) (x : Index)
    → nonces_of (erase a x) b ≡ (if bytes_eq a b then [] else nonces_of x b)
unfolding nonces_of
nonces_of-erase a b x = ground (arith, lookup-erase a b x)

-- What stands where after a put.
pub id_at-index_put :
    (a b : Bytes) (n k : ℕ) (id : Bytes) (x : Index)
    → id_at (index_put a n id x) b k ≡ (if bytes_eq a b && n == k then some id else id_at x b k)
unfolding id_at index_put
id_at-index_put a b n k id x = ground (
  arith,
  nonces_of-insert a b (insert n id (nonces_of x a)) x,
  lookup-insert n k id (nonces_of x a),
  bytes_eq_iff a b,
)

-- What stands under a nonce after one is dropped: the dropped one only if it stood under the id.
lookup-drop_nonce :
    (n k : ℕ) (id : Bytes) (m : Dict ℕ Bytes)
    → ((n ≡ k) → (lookup n m ≡ some id) → lookup k (drop_nonce n id m) ≡ none)
      × ((n ≢ k) → lookup k (drop_nonce n id m) ≡ lookup k m)
      × ((lookup n m ≢ some id) → lookup k (drop_nonce n id m) ≡ lookup k m)
unfolding drop_nonce
lookup-drop_nonce n k id m = elim (Option-cases (lookup n m)) [
  | inl absent ↦ rw absent (ground arith)
  | inr (j, found) ↦ rw found (ground (arith, lookup-erase n k m, bytes_eq_iff j id))
]

drop_nonce-empty : (n : ℕ) (id : Bytes) → drop_nonce n id [] ≡ []
unfolding drop_nonce lookup
drop_nonce-empty n id = refl

nonces_of-none : (a : Bytes) (x : Index) → lookup a x ≡ none → nonces_of x a ≡ []
unfolding nonces_of
nonces_of-none a x e = rw (e, nonces_of)

nonces_of-some :
    (a : Bytes) (x : Index) {m : Dict ℕ Bytes} → lookup a x ≡ some m → nonces_of x a ≡ m
unfolding nonces_of
nonces_of-some a x e = rw (e, nonces_of)

index_remove-none :
    (a : Bytes) (n : ℕ) (id : Bytes) (x : Index) → lookup a x ≡ none → index_remove a n id x ≡ x
unfolding index_remove
index_remove-none a n id x e = rw (e, index_remove)

index_remove-gone :
    (a : Bytes) (n : ℕ) (id : Bytes) (x : Index) {m : Dict ℕ Bytes}
    → lookup a x ≡ some m
    → (length (drop_nonce n id m) == 0) ≡ true
    → index_remove a n id x ≡ erase a x
unfolding index_remove
index_remove-gone a n id x e gone = rw (e, index_remove) (rw gone)

index_remove-kept :
    (a : Bytes) (n : ℕ) (id : Bytes) (x : Index) {m : Dict ℕ Bytes}
    → lookup a x ≡ some m
    → (length (drop_nonce n id m) == 0) ≡ false
    → index_remove a n id x ≡ insert a (drop_nonce n id m) x
unfolding index_remove
index_remove-kept a n id x e kept = rw (e, index_remove) (rw kept)

-- The nonces of a sender after a removal, as far as they can be looked up.
nonces_of-index_remove :
    (a b : Bytes) (n k : ℕ) (id : Bytes) (x : Index)
    → lookup k (nonces_of (index_remove a n id x) b)
      ≡ lookup k (if bytes_eq a b then drop_nonce n id (nonces_of x a) else nonces_of x b)
nonces_of-index_remove a b n k id x = elim (Option-cases (lookup a x)) [
  | inl absent ↦
      rw (index_remove-none a n id x absent, nonces_of-none a x absent, drop_nonce-empty n id)
        (ground (arith, bytes_eq_iff a b, nonces_of-none a x absent))
  | inr (m, found) ↦ elim (Bool-cases (length (drop_nonce n id m) == 0)) [
    | inl gone ↦
        rw (index_remove-gone a n id x found gone, nonces_of-some a x found, nonces_of-erase a b x)
          (ground (arith, lookup-empty k (drop_nonce n id m) gone, lookup-empty k [] refl))
    | inr kept ↦ rw (
      index_remove-kept a n id x found kept,
      nonces_of-some a x found,
      nonces_of-insert a b (drop_nonce n id m) x,
    )
  ]
]

-- What stands where after a removal: under the sender, what is left of its nonces.
id_at-index_remove :
    (a b : Bytes) (n k : ℕ) (id : Bytes) (x : Index)
    → id_at (index_remove a n id x) b k
      ≡ (if bytes_eq a b then lookup k (drop_nonce n id (nonces_of x a)) else id_at x b k)
unfolding id_at
id_at-index_remove a b n k id x = ground (arith, nonces_of-index_remove a b n k id x)

-- The id that is removed no longer stands there.
pub id_at-index_remove_self :
    (a : Bytes) (n : ℕ) (id : Bytes) (x : Index)
    → id_at x a n ≡ some id
    → id_at (index_remove a n id x) a n ≡ none
unfolding id_at
id_at-index_remove_self a n id x e = ground (
  arith,
  id_at-index_remove a a n n id x,
  bytes_eq_iff a a,
  lookup-drop_nonce n n id (nonces_of x a),
)

-- Everything else stands where it stood.
pub id_at-index_remove_other :
    (a b : Bytes) (n k : ℕ) (id j : Bytes) (x : Index)
    → id_at x b k ≡ some j
    → j ≢ id
    → id_at (index_remove a n id x) b k ≡ some j
unfolding id_at
id_at-index_remove_other a b n k id j x e ne = ground (
  arith,
  id_at-index_remove a b n k id x,
  bytes_eq_iff a b,
  lookup-drop_nonce n k id (nonces_of x a),
)

-- Nothing new stands anywhere.
pub id_at-index_remove_back :
    (a b : Bytes) (n k : ℕ) (id j : Bytes) (x : Index)
    → id_at (index_remove a n id x) b k ≡ some j
    → id_at x b k ≡ some j
unfolding id_at
id_at-index_remove_back a b n k id j x e = ground (
  arith,
  id_at-index_remove a b n k id x,
  bytes_eq_iff a b,
  lookup-drop_nonce n k id (nonces_of x a),
)
