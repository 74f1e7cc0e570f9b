-- ===== src/Merkle/Levels.antt =====
-- The levels of the tree: their lengths, and a node's parent.
use neo_coin.Base.{
  ℕ, zero, suc, ◌+◌, ◌-◌, ◌/◌, ◌<◌, ◌≡◌, refl, arith, List, [], ◌∷◌, length, get_or, ◌==◌,
  if◌then◌else◌, some, map, not, get_elem?,
}
use neo_coin.Base.Bytes.{Bytes}
use neo_coin.Base.Result.{ok, fail_if, >>=-eq-ok}
use neo_coin.Types.{Error}
use neo_coin.Platform.{Platform}
use neo_coin.Merkle.{hash_leaf, hash_node, next_level, sibling, leaf_level, Step}

-- Every node of a level is a 32-byte hash.
abbrev pub All32 : List Bytes → Type 0
All32 [] = Unit {0}
All32 (x ∷ xs) = (length x ≡ 32) × All32 xs

pub All32-get_or :
    (xs : List Bytes) (i : ℕ) → All32 xs → i < length xs → length (get_or xs i []) ≡ 32
All32-get_or [] i h lt = elim lt [ ]
All32-get_or (x ∷ xs) zero h lt = h.0
All32-get_or (x ∷ xs) (suc i) h lt = All32-get_or xs i h.1 (omega arith)

pub All32-get_elem? :
    (xs : List Bytes) (i : ℕ) {x : Bytes} → All32 xs → get_elem? xs i ≡ some x → length x ≡ 32
All32-get_elem? [] i h e = cc
All32-get_elem? (x ∷ xs) zero h e = grind (arith, h.0)
All32-get_elem? (x ∷ xs) (suc i) h e = All32-get_elem? xs i h.1 e

module _ (P : Platform) where
  length-hash_node : (l r : Bytes) → length (hash_node P l r) ≡ 32
  unfolding hash_node
  length-hash_node l r = P.length-sha256 _

  pub next_level-All32 : (xs : List Bytes) → All32 (next_level P xs)
  unfolding next_level
  next_level-All32 [] = tt
  next_level-All32 (a ∷ []) = (length-hash_node a a, tt)
  next_level-All32 (a ∷ b ∷ rest) = (length-hash_node a b, next_level-All32 rest)

  -- A level has half as many nodes as the one below, rounded up.
  pub length-next_level : (xs : List Bytes) → length (next_level P xs) ≡ (length xs + 1) / 2
  unfolding next_level
  length-next_level [] = omega arith
  length-next_level (a ∷ []) = omega arith
  length-next_level (a ∷ b ∷ rest) = omega (arith, length-next_level rest)

  -- The parent that a proof's step computes.
  abbrev pub parent : Bytes → Step → Bytes
  parent cur (sib, left) = if left then hash_node P sib cur else hash_node P cur sib

  sibling_shift :
      (a b : Bytes) (rest : List Bytes) (idx : ℕ)
      → sibling P (a ∷ b ∷ rest) (suc (suc idx)) ≡ sibling P rest idx
  unfolding sibling
  sibling_shift a b rest zero = ground arith
  sibling_shift a b rest (suc k) = ground arith

  get_or-next_level_shift :
      (a b : Bytes) (rest : List Bytes) (idx : ℕ)
      → get_or (next_level P (a ∷ b ∷ rest)) (suc (suc idx) / 2) []
        ≡ get_or (next_level P rest) (idx / 2) []
  unfolding next_level
  get_or-next_level_shift a b rest idx =
      let e : suc (suc idx) / 2 ≡ suc (idx / 2) = omega arith in rw e

  first_parent :
      (a b : Bytes) (rest : List Bytes)
      → parent a (sibling P (a ∷ b ∷ rest) 0) ≡ get_or (next_level P (a ∷ b ∷ rest)) (0 / 2) []
  unfolding sibling next_level
  first_parent a b rest = ground arith

  -- The step of a node, applied to it, gives its parent on the next level.
  pub parent-sibling :
      (xs : List Bytes) (idx : ℕ)
      → idx < length xs
      → parent (get_or xs idx []) (sibling P xs idx) ≡ get_or (next_level P xs) (idx / 2) []
  parent-sibling [] idx h = elim h [ ]
  parent-sibling (a ∷ []) zero h = unfold sibling next_level in refl
  parent-sibling (a ∷ []) (suc idx) h = absurd (omega arith)
  parent-sibling (a ∷ b ∷ rest) zero h = first_parent a b rest
  parent-sibling (a ∷ b ∷ rest) (suc zero) h = unfold sibling next_level in refl
  parent-sibling (a ∷ b ∷ rest) (suc (suc idx)) h =
      rw (sibling_shift a b rest idx, get_or-next_level_shift a b rest idx)
        (parent-sibling rest idx (omega arith))

  pub length-sibling :
      (xs : List Bytes) (idx : ℕ) → All32 xs → idx < length xs → length (sibling P xs idx).0 ≡ 32
  unfolding sibling
  length-sibling xs idx h lt = ground (
    arith,
    All32-get_or xs idx h lt,
    All32-get_or xs (idx + 1) h,
    All32-get_or xs (idx - 1) h (omega arith),
  )

  length-hash_leaf : (l : Bytes) → length (hash_leaf P l) ≡ 32
  unfolding hash_leaf
  length-hash_leaf l = P.length-sha256 _

  pub hash_leaves-All32 : (ls : List Bytes) → All32 (map (hash_leaf P) ls)
  hash_leaves-All32 [] = tt
  hash_leaves-All32 (l ∷ ls) = (length-hash_leaf l, hash_leaves-All32 ls)

  -- The leaf level exists exactly when every leaf has 32 bytes, and holds the leaves' hashes.
  pub leaf_level-map : (ls : List Bytes) → All32 ls → leaf_level P ls ≡ ok (map (hash_leaf P) ls)
  unfolding leaf_level
  leaf_level-map [] h = refl
  leaf_level-map (l ∷ ls) h = ground (arith, leaf_level-map ls h.1)

  pub leaf_level-parts :
      (ls : List Bytes) {level : List Bytes}
      → leaf_level P ls ≡ ok level
      → All32 ls × (level ≡ map (hash_leaf P) ls)
  unfolding leaf_level
  leaf_level-parts [] e = (tt, ground arith)
  leaf_level-parts (l ∷ ls) e =
      let (u, sized, rest) =
        >>=-eq-ok (fail_if (not (length l == 32)) Error.leaf_not_32_bytes) _ e in
      let (hashes, leaves, last) = >>=-eq-ok (leaf_level P ls) _ rest in
      let (all, same) = leaf_level-parts ls leaves in ((ground arith, all), ground arith)

  pub get_or-map :
      (ls : List Bytes) (i : ℕ) {l : Bytes}
      → get_elem? ls i ≡ some l
      → get_or (map (hash_leaf P) ls) i [] ≡ hash_leaf P l
  get_or-map [] i e = cc
  get_or-map (x ∷ ls) zero e = ground arith
  get_or-map (x ∷ ls) (suc i) e = get_or-map ls i e
