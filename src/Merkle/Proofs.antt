-- ===== src/Merkle/Proofs.antt =====
-- A proof made by `MerkleProof` is accepted by `VerifyMerkleProof` at the root of `MerkleRoot`, and
-- the fuel of the loops is enough.
use neo_coin.Base.{
  ℕ, zero, suc, ◌/◌, ◌≤◌, ◌<◌, ◌≡◌, refl, ◌∙◌, arith, Bool, true, List, [], ◌∷◌, map, length,
  get_or, get_elem?, lt-length_of_get_elem?, some, length-map,
}
use neo_coin.Base.Int.{pos}
use neo_coin.Base.Bytes.{Bytes, bytes_eq_refl}
use neo_coin.Base.Result.{ok}
use neo_coin.Platform.{Platform}
use neo_coin.Merkle.{
  hash_leaf, next_level, root_loop, proof_loop, sibling, Step, merkle_root, merkle_proof, climb,
  verify_merkle_proof,
}
use neo_coin.Merkle.Levels.{
  All32, All32-get_elem?, next_level-All32, length-next_level, parent, parent-sibling,
  length-sibling, hash_leaves-All32, leaf_level-map, get_or-map,
}

module _ (P : Platform) where
  climb-step :
      (cur : Bytes) (s : Step) (steps : List Step)
      → length s.0 ≡ 32
      → climb P cur (map (λ s. s.0) (s ∷ steps)) (map (λ s. s.1) (s ∷ steps))
        ≡ climb P (parent P cur s) (map (λ s. s.0) steps) (map (λ s. s.1) steps)
  unfolding climb
  climb-step cur s steps h = rw h

  -- The loops on one level of the tree: the root, and a branch that leads from the node to it.
  pub record Climbs (fuel : ℕ) (level : List Bytes) (idx : ℕ) : Type 0 where
    pub root : Bytes
    pub steps : List Step
    pub is_root : root_loop P fuel level ≡ some root
    pub is_proof : proof_loop P fuel level idx ≡ some (steps, root)
    pub climbs :
        climb P (get_or level idx []) (map (λ s. s.0) steps) (map (λ s. s.1) steps) ≡ ok root
    pub length-root : length root ≡ 32

  Climbs-up :
      (fuel : ℕ) (a b : Bytes) (rest : List Bytes) (idx : ℕ)
      → All32 (a ∷ b ∷ rest)
      → idx < length (a ∷ b ∷ rest)
      → Climbs fuel (next_level P (a ∷ b ∷ rest)) (idx / 2)
      → Climbs (suc fuel) (a ∷ b ∷ rest) idx
  unfolding root_loop proof_loop
  Climbs-up fuel a b rest idx all lt up =
      let level = a ∷ b ∷ rest in
      record {
        root = up.root;
        steps = sibling P level idx ∷ up.steps;
        is_root = up.is_root;
        is_proof = rw up.is_proof;
        climbs =
            climb-step (get_or level idx []) (sibling P level idx) up.steps
              (length-sibling P level idx all lt)
            ∙ rw (parent-sibling P level idx lt) up.climbs;
        length-root = up.length-root;
      }

  root-Climbs : (fuel : ℕ) (r : Bytes) → All32 (r ∷ []) → Climbs fuel (r ∷ []) 0
  unfolding root_loop proof_loop climb
  root-Climbs zero r all = record {
    root = r;
    steps = [];
    is_root = refl;
    is_proof = refl;
    climbs = refl;
    length-root = all.0;
  }
  root-Climbs (suc fuel) r all = record {
    root = r;
    steps = [];
    is_root = refl;
    is_proof = refl;
    climbs = refl;
    length-root = all.0;
  }

  loops-Climbs :
      (fuel : ℕ) (level : List Bytes) (idx : ℕ)
      → All32 level
      → idx < length level
      → length level ≤ suc fuel
      → Climbs fuel level idx
  loops-Climbs fuel [] idx all lt le = absurd (omega arith)
  loops-Climbs fuel (r ∷ []) zero all lt le = root-Climbs fuel r all
  loops-Climbs fuel (r ∷ []) (suc idx) all lt le = absurd (omega arith)
  loops-Climbs zero (a ∷ b ∷ rest) idx all lt le = absurd (omega arith)
  loops-Climbs (suc fuel) (a ∷ b ∷ rest) idx all lt le =
      let level = a ∷ b ∷ rest in
      let shorter = length-next_level P level in
      Climbs-up fuel a b rest idx all lt (
        loops-Climbs fuel (next_level P level) (idx / 2) (next_level-All32 P level)
          (omega (arith, shorter)) (omega (arith, shorter)))

  leaves-Climbs :
      (leaves : List Bytes) (i : ℕ)
      → i < length leaves
      → Climbs (length leaves) (map (hash_leaf P) leaves) i
  leaves-Climbs leaves i lt =
      let same = length-map leaves (hash_leaf P) in
      loops-Climbs (length leaves) (map (hash_leaf P) leaves) i (hash_leaves-All32 P leaves)
        (omega (arith, same)) (omega (arith, same))

  merkle_root-root_loop :
      (leaves : List Bytes) {root : Bytes}
      → All32 leaves
      → 0 < length leaves
      → root_loop P (length leaves) (map (hash_leaf P) leaves) ≡ some root
      → merkle_root P leaves ≡ ok root
  unfolding merkle_root
  merkle_root-root_loop leaves all some_leaf e = ground (arith, leaf_level-map P leaves all)

  merkle_proof-proof_loop :
      (leaves : List Bytes) (i : ℕ) {steps : List Step} {root : Bytes}
      → All32 leaves
      → i < length leaves
      → proof_loop P (length leaves) (map (hash_leaf P) leaves) i ≡ some (steps, root)
      → merkle_proof P leaves (pos i) ≡ ok (map (λ s. s.0) steps, map (λ s. s.1) steps, root)
  unfolding merkle_proof
  merkle_proof-proof_loop leaves i all lt e = ground (arith, leaf_level-map P leaves all)

  verify-climb :
      (leaf : Bytes) (i : ℕ) (steps : List Step) (root : Bytes)
      → length leaf ≡ 32
      → length root ≡ 32
      → climb P (hash_leaf P leaf) (map (λ s. s.0) steps) (map (λ s. s.1) steps) ≡ ok root
      → verify_merkle_proof P leaf (pos i) (map (λ s. s.0) steps) (map (λ s. s.1) steps) root
        ≡ ok true
  unfolding verify_merkle_proof
  verify-climb leaf i steps root hl hr e = ground (
    arith,
    e,
    bytes_eq_refl root,
    length-map steps (λ (s : Step). s.0),
    length-map steps (λ (s : Step). s.1),
  )

  -- For a non-empty list of 32-byte leaves and an index within it, `MerkleRoot` and `MerkleProof`
  -- return, with the same root, and `VerifyMerkleProof` accepts the branch for the leaf at that
  -- index.
  pub merkle_proof-verifies :
      (leaves : List Bytes) (i : ℕ) (leaf : Bytes)
      → All32 leaves
      → get_elem? leaves i ≡ some leaf
      → (root : Bytes) × (branch : List Bytes) × (sides : List Bool) × (merkle_root P leaves
          ≡ ok root)
        × (merkle_proof P leaves (pos i) ≡ ok (branch, sides, root))
        × (verify_merkle_proof P leaf (pos i) branch sides root ≡ ok true)
  merkle_proof-verifies leaves i leaf all e =
      let lt = lt-length_of_get_elem? leaves i e in
      let c = leaves-Climbs leaves i lt in
      let start = get_or-map P leaves i e in
      (
        c.root,
        map (λ s. s.0) c.steps,
        map (λ s. s.1) c.steps,
        merkle_root-root_loop leaves all (omega arith) c.is_root,
        merkle_proof-proof_loop leaves i all lt c.is_proof,
        verify-climb leaf i c.steps c.root (All32-get_elem? leaves i all e) c.length-root
            (rw (← start) c.climbs),
      )
