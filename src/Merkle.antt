-- ===== src/Merkle.antt =====
-- Merkle roots and proofs: blockchain/merkle.go. Hashes are domain separated; a level of odd length
-- duplicates its last node.
pub mod Levels
pub mod Proofs
use neo_coin.Base.{
  ℕ, zero, suc, ◌+◌, ◌-◌, ◌*◌, ◌/◌, ◌%◌, Bool, true, false, not, ltb, leb, ◌==◌, if◌then◌else◌,
  Option, none, some, List, [], ◌∷◌, ◌++◌, map, length, get_or,
}
use neo_coin.Base.Int.{ℤ, pos, negsuc, ltb_ℤ}
use neo_coin.Base.Bytes.{Bytes, bytes_eq}
use neo_coin.Base.Result.{Result, ok, err, ◌>>=◌, ◌>>◌, fail_if}
use neo_coin.Types.{Error}
use neo_coin.Platform.{Platform}

-- One step of a proof: the sibling's hash and whether it stands on the left (`branch[i]` and
-- `siblingLeft[i]`).
abbrev pub Step : Type 0
Step = Bytes × Bool

module _ (P : Platform) where
  unfoldable pub hash_leaf : Bytes → Bytes
  hash_leaf leaf = P.sha256 (0 ∷ leaf)

  -- `hashNode`, of two hashes of 32 bytes: its buffer holds no more of either.
  unfoldable pub hash_node : Bytes → Bytes → Bytes
  hash_node left right = P.sha256 (1 ∷ left ++ right)

  -- The inner loop of `MerkleRoot`: pairs of neighbours, the last one with itself if it is alone.
  unfoldable pub next_level : List Bytes → List Bytes
  next_level [] = []
  next_level (left ∷ []) = hash_node left left ∷ []
  next_level (left ∷ right ∷ rest) = hash_node left right ∷ next_level rest

  -- The loop over the levels, on fuel.
  unfoldable pub root_loop : ℕ → List Bytes → Option Bytes
  root_loop fuel [] = none
  root_loop fuel (root ∷ []) = some root
  root_loop zero (a ∷ b ∷ rest) = none
  root_loop (suc fuel) (a ∷ b ∷ rest) = root_loop fuel (next_level (a ∷ b ∷ rest))

  -- The leaf level: each leaf of 32 bytes is hashed.
  unfoldable pub leaf_level : List Bytes → Result Error (List Bytes)
  leaf_level [] = ok []
  leaf_level (l ∷ ls) = do
    fail_if (not (length l == 32)) Error.leaf_not_32_bytes
    rest ← leaf_level ls
    ok (hash_leaf l ∷ rest)

  -- A loop's result, where running out of fuel shows as an error that the source does not have.
  abbrev or_fail {ℓ} : {A : Type ℓ} → Option A → Result Error A
  or_fail none = err Error.empty_leaves
  or_fail (some a) = ok a

  -- `MerkleRoot`. As many rounds as leaves are enough.
  unfoldable pub merkle_root : List Bytes → Result Error Bytes
  merkle_root leaves = do
    fail_if (length leaves == 0) Error.empty_leaves
    level ← leaf_level leaves
    or_fail (root_loop (length leaves) level)

  -- The sibling that `MerkleProof` records at one level.
  unfoldable pub sibling : List Bytes → ℕ → Step
  sibling level idx =
      if idx % 2 == 0
      then (
        if ltb (idx + 1) (length level) then get_or level (idx + 1) [] else get_or level idx [],
        false,
      )
      else (get_or level (idx - 1) [], true)

  abbrev cons_step : Step → Option (List Step × Bytes) → Option (List Step × Bytes)
  cons_step s none = none
  cons_step s (some (branch, root)) = some (s ∷ branch, root)

  -- The loop of `MerkleProof`, on fuel.
  unfoldable pub proof_loop : ℕ → List Bytes → ℕ → Option (List Step × Bytes)
  proof_loop fuel [] idx = none
  proof_loop fuel (root ∷ []) idx = some ([], root)
  proof_loop zero (a ∷ b ∷ rest) idx = none
  proof_loop (suc fuel) (a ∷ b ∷ rest) idx =
      cons_step (sibling (a ∷ b ∷ rest) idx) (proof_loop fuel (next_level (a ∷ b ∷ rest)) (idx / 2))

  -- `index < 0 || index >= n`.
  unfoldable pub outside : ℤ → ℕ → Bool
  outside (pos i) n = leb n i
  outside (negsuc i) n = true

  unfoldable pub to_index : ℤ → ℕ
  to_index (pos i) = i
  to_index (negsuc i) = 0

  abbrev unzip : List Step × Bytes → List Bytes × List Bool × Bytes
  unzip (steps, root) = (map (λ s. s.0) steps, map (λ s. s.1) steps, root)

  -- `MerkleProof`: the branch bottom up, on which side each sibling stands, and the root.
  unfoldable pub merkle_proof : List Bytes → ℤ → Result Error (List Bytes × List Bool × Bytes)
  unfolding outside to_index
  merkle_proof leaves index = do
    fail_if (length leaves == 0) Error.empty_leaves
    fail_if (outside index (length leaves)) Error.index_out_of_range
    level ← leaf_level leaves
    proof ← or_fail (proof_loop (length leaves) level (to_index index))
    ok (unzip proof)

  -- The loop of `VerifyMerkleProof`, over two slices of one length.
  unfoldable pub climb : Bytes → List Bytes → List Bool → Result Error Bytes
  climb cur [] sides = ok cur
  climb cur (sib ∷ branch) [] = err Error.side_length_mismatch
  climb cur (sib ∷ branch) (left ∷ sides) = do
    fail_if (not (length sib == 32)) Error.branch_item_not_32_bytes
    climb (if left then hash_node sib cur else hash_node cur sib) branch sides

  -- `VerifyMerkleProof`.
  unfoldable pub verify_merkle_proof :
      Bytes → ℤ → List Bytes → List Bool → Bytes → Result Error Bool
  unfolding climb
  verify_merkle_proof leaf index branch sibling_left expected_root = do
    fail_if (not (length leaf == 32)) Error.leaf_not_32_bytes
    fail_if (not (length expected_root == 32)) Error.root_not_32_bytes
    fail_if (not (length branch == length sibling_left)) Error.side_length_mismatch
    fail_if (ltb_ℤ index (pos 0)) Error.negative_index
    cur ← climb (hash_leaf leaf) branch sibling_left
    ok (bytes_eq cur expected_root)
