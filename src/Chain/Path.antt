-- ===== src/Chain/Path.antt =====
-- The validation of a candidate chain: the second loop of `computeCanonicalForTipLocked` of
-- blockchain/forks.go.
use neo_coin.Base.{
  ℕ, suc, ◌+◌, not, ◌||◌, ◌==◌, if◌then◌else◌, Option, none, some, List, [], ◌∷◌, length,
}
use mathlib.Core.List.{reverse}
use neo_coin.Base.Int.{ℤ}
use neo_coin.Base.Bytes.{Bytes, bytes_eq, hex_encode}
use neo_coin.Base.Dict.{Dict}
use neo_coin.Base.Result.{Result, ok, err, ◌>>=◌, ◌>>◌, fail_if}
use neo_coin.Types.{Error, Block, ConsensusParams}
use neo_coin.Platform.{Platform}
use neo_coin.Difficulty.{expected_difficulty_bits, work_for_difficulty_bits}
use neo_coin.TimeRules.{validate_block_time}
use neo_coin.Header.{block_version_for_height}
use neo_coin.Ledger.{State, Outcome, apply_block_to_state}
use neo_coin.Chain.Walk.{ancestors}

-- The header of the first block.
unfoldable pub check_genesis : ConsensusParams → Block → Result Error (Unit {0})
check_genesis p b = do
  fail_if (not (b.height == 0) || not (length b.prev_hash == 0)) Error.bad_genesis_header
  fail_if (not (b.version == block_version_for_height p 0)) Error.bad_genesis_version

abbrev pub check_bits : Block → Option ℕ → Result Error (Unit {0})
check_bits b none = err Error.difficulty_calc_failed
check_bits b (some expected) = do
  fail_if (expected == 0) Error.difficulty_calc_failed
  fail_if (not (b.difficulty_bits == expected)) Error.bad_difficulty

-- The header of block `i` of the path, behind `prev`. A panic of the difficulty rule counts as its
-- failure. `prev.Height+1` is written without its wrap to 0, since a block of height 0 is a root,
-- which the walk puts in front only.
unfoldable pub check_link :
    ConsensusParams → ℤ → List Block → ℕ → Block → Block → Result Error (Unit {0})
check_link p now path i prev b = do
  fail_if (not (b.height == prev.height + 1)) Error.bad_height_linkage
  fail_if (not (bytes_eq (hex_encode b.prev_hash) (hex_encode prev.hash)))
      Error.bad_prev_hash_linkage
  validate_block_time p now path i
  if p.difficulty_enable then check_bits b (expected_difficulty_bits p path i) else ok tt
  fail_if (not (b.version == block_version_for_height p b.height)) Error.bad_block_version

-- The header test of the loop's body.
abbrev pub check_header :
    ConsensusParams → ℤ → List Block → ℕ → Option Block → Block → Result Error (Unit {0})
check_header p now path i none b = check_genesis p b
check_header p now path i (some prev) b = check_link p now path i prev b

abbrev pub of_outcome : Outcome → Result Error State
of_outcome (s, none) = ok s
of_outcome (s, some e) = err e

-- The result of a valid candidate: its path, its state and its work.
abbrev pub Candidate : Type 0
Candidate = List Block × State × ℕ

module _ (P : Platform) (p : ConsensusParams) (now : ℤ) where
  -- The loop over the path, from index `i` behind `prev`.
  unfoldable pub validate_from :
      List Block → ℕ → Option Block → List Block → State → ℕ → Result Error (State × ℕ)
  validate_from path i prev [] s work = ok (s, work)
  validate_from path i prev (b ∷ bs) s work = do
    check_header p now path i prev b
    s' ← of_outcome (apply_block_to_state P p s b)
    validate_from path (suc i) (some b) bs s' (work + work_for_difficulty_bits b.difficulty_bits)

  unfoldable pub validate_path : List Block → Result Error Candidate
  unfolding validate_from
  validate_path path = do (s, work) ← validate_from path 0 none path [] 0; ok (path, s, work)

  abbrev pub validate_walk : Option (Result Error (List Block)) → Result Error Candidate
  validate_walk none = err Error.cycle_detected
  validate_walk (some r) = do rev ← r; validate_path (reverse rev)

  -- `computeCanonicalForTipLocked`. The walk takes one round more than the tree has entries.
  unfoldable pub compute_canonical : Dict Bytes Block → Bytes → Result Error Candidate
  unfolding validate_path
  compute_canonical tree tip = validate_walk (ancestors (suc (length tree)) tree [] tip)
