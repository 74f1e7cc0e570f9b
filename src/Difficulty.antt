-- ===== src/Difficulty.antt =====
-- The difficulty of the next block: blockchain/difficulty.go, and the work that a difficulty stands
-- for, blockchain/work.go. `int64` sums and products wrap by `to_i64`; `none` is a run-time panic
-- (an index out of range).
pub mod Laws
use neo_coin.Base.{
  ℕ, zero, suc, ◌+◌, ◌-◌, ◌*◌, ◌/◌, ◌%◌, ◌^◌, Bool, true, false, not, ◌&&◌, ◌||◌, ltb, leb, ◌==◌,
  if◌then◌else◌, Option, none, some, List, [], ◌∷◌, length, get_elem?, take,
}
use neo_coin.Base.Int.{ℤ, pos, negsuc, ◌-ℤ◌, ◌+ℤ◌, ◌*ℤ◌, quot_ℤ, ltb_ℤ, leb_ℤ, to_i64, pos_part}
use neo_coin.Types.{Block, ConsensusParams}

abbrev pub max_bits : ℕ
max_bits = 256

-- `clampDifficultyBits`.
unfoldable pub clamp_difficulty_bits : ConsensusParams → ℕ → ℕ
clamp_difficulty_bits p bits =
    let above = if ltb bits 1 then 1 else bits in
    let b = if ltb max_bits above then max_bits else above in
    if ltb b p.min_difficulty_bits
    then p.min_difficulty_bits
    else if ltb p.max_difficulty_bits b
    then p.max_difficulty_bits
    else b

-- `uint32(next)` for a `next` of at least 1.
abbrev pub to_u32 : ℤ → ℕ
to_u32 n = pos_part n % 2 ^ 32

-- `if x <= 0 { x = 1 }`.
unfoldable pub at_least_one : ℤ → ℤ
at_least_one x = if leb_ℤ x (pos 0) then pos 1 else x

-- The expected span of the window, in seconds.
unfoldable pub expected_span : ConsensusParams → ℤ
unfolding at_least_one
expected_span p =
    let target_sec = at_least_one (quot_ℤ p.target_block_time (pos 1_000_000_000)) in
    at_least_one (to_i64 (p.difficulty_window *ℤ target_sec))

-- The bounds that the actual span is held to.
unfoldable pub hold_span : ℤ → ℤ → ℤ
hold_span expected actual =
    let low = quot_ℤ expected (pos 4) in
    let high = to_i64 (expected *ℤ pos 4) in
    let raised = if ltb_ℤ actual low then low else actual in
    if ltb_ℤ high raised then high else raised

-- The step from the parent's bits, before the final clamp.
unfoldable pub step_bits : ConsensusParams → ℕ → ℤ → ℤ → ℤ
step_bits p bits expected actual =
    if ltb_ℤ actual (quot_ℤ expected (pos 2))
    then to_i64 (pos bits +ℤ pos p.difficulty_max_step)
    else if ltb_ℤ (to_i64 (expected *ℤ pos 2)) actual
    then to_i64 (pos bits -ℤ pos p.difficulty_max_step)
    else pos bits

-- The retarget rule, from the parent's bits and the span of the window.
unfoldable pub retarget : ConsensusParams → ℕ → ℤ → ℕ
retarget p bits span =
    let expected = expected_span p in
    let next = step_bits p bits expected (hold_span expected (at_least_one span)) in
    clamp_difficulty_bits p (to_u32 (if ltb_ℤ next (pos 1) then pos 1 else next))

-- `path[parentIdx-window]`.
unfoldable pub older_block : List Block → ℕ → ℤ → Option Block
older_block path parent_idx (pos w) =
    if leb w parent_idx then get_elem? path (parent_idx - w) else none
older_block path parent_idx (negsuc w) = get_elem? path (parent_idx + suc w)

abbrev pub retarget_from : ConsensusParams → Block → Option Block → Option ℕ
retarget_from p parent none = none
retarget_from p parent (some older) =
    some
      (retarget p parent.difficulty_bits (to_i64 (parent.timestamp_unix -ℤ older.timestamp_unix)))

unfoldable pub next_bits_of_parent : ConsensusParams → List Block → ℕ → Block → Option ℕ
next_bits_of_parent p path parent_idx parent =
    if not p.difficulty_enable
    then (if parent.difficulty_bits == 0
        then some p.genesis_difficulty_bits
        else some (clamp_difficulty_bits p parent.difficulty_bits))
    else if ltb_ℤ (pos parent_idx) p.difficulty_window
    then some (clamp_difficulty_bits p parent.difficulty_bits)
    else retarget_from p parent (older_block path parent_idx p.difficulty_window)

-- `nextDifficultyBitsFromPath`.
unfoldable pub next_difficulty_bits : ConsensusParams → List Block → Option ℕ
unfolding next_bits_of_parent
next_difficulty_bits p path = elim (get_elem? path (length path - 1)) [
  | none ↦ some p.genesis_difficulty_bits
  | some parent ↦ next_bits_of_parent p path (length path - 1) parent
]

-- `expectedDifficultyBitsForBlockIndex`; the callers' index is not negative.
unfoldable pub expected_difficulty_bits : ConsensusParams → List Block → ℕ → Option ℕ
unfolding next_difficulty_bits
expected_difficulty_bits p path idx =
    if idx == 0 || leb (length path) idx then some 0 else next_difficulty_bits p (take idx path)

-- `WorkForDifficultyBits`.
unfoldable pub work_for_difficulty_bits : ℕ → ℕ
work_for_difficulty_bits bits =
    let b = if ltb max_bits bits then max_bits else bits in if b == 0 then 0 else 2 ^ b
