-- ===== src/Difficulty/Laws.antt =====
-- The range and the step of the next difficulty.
use Prim.Native.Nat.{max, min}
use native.Mathlib.Nat.{pow-suc, one-le-pow}
use mathlib.Core.Path.{subst}
use neo_coin.Base.{
  suc, ◌∙◌, if◌then◌else◌, ◌/◌, ◌==◌, get_elem?-some, lt-length_of_get_elem?, leb, ℕ, ◌+◌, ◌-◌, ◌*◌,
  ◌≤◌, ◌<◌, ◌^◌, ◌≡◌, refl, arith, true, false, Option, some, none, List, length, get_elem?,
  Option-cases, inl, inr, Bool-cases,
}
use neo_coin.Base.Int.{ℤ, pos, negsuc, ◌≤ℤ◌, ltb_ℤ, sub_ℕ, to_i64, ◌+ℤ◌, ◌-ℤ◌, ◌*ℤ◌, quot_ℤ}
use neo_coin.Types.{Block, ConsensusParams}
use neo_coin.Difficulty.{
  to_u32, max_bits, clamp_difficulty_bits, step_bits, retarget, next_bits_of_parent, retarget_from,
  next_difficulty_bits, older_block, expected_span, hold_span, at_least_one,
  work_for_difficulty_bits,
}

-- Parameters that the loaders leave: 1 ≤ min ≤ genesis ≤ max ≤ 256, a positive window, a step that
-- fits 32 bits together with the bits.
pub record IsTuned (p : ConsensusParams) : Type 0 where
  pub min_pos : 1 ≤ p.min_difficulty_bits
  pub min_le_genesis : p.min_difficulty_bits ≤ p.genesis_difficulty_bits
  pub genesis_le_max : p.genesis_difficulty_bits ≤ p.max_difficulty_bits
  pub max_le : p.max_difficulty_bits ≤ max_bits
  pub window_pos : pos 1 ≤ℤ p.difficulty_window
  pub step_fits : p.difficulty_max_step + max_bits < 2 ^ 32

abbrev pub InRange : ConsensusParams → ℕ → Type 0
InRange p bits = (p.min_difficulty_bits ≤ bits) × (bits ≤ p.max_difficulty_bits)

pub clamp-InRange :
    (p : ConsensusParams) (bits : ℕ) → IsTuned p → InRange p (clamp_difficulty_bits p bits)
unfolding clamp_difficulty_bits
clamp-InRange p bits t = ground arith

clamp_of_InRange :
    (p : ConsensusParams) (bits : ℕ)
    → IsTuned p
    → InRange p bits
    → clamp_difficulty_bits p bits ≡ bits
unfolding clamp_difficulty_bits
clamp_of_InRange p bits t h = ground arith

retarget-InRange :
    (p : ConsensusParams) (bits : ℕ) (span : ℤ) → IsTuned p → InRange p (retarget p bits span)
unfolding retarget
retarget-InRange p bits span t = clamp-InRange p _ t

older_block-some :
    (path : List Block) (idx : ℕ) (w : ℤ)
    → pos 1 ≤ℤ w
    → ltb_ℤ (pos idx) w ≡ false
    → idx < length path
    → (b : Block) × (older_block path idx w ≡ some b)
unfolding older_block
older_block-some path idx (pos w) h out lt =
    let (b, e) = get_elem?-some path (idx - w) (omega arith) in
    let inside : leb w idx ≡ true = ground arith in (b, rw inside e)
older_block-some path idx (negsuc w) h out lt = absurd (omega arith)

retarget_from-InRange :
    (p : ConsensusParams) (parent : Block) (o : Option Block)
    → IsTuned p
    → (b : Block) × (o ≡ some b)
    → (bits : ℕ) × (retarget_from p parent o ≡ some bits) × InRange p bits
retarget_from-InRange p parent none t (b, e) = cc
retarget_from-InRange p parent (some older) t h =
    (_, refl, retarget-InRange p parent.difficulty_bits _ t)

next_bits_of_parent-InRange :
    (p : ConsensusParams) (path : List Block) (idx : ℕ) (parent : Block)
    → IsTuned p
    → idx < length path
    → (bits : ℕ) × (next_bits_of_parent p path idx parent ≡ some bits) × InRange p bits
unfolding next_bits_of_parent
next_bits_of_parent-InRange p path idx parent t lt = elim (Bool-cases p.difficulty_enable) [
  | inl on ↦ elim (Bool-cases (ltb_ℤ (pos idx) p.difficulty_window)) [
    | inl short ↦ (
      clamp_difficulty_bits p parent.difficulty_bits,
      ground arith,
      clamp-InRange p parent.difficulty_bits t,
    )
    | inr long ↦
        let (bits, e, range) =
          retarget_from-InRange p parent (older_block path idx p.difficulty_window) t
            (older_block-some path idx p.difficulty_window t.window_pos long lt) in
        (bits, ground (arith, e), range)
  ]
  | inr off ↦ elim (Bool-cases (parent.difficulty_bits == 0)) [
    | inl unset ↦ (p.genesis_difficulty_bits, ground arith, (t.min_le_genesis, t.genesis_le_max))
    | inr set ↦ (
      clamp_difficulty_bits p parent.difficulty_bits,
      ground arith,
      clamp-InRange p parent.difficulty_bits t,
    )
  ]
]

-- With tuned parameters the next difficulty exists for every path (no index is out of range) and
-- lies between the minimum and the maximum.
pub next_difficulty_bits-InRange :
    (p : ConsensusParams) (path : List Block)
    → IsTuned p
    → (bits : ℕ) × (next_difficulty_bits p path ≡ some bits) × InRange p bits
unfolding next_difficulty_bits
next_difficulty_bits-InRange p path t = elim (Option-cases (get_elem? path (length path - 1))) [
  | inl empty ↦ (
    p.genesis_difficulty_bits,
    rw (empty, next_difficulty_bits),
    (t.min_le_genesis, t.genesis_le_max),
  )
  | inr (parent, e) ↦
      rw (e, next_difficulty_bits)
        (next_bits_of_parent-InRange p path (length path - 1) parent t
          (lt-length_of_get_elem? path _ e))
]

-- What the rule does to the bits, by where the held span lies.
step_bits-parts :
    (p : ConsensusParams) (bits e s : ℕ)
    → IsTuned p
    → InRange p bits
    → e < 2 ^ 60
    → (s < e / 2 → step_bits p bits (pos e) (pos s) ≡ pos (bits + p.difficulty_max_step))
      × (2 * e < s → step_bits p bits (pos e) (pos s) ≡ sub_ℕ bits p.difficulty_max_step)
      × (e / 2 ≤ s → s ≤ 2 * e → step_bits p bits (pos e) (pos s) ≡ pos bits)
unfolding step_bits ◌*ℤ◌ quot_ℤ to_i64 ◌+ℤ◌ ◌-ℤ◌
step_bits-parts p bits e s t h small =
    (λ fast. ground arith, λ slow. ground arith, λ low high. ground arith)

hold_span-pos :
    (e s : ℕ) → e < 2 ^ 60 → hold_span (pos e) (pos s) ≡ pos (max (e / 4) (min s (4 * e)))
unfolding hold_span ◌*ℤ◌ quot_ℤ to_i64
hold_span-pos e s small = ground arith

-- The last clamp, on a number of bits between 1 and 2 ^ 32 - 1.
clamp-min-max :
    (p : ConsensusParams) (n : ℕ)
    → IsTuned p
    → clamp_difficulty_bits p n ≡ max p.min_difficulty_bits (min n p.max_difficulty_bits)
unfolding clamp_difficulty_bits
clamp-min-max p n t = ground arith

-- The bits after the final test and conversion.
abbrev settle : ConsensusParams → ℤ → ℕ
settle p next = clamp_difficulty_bits p (to_u32 (if ltb_ℤ next (pos 1) then pos 1 else next))

settle-pos :
    (p : ConsensusParams) (n : ℕ)
    → IsTuned p
    → n < 2 ^ 32
    → settle p (pos n) ≡ max p.min_difficulty_bits (min n p.max_difficulty_bits)
settle-pos p n t small = ground (arith, clamp-min-max p n t, clamp-min-max p 1 t)

settle-sub :
    (p : ConsensusParams) (n k : ℕ)
    → IsTuned p
    → n < 2 ^ 32
    → settle p (sub_ℕ n k) ≡ max p.min_difficulty_bits (min (n - k) p.max_difficulty_bits)
settle-sub p n k t small = ground (arith, clamp-min-max p (n - k) t, clamp-min-max p 1 t)

at_least_one-le : (x : ℤ) → pos 1 ≤ℤ at_least_one x
unfolding at_least_one
at_least_one-le (pos n) = ground arith
at_least_one-le (negsuc n) = ground arith

expected_span-pos : (p : ConsensusParams) (e : ℕ) → expected_span p ≡ pos e → 1 ≤ e
unfolding expected_span
expected_span-pos p e h =
    let bound : pos 1 ≤ℤ pos e =
      subst (λ x. pos 1 ≤ℤ x) h
        (at_least_one-le (
          to_i64
            (p.difficulty_window *ℤ at_least_one (quot_ℤ p.target_block_time (pos 1000000000))))) in
    omega (arith, bound)

-- With tuned parameters, bits in range, an expected span of `e` seconds (below 2 ^ 60) and an actual
-- span of `s` seconds: the bits rise by the step, up to the maximum, when `s` is below half of `e`;
-- fall by the step, down to the minimum, when `s` is above twice `e`; and stay otherwise.
pub retarget_lem :
    (p : ConsensusParams) (bits e s : ℕ)
    → IsTuned p
    → InRange p bits
    → expected_span p ≡ pos e
    → e < 2 ^ 60
    → 1 ≤ s
    → (s < e / 2
        → retarget p bits (pos s) ≡ min (bits + p.difficulty_max_step) p.max_difficulty_bits)
      × (2 * e < s
          → retarget p bits (pos s) ≡ max (bits - p.difficulty_max_step) p.min_difficulty_bits)
      × (e / 2 ≤ s → s ≤ 2 * e → retarget p bits (pos s) ≡ bits)
unfolding retarget at_least_one
retarget_lem p bits e s t h span small nonzero =
    let some_time = expected_span-pos p e span in
    let held = max (e / 4) (min s (4 * e)) in
    let one : at_least_one (pos s) ≡ pos s = ground arith in
    let (fast, slow, still) = step_bits-parts p bits e held t h small in
    (
      λ lt.
          rw (span, one, hold_span-pos e s small, fast (omega arith))
            (settle-pos p (bits + p.difficulty_max_step) t (omega arith) ∙ omega arith),
      λ lt.
          rw (span, one, hold_span-pos e s small, slow (omega arith))
            (settle-sub p bits p.difficulty_max_step t (omega arith) ∙ omega arith),
      λ lo hi.
          rw (span, one, hold_span-pos e s small, still (omega arith) (omega arith))
            (settle-pos p bits t (omega arith) ∙ omega arith),
    )

-- Work doubles with each bit, up to the maximum.
pub work-double :
    (bits : ℕ)
    → 1 ≤ bits
    → bits < max_bits
    → work_for_difficulty_bits (suc bits) ≡ 2 * work_for_difficulty_bits bits
unfolding work_for_difficulty_bits
work-double bits h lt = ground (arith, pow-suc 2 bits)

pub work_pos : (bits : ℕ) → 1 ≤ bits → 0 < work_for_difficulty_bits bits
unfolding work_for_difficulty_bits
work_pos bits h = ground (arith, one-le-pow bits 2)
