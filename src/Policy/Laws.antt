-- ===== src/Policy/Laws.antt =====
-- What the monetary policy pays: bounds of the subsidy, the heights that pay nothing, and the
-- miner's share of the fees.
use Prim.Native.Nat.{max}
use native.Mathlib.Nat.{
  pow-le-pow_right, le-div_iff_mul-le, le_trans, mul-le-mul_left, div-mul-le_self, one-le-pow,
}
use neo_coin.Base.{ℕ, ◌+◌, ◌*◌, ◌/◌, ◌^◌, ◌≤◌, ◌<◌, ◌≡◌, ◌↔◌, arith}
use neo_coin.Base.Result.{ok}
use neo_coin.Types.{MonetaryPolicy}
use neo_coin.Policy.{block_reward, miner_fee_amount, validate}

-- A policy that passes validation.
validate-parts :
    (p : MonetaryPolicy)
    → validate p ≡ ok tt
    → (0 < p.initial_block_reward + p.tail_emission)
      × (0 < p.halving_interval)
      × (p.miner_fee_share ≤ 100)
unfolding validate
validate-parts p h = ground arith

-- The subsidy never exceeds the larger of the initial reward, the tail emission and 1.
pub block_reward-le :
    (p : MonetaryPolicy) (h : ℕ)
    → block_reward p h ≤ max (max p.initial_block_reward p.tail_emission) 1
unfolding block_reward
block_reward-le p h = ground arith

intervals_passed : (i h k : ℕ) → 0 < i → (k ≤ h / i → k * i ≤ h) × (k * i ≤ h → k ≤ h / i)
intervals_passed i h k pos = ((le-div_iff_mul-le pos).0, (le-div_iff_mul-le pos).1)

-- Under a policy that passes validation, a block's subsidy is zero exactly when there is no tail
-- emission and 64 halving intervals have passed: before that the subsidy is at least 1.
pub block_reward-eq-zero_iff :
    (p : MonetaryPolicy) (h : ℕ)
    → validate p ≡ ok tt
    → (block_reward p h ≡ 0) ↔ (p.tail_emission ≡ 0) × (64 * p.halving_interval ≤ h)
unfolding block_reward
block_reward-eq-zero_iff p h v =
    let (some_reward, positive, share) = validate-parts p v in
    let passed = intervals_passed p.halving_interval h 64 positive in
    (λ z. ground (arith, passed.0), λ z. ground (arith, passed.1 z.1))

quot_antitone : (n a b : ℕ) → a ≤ b → n / 2 ^ b ≤ n / 2 ^ a
quot_antitone n a b h =
    let e : 2 ^ a ≤ 2 ^ b = pow-le-pow_right (omega arith) h in
    (le-div_iff_mul-le (one-le-pow a 2 (omega arith))).1
      (le_trans (mul-le-mul_left (n / 2 ^ b) e) (div-mul-le_self n (2 ^ b)))

div_mono : (i g h : ℕ) → 0 < i → g ≤ h → g / i ≤ h / i
div_mono i g h pos le = (intervals_passed i h (g / i) pos).1 (le_trans (div-mul-le_self g i) le)

-- Under a policy that passes validation and has no tail emission, the subsidy never grows with the
-- height.
pub block_reward_antitone :
    (p : MonetaryPolicy) (g h : ℕ)
    → validate p ≡ ok tt
    → p.tail_emission ≡ 0
    → g ≤ h
    → block_reward p h ≤ block_reward p g
unfolding block_reward
block_reward_antitone p g h v no_tail le =
    let (some_reward, positive, share) = validate-parts p v in
    ground (
      arith,
      quot_antitone p.initial_block_reward (g / p.halving_interval) (h / p.halving_interval),
      div_mono p.halving_interval g h,
    )

share_le : (f s : ℕ) → s ≤ 100 → f * s ≤ f * 100
share_le f s h = grind arith

-- Under a policy that passes validation a miner never receives more than the fees that the block
-- collected, whether or not the product wraps, and receives the exact percentage, rounded down,
-- where the product fits 64 bits.
pub miner_fee_amount-le :
    (p : MonetaryPolicy) (fees : ℕ)
    → validate p ≡ ok tt
    → (miner_fee_amount p fees ≤ fees)
      × (fees * p.miner_fee_share < 2 ^ 64
          → miner_fee_amount p fees ≡ fees * p.miner_fee_share / 100)
unfolding miner_fee_amount
miner_fee_amount-le p fees v =
    let (some_reward, positive, share) = validate-parts p v in
    (ground (arith, share_le fees p.miner_fee_share share), λ fits. ground arith)
