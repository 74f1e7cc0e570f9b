-- ===== src/Policy.antt =====
-- The block subsidy and the miner's share of the fees: blockchain/monetary_policy.go.
pub mod Laws
use neo_coin.Base.{
  ℕ, ◌+◌, ◌*◌, ◌/◌, ◌^◌, Bool, true, false, ◌&&◌, ◌||◌, ltb, leb, ◌==◌, if◌then◌else◌,
}
use neo_coin.Base.Words.{mul64}
use neo_coin.Base.Result.{Result, ok, err, ◌>>=◌, ◌>>◌, fail_if}
use neo_coin.Types.{MonetaryPolicy}

pub data PolicyError : Type 0 where
  no_reward no_halving_interval fee_share_above_100 : PolicyError

-- `MonetaryPolicy.BlockReward`; `>> halvings` divides by a power of two.
unfoldable pub block_reward : MonetaryPolicy → ℕ → ℕ
block_reward p height =
    if p.halving_interval == 0
    then p.initial_block_reward
    else (let halvings = height / p.halving_interval in
        if leb 64 halvings
        then p.tail_emission
        else (let reward = p.initial_block_reward / 2 ^ halvings in
            if reward == 0 && p.tail_emission == 0
            then 1
            else if reward == 0
            then p.tail_emission
            else reward))

-- `MonetaryPolicy.MinerFeeAmount`; the product wraps.
unfoldable pub miner_fee_amount : MonetaryPolicy → ℕ → ℕ
unfolding mul64
miner_fee_amount p total_fees =
    if p.miner_fee_share == 0 || total_fees == 0
    then 0
    else mul64 total_fees p.miner_fee_share / 100

-- `MonetaryPolicy.Validate`.
unfoldable pub validate : MonetaryPolicy → Result PolicyError (Unit {0})
validate p = do
  fail_if (p.initial_block_reward == 0 && p.tail_emission == 0) no_reward
  fail_if (p.halving_interval == 0) no_halving_interval
  fail_if (ltb 100 p.miner_fee_share) fee_share_above_100
