-- ===== src/Tests/Economy.antt =====
-- The ledger, the transactions and the monetary policy on concrete blocks.
use neo_coin.Address.{hex_decode, generate_address, check_decoded, validate_address}
use neo_coin.Base.Bytes.{bytes_eq, hex_encode}
use neo_coin.Base.Dict.{lookup, insert}
use neo_coin.Base.Words.{add64, sub64, mul64}
use neo_coin.Ledger.{account_of, credit, debit, fee_sum, apply_block_to_state}
use neo_coin.Policy.{block_reward, miner_fee_amount}
use neo_coin.Tx.{
  binary_encoding_active, from_address, signing_hash_legacy_json, tx_signing_hash,
  verify_for_consensus,
}
use neo_coin.Base.{◌+◌, ◌-◌, ◌*◌, ◌≤◌, ◌≡◌, ◌≢◌, ◌↔◌, ◌^◌, refl, arith, none, some, [], ◌∷◌}
use neo_coin.Base.Result.{ok}
use neo_coin.Base.Dict.{bytes_key}
use neo_coin.Types.{Error, Transaction, IsWord}
use neo_coin.Ledger.{State, apply_transfer, apply_blocks}
use neo_coin.Policy.{validate}
use neo_coin.Policy.Laws.{block_reward-eq-zero_iff}
use neo_coin.Ledger.Accounts.{supply}
use neo_coin.Ledger.Supply.{apply_transfer_wrapped}
use neo_coin.Ledger.Blocks.{burned, supply-apply_block_to_state}
use neo_coin.Ledger.Nonces.{NoncesFit, apply_transfer_replay}
use neo_coin.Tests.World.{
  toy, toy_params, toy_policy, alice, bob, miner, coinbase_to, alice_pays, block1, state0, state1,
}

block1_applies : apply_block_to_state toy toy_params state0 block1 ≡ (state1, none)
unfolding block_reward miner_fee_amount account_of credit debit fee_sum apply_block_to_state
    binary_encoding_active tx_signing_hash signing_hash_legacy_json from_address
    verify_for_consensus bytes_eq hex_encode hex_decode generate_address check_decoded
    validate_address lookup insert add64 sub64 mul64
block1_applies = refl

-- A block whose coinbase takes the whole fee is refused.
greedy_refused :
    (apply_block_to_state toy toy_params state0
      (record block1 { transactions = coinbase_to miner 12 ∷ alice_pays 30 4 1 ∷ [] })).1
    ≡ some Error.bad_coinbase_amount
unfolding block_reward miner_fee_amount account_of credit debit fee_sum apply_block_to_state
    binary_encoding_active tx_signing_hash signing_hash_legacy_json from_address
    verify_for_consensus bytes_eq hex_encode hex_decode generate_address check_decoded
    validate_address lookup insert add64 sub64 mul64
greedy_refused = refl

-- A block whose second transfer skips a nonce is refused.
gap_refused :
    (apply_block_to_state toy toy_params state0 (record block1 {
      transactions = coinbase_to miner 8 ∷ alice_pays 30 0 1 ∷ alice_pays 1 0 3 ∷ [];
    })).1
    ≡ some Error.bad_nonce
unfolding block_reward miner_fee_amount account_of credit debit fee_sum apply_block_to_state
    binary_encoding_active tx_signing_hash signing_hash_legacy_json from_address
    verify_for_consensus bytes_eq hex_encode hex_decode generate_address check_decoded
    validate_address lookup insert add64 sub64 mul64
gap_refused = refl

supply-apply_block_to_state_example :
    (miner ≡ miner)
    × (supply state1 + burned (alice_pays 30 4 1 ∷ [])
        ≡ supply state0
          + block_reward toy_policy 1
          + miner_fee_amount toy_policy (burned (alice_pays 30 4 1 ∷ [])))
unfolding block_reward miner_fee_amount mul64 fee_sum add64
supply-apply_block_to_state_example =
    supply-apply_block_to_state toy toy_params state0 block1 (coinbase_to miner 10)
      (alice_pays 30 4 1 ∷ []) block1_applies refl (omega arith) (omega arith, (omega arith, tt))
      (omega arith)

-- The nonces of the first state.
state0-NoncesFit : NoncesFit state0
unfolding account_of lookup
state0-NoncesFit a = ground arith

blocks_apply : apply_blocks toy toy_params state0 (block1 ∷ []) ≡ (state1, none)
unfolding apply_blocks block_reward miner_fee_amount account_of credit debit fee_sum
    apply_block_to_state binary_encoding_active tx_signing_hash signing_hash_legacy_json
    from_address verify_for_consensus bytes_eq hex_encode hex_decode generate_address check_decoded
    validate_address lookup insert add64 sub64 mul64
blocks_apply = refl

apply_transfer_replay_example :
    apply_transfer toy toy_params 2 (alice_pays 30 4 1) state1 ≢ ok state0
apply_transfer_replay_example =
    apply_transfer_replay toy toy_params state0 block1 [] 1 (alice_pays 30 4 1) 2 state0-NoncesFit
      blocks_apply refl refl state0

-- A transfer whose amount and fee sum to 10 as a 64-bit word.
abbrev huge : Transaction
huge = alice_pays (2 ^ 64 - 10) 20 1

abbrev state_huge : State
state_huge =
    (alice, record { balance = 90; nonce = 1 })
    ∷ (bob, record { balance = 2 ^ 64 - 10; nonce = 0 })
    ∷ []

huge_applies : apply_transfer toy toy_params 1 huge state0 ≡ ok state_huge
unfolding apply_transfer block_reward miner_fee_amount account_of credit debit fee_sum
    apply_block_to_state binary_encoding_active tx_signing_hash signing_hash_legacy_json
    from_address verify_for_consensus bytes_eq hex_encode hex_decode generate_address check_decoded
    validate_address lookup insert add64 sub64 mul64
huge_applies = refl

huge_sender : from_address toy huge ≡ ok alice
unfolding from_address bytes_eq hex_encode hex_decode generate_address check_decoded
    validate_address lookup insert add64 sub64 mul64
huge_sender = refl

huge-IsWord : IsWord huge
huge-IsWord = record {
  chain_id_fits = omega arith;
  amount_fits = omega arith;
  fee_fits = omega arith;
  nonce_fits = omega arith;
}

apply_transfer_wrapped_example : supply state_huge + 20 ≡ supply state0 + 2 ^ 64
unfolding account_of lookup debit insert add64 sub64 bytes_eq hex_encode hex_decode generate_address
    check_decoded validate_address mul64
apply_transfer_wrapped_example =
    apply_transfer_wrapped toy toy_params 1 huge state0 alice huge_applies huge_sender huge-IsWord
      (omega arith) (omega arith) (omega arith)

alice_verifies : verify_for_consensus toy (alice_pays 30 4 1) toy_params 1 ≡ ok tt
unfolding binary_encoding_active tx_signing_hash signing_hash_legacy_json from_address
    verify_for_consensus bytes_eq hex_encode hex_decode generate_address check_decoded
    validate_address lookup insert add64 sub64 mul64
alice_verifies = refl

toy_policy_valid : validate toy_policy ≡ ok tt
unfolding validate
toy_policy_valid = refl

block_reward-eq-zero_iff_example :
    (block_reward toy_policy 6400 ≡ 0) ↔ (toy_policy.tail_emission ≡ 0) × (64 * 100 ≤ 6400)
block_reward-eq-zero_iff_example = block_reward-eq-zero_iff toy_policy 6400 toy_policy_valid
