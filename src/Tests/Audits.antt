-- ===== src/Tests/Audits.antt =====
-- The audit of a chain that holds only its genesis.
use neo_coin.Address.{hex_decode, generate_address, check_decoded, validate_address}
use neo_coin.Base.Bytes.{bytes_eq, hex_encode}
use neo_coin.Base.Dict.{lookup, insert}
use neo_coin.Base.Int.{◌+ℤ◌, to_i64}
use neo_coin.Base.Words.{add64, sub64, mul64}
use neo_coin.Chain.Path.{check_genesis, check_link, compute_canonical}
use neo_coin.Chain.Walk.{contains, is_root, ancestors}
use neo_coin.Difficulty.{work_for_difficulty_bits}
use neo_coin.Header.{
  block_version_for_height, big_endian_value, commitment_root, header_bytes, pow_validate,
}
use neo_coin.Ledger.{account_of, credit, debit, fee_sum, apply_block_to_state, apply_blocks}
use neo_coin.Policy.{block_reward, miner_fee_amount}
use neo_coin.TimeRules.{insert_sorted, median_time_past, validate_block_time}
use neo_coin.Tx.{
  binary_encoding_active, from_address, signing_hash_legacy_json, tx_signing_hash,
  verify_for_consensus,
}
use neo_coin.Base.{ℕ, ◌^◌, ◌≡◌, ◌↔◌, refl, arith, none, [], ◌∷◌}
use neo_coin.Base.Int.{pos}
use neo_coin.Base.Bytes.{Bytes}
use neo_coin.Base.Dict.{Dict}
use neo_coin.Base.Result.{ok}
use neo_coin.Types.{Block}
use neo_coin.Chain.Rules.{IsLawful, compute_canonical-IsLawful}
use neo_coin.Chain.Audit.{audit_chain, audit_header, audit_block, recompute_state}
use neo_coin.Chain.Audit.Accepts.{IsSound, audit_chain_iff}
use neo_coin.Tests.Genesis.{tree0, chain0}
use neo_coin.Tests.World.{toy, toy_params, genesis, block1, state0, state1}

audits : audit_chain toy (pos 1015) (record chain0 { state = state1 }) ≡ (chain0, none)
unfolding audit_chain audit_header audit_block recompute_state apply_blocks contains is_root
    ancestors work_for_difficulty_bits validate_block_time median_time_past ◌+ℤ◌ to_i64
    check_genesis check_link compute_canonical block_version_for_height big_endian_value
    commitment_root header_bytes pow_validate block_reward miner_fee_amount account_of credit debit
    fee_sum apply_block_to_state binary_encoding_active tx_signing_hash signing_hash_legacy_json
    from_address verify_for_consensus bytes_eq hex_encode hex_decode generate_address check_decoded
    validate_address lookup insert add64 sub64 mul64
audits = refl

audit_chain_iff_example :
    (audit_chain toy (pos 1015) chain0 ≡ (record chain0 { state = state0 }, none))
    ↔ ((w : ℕ) × IsSound toy (pos 1015) chain0 state0 w)
audit_chain_iff_example = audit_chain_iff toy (pos 1015) chain0 state0 (omega arith) (omega arith)

abbrev tree1 : Dict Bytes Block
tree1 = (hex_encode block1.hash, block1) ∷ tree0

two_blocks :
    compute_canonical toy toy_params (pos 1015) tree1 (hex_encode block1.hash)
    ≡ ok (genesis ∷ block1 ∷ [], state1, 2 ^ 19)
unfolding insert_sorted contains is_root ancestors work_for_difficulty_bits validate_block_time
    median_time_past ◌+ℤ◌ to_i64 check_genesis check_link compute_canonical block_version_for_height
    big_endian_value commitment_root header_bytes pow_validate block_reward miner_fee_amount
    account_of credit debit fee_sum apply_block_to_state binary_encoding_active tx_signing_hash
    signing_hash_legacy_json from_address verify_for_consensus bytes_eq hex_encode hex_decode
    generate_address check_decoded validate_address lookup insert add64 sub64 mul64
two_blocks = refl

compute_canonical-IsLawful_example :
    IsLawful toy_params (pos 1015) (genesis ∷ block1 ∷ []) 0 genesis block1
compute_canonical-IsLawful_example =
    compute_canonical-IsLawful toy toy_params (pos 1015) tree1 (hex_encode block1.hash) 0 two_blocks
      refl refl
