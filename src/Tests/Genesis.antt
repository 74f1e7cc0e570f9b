-- ===== src/Tests/Genesis.antt =====
-- A chain that holds only its genesis.
use neo_coin.Address.{hex_decode, generate_address, check_decoded, validate_address}
use neo_coin.Base.Bytes.{bytes_eq, hex_encode}
use neo_coin.Base.Dict.{lookup, insert}
use neo_coin.Base.Words.{add64, sub64, mul64}
use neo_coin.Chain.Index.{reindex_txs, reindex_address_txs}
use neo_coin.Chain.Path.{check_genesis, check_link, compute_canonical}
use neo_coin.Chain.Walk.{contains, is_root, ancestors}
use neo_coin.Difficulty.{work_for_difficulty_bits}
use neo_coin.Header.{
  block_version_for_height, big_endian_value, commitment_root, header_bytes, pow_validate,
}
use neo_coin.Ledger.{account_of, credit, debit, fee_sum, apply_block_to_state}
use neo_coin.Policy.{block_reward, miner_fee_amount}
use neo_coin.TimeRules.{median_time_past, validate_block_time}
use neo_coin.Tx.{
  binary_encoding_active, from_address, signing_hash_legacy_json, tx_signing_hash,
  verify_for_consensus,
}
use neo_coin.Base.{◌≡◌, ◌^◌, refl, arith, some, [], ◌∷◌}
use neo_coin.Base.Int.{pos, ◌+ℤ◌, to_i64}
use neo_coin.Base.Bytes.{Bytes, bytes_eq_iff}
use neo_coin.Base.Result.{ok}
use neo_coin.Base.Dict.{Dict, bytes_key}
use neo_coin.Types.{Block}
use neo_coin.Chain.{Blockchain}
use neo_coin.Chain.PathLaws.{compute_canonical-IsCanonical}
use neo_coin.Chain.AddLaws.{IsValid}
use neo_coin.Tests.World.{toy, toy_params, toy_sum, miner, genesis, state0}

abbrev pub tree0 : Dict Bytes Block
tree0 = (hex_encode (toy_sum 211), genesis) ∷ []

pub genesis_computes :
    compute_canonical toy toy_params (pos 1015) tree0 (hex_encode (toy_sum 211))
    ≡ ok (genesis ∷ [], state0, 2 ^ 18)
unfolding contains is_root ancestors work_for_difficulty_bits validate_block_time median_time_past
    ◌+ℤ◌ to_i64 check_genesis check_link compute_canonical block_version_for_height big_endian_value
    commitment_root header_bytes pow_validate block_reward miner_fee_amount account_of credit debit
    fee_sum apply_block_to_state binary_encoding_active tx_signing_hash signing_hash_legacy_json
    from_address verify_for_consensus bytes_eq hex_encode hex_decode generate_address check_decoded
    validate_address lookup insert add64 sub64 mul64
genesis_computes = refl

abbrev pub chain0 : Blockchain
chain0 = record {
  chain_id = 1;
  miner_address = miner;
  consensus = toy_params;
  blocks = genesis ∷ [];
  state = state0;
  blocks_by_hash = tree0;
  best_tip_hash = hex_encode (toy_sum 211);
  canonical_work = 2 ^ 18;
  tx_index = [];
  address_index = [];
  stored_canonical = genesis ∷ [];
  stored_blocks = genesis ∷ [];
}

chain0-keyed : (k : Bytes) (b : Block) → lookup k tree0 ≡ some b → hex_encode b.hash ≡ k
unfolding lookup
chain0-keyed k b e =
    ground
      (arith, bytes_eq_iff (hex_encode (toy_sum 211)) k, bytes_eq_iff k (hex_encode (toy_sum 211)))

pub chain0-IsValid : IsValid toy chain0
unfolding reindex_txs reindex_address_txs
chain0-IsValid = record {
  keyed = chain0-keyed;
  canonical =
      compute_canonical-IsCanonical toy toy_params (pos 1015) tree0 (hex_encode (toy_sum 211))
        genesis_computes;
  txs_indexed = refl;
  addresses_indexed = refl;
}
