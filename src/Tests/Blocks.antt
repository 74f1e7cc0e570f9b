-- ===== src/Tests/Blocks.antt =====
-- The chain, proof of work, the retarget and the time rules on concrete blocks.
use neo_coin.Address.{hex_decode, generate_address, check_decoded, validate_address}
use neo_coin.Base.Bytes.{bytes_eq, hex_encode}
use neo_coin.Base.Dict.{lookup, insert}
use neo_coin.Base.Int.{◌*ℤ◌, quot_ℤ}
use neo_coin.Base.Words.{add64, sub64, mul64}
use neo_coin.Chain.Add.{check_txs, check_candidate}
use neo_coin.Chain.Walk.{ancestors}
use neo_coin.Difficulty.{expected_span}
use neo_coin.Header.{
  block_version_for_height, big_endian_value, commitment_root, header_bytes, meets_target, pow_run,
  pow_validate,
}
use neo_coin.Tx.{
  binary_encoding_active, from_address, signing_hash_legacy_json, tx_signing_hash,
  verify_for_consensus,
}
use neo_coin.Base.{
  ℕ, ◌*◌, ◌/◌, ◌<◌, ◌≤◌, ◌≡◌, ◌≢◌, ◌^◌, refl, arith, true, false, none, some, List, [], ◌∷◌, ◌++◌,
}
use neo_coin.Base.Int.{pos, to_i64}
use neo_coin.Base.Bytes.{Bytes}
use neo_coin.Base.Result.{Result, ok}
use neo_coin.Base.Dict.{bytes_key}
use neo_coin.Types.{Error, Block, ConsensusParams}
use neo_coin.Chain.Walk.{ancestors_total}
use neo_coin.Chain.PathLaws.{IsCanonical, compute_canonical-IsCanonical}
use neo_coin.Chain.Add.{StoreWrites, add_block}
use neo_coin.Chain.Accept.{Arrival}
use neo_coin.Chain.AddLaws.{
  IsValid, FollowsBest, add_block-IsValid, add_block-FollowsBest, add_block_refused,
}
use neo_coin.Header.Mining.{sealed_by, pow_run-pow_validate, pow_run_returns}
use neo_coin.Difficulty.{retarget, next_difficulty_bits}
use neo_coin.Difficulty.Laws.{IsTuned, InRange, retarget_lem, next_difficulty_bits-InRange}
use neo_coin.Tests.Genesis.{tree0, genesis_computes, chain0, chain0-IsValid}
use neo_coin.Tests.World.{toy, toy_params, toy_sum, genesis, block1, state0}

compute_canonical-IsCanonical_example :
    IsCanonical toy toy_params tree0 (hex_encode (toy_sum 211)) (genesis ∷ []) state0 (2 ^ 18)
compute_canonical-IsCanonical_example =
    compute_canonical-IsCanonical toy toy_params (pos 1015) tree0 (hex_encode (toy_sum 211))
      genesis_computes

abbrev writes : StoreWrites
writes = record { put_block = true; rewrite_canonical = true }

add_block-IsValid_example : IsValid toy (add_block toy writes (pos 1015) chain0 block1).chain
add_block-IsValid_example = add_block-IsValid toy writes (pos 1015) chain0 block1 chain0-IsValid

add_block-FollowsBest_example :
    FollowsBest toy writes
      (pos 1015)
      chain0
      block1
      (add_block toy writes (pos 1015) chain0 block1).chain
add_block-FollowsBest_example = add_block-FollowsBest toy writes (pos 1015) chain0 block1

-- A block whose proof of work does not match its hash.
abbrev forged : Block
forged = record block1 { nonce = 5 }

forged_fails :
    (add_block toy writes (pos 1015) chain0 forged).error ≡ some Error.invalid_proof_of_work
unfolding add_block check_candidate check_txs block_version_for_height big_endian_value
    commitment_root header_bytes pow_validate binary_encoding_active tx_signing_hash
    signing_hash_legacy_json from_address verify_for_consensus bytes_eq hex_encode hex_decode
    generate_address check_decoded validate_address lookup insert add64 sub64 mul64
forged_fails = refl

forged_refused : (add_block toy writes (pos 1015) chain0 forged).error ≢ none
forged_refused e = cc forged_fails

add_block_refused_example : (add_block toy writes (pos 1015) chain0 forged).chain ≡ chain0
add_block_refused_example =
    add_block_refused toy writes (pos 1015) chain0 forged refl forged_refused

ancestors_total_example :
    (r : Result Error (List Block)) × (ancestors 2 tree0 [] (hex_encode (toy_sum 211)) ≡ some r)
ancestors_total_example = ancestors_total tree0 (hex_encode (toy_sum 211))

abbrev unsealed : Block
unsealed = record block1 { hash = [] }

unsealed_mines : pow_run toy toy_params 1 unsealed ≡ some (ok (0, toy_sum 167))
unfolding pow_run meets_target block_version_for_height big_endian_value commitment_root
    header_bytes pow_validate binary_encoding_active tx_signing_hash signing_hash_legacy_json
    from_address verify_for_consensus bytes_eq hex_encode hex_decode generate_address check_decoded
    validate_address lookup insert add64 sub64 mul64
unsealed_mines = refl

pow_run-pow_validate_example :
    pow_validate toy toy_params (sealed_by toy toy_params unsealed 0 (toy_sum 167)) ≡ ok true
pow_run-pow_validate_example = pow_run-pow_validate toy toy_params 1 unsealed refl unsealed_mines

unsealed_header : header_bytes toy toy_params unsealed 0 ≡ ok (1 ∷ 0 ∷ toy_sum 211 ++ toy_sum 122)
unfolding block_version_for_height big_endian_value commitment_root header_bytes pow_validate
    binary_encoding_active tx_signing_hash signing_hash_legacy_json from_address
    verify_for_consensus bytes_eq hex_encode hex_decode generate_address check_decoded
    validate_address lookup insert add64 sub64 mul64
unsealed_header = refl

unsealed_meets : meets_target toy toy_params unsealed (toy_sum 167) ≡ true
unfolding meets_target block_version_for_height big_endian_value commitment_root header_bytes
    pow_validate
unsealed_meets = refl

pow_run_returns_example :
    (r : Result Error (ℕ × Bytes)) × (pow_run toy toy_params 1 unsealed ≡ some r)
unfolding meets_target big_endian_value
pow_run_returns_example =
    pow_run_returns toy toy_params 1 unsealed 0 (omega arith) (omega arith) unsealed_header
      unsealed_meets

abbrev tuned : ConsensusParams
tuned = record toy_params { difficulty_enable = true }

tuned-IsTuned : IsTuned tuned
tuned-IsTuned = record {
  min_pos = omega arith;
  min_le_genesis = omega arith;
  genesis_le_max = omega arith;
  max_le = omega arith;
  window_pos = ground arith;
  step_fits = omega arith;
}

retarget_lem_example :
    (20 < 300 / 2 → retarget tuned 18 (pos 20) ≡ 19)
    × (2 * 300 < 20 → retarget tuned 18 (pos 20) ≡ 17)
    × (300 / 2 ≤ 20 → 20 ≤ 2 * 300 → retarget tuned 18 (pos 20) ≡ 18)
unfolding expected_span quot_ℤ ◌*ℤ◌ to_i64
retarget_lem_example =
    retarget_lem tuned 18 300 20 tuned-IsTuned (omega arith, omega arith) refl (omega arith)
      (omega arith)

next_difficulty_bits-InRange_example :
    (bits : ℕ) × (next_difficulty_bits tuned (genesis ∷ block1 ∷ []) ≡ some bits)
    × InRange tuned bits
next_difficulty_bits-InRange_example =
    next_difficulty_bits-InRange tuned (genesis ∷ block1 ∷ []) tuned-IsTuned

abbrev first : Arrival
first = record { writes = writes; now = pos 1015; block = block1 }

-- A forged block and the same block again, on a store that fails.
abbrev later_arrivals : List Arrival
later_arrivals =
    record { writes = writes; now = pos 1016; block = forged }
    ∷ record {
      writes = record { put_block = false; rewrite_canonical = false };
      now = pos 1017;
      block = block1;
    }
    ∷ []
