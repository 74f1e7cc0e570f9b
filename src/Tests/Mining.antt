-- ===== src/Tests/Mining.antt =====
-- Selecting pending transactions and mining them on a concrete chain.
use mathlib.Core.List.{reverse}
use neo_coin.Address.{hex_decode, generate_address, check_decoded, validate_address}
use neo_coin.Base.Bytes.{bytes_eq, hex_encode}
use neo_coin.Base.Dict.{lookup, insert}
use neo_coin.Base.Words.{sub64, mul64}
use neo_coin.Chain.Add.{with_chain_id}
use neo_coin.Chain.Index.{entries_of, append_entry, reindex_txs, reindex_address_txs}
use neo_coin.Difficulty.{clamp_difficulty_bits, next_difficulty_bits}
use neo_coin.Header.{
  block_version_for_height, big_endian_value, commitment_root, header_bytes, meets_target, run_loop,
  pow_run, pow_validate,
}
use neo_coin.Ledger.{account_of, credit, debit, fee_sum, apply_block_to_state}
use neo_coin.Miner.Mine.{coinbase_data, next_timestamp, check_mined, mined_coinbase}
use neo_coin.Miner.Select.{is_before, insert_entry, sort_entries, try_entry, select_from}
use neo_coin.Policy.{block_reward, miner_fee_amount}
use neo_coin.Tx.{
  binary_encoding_active, from_address, signing_hash_legacy_json, tx_signing_hash, tx_id_hex,
  verify_for_consensus,
}
use neo_coin.Base.{ℕ, ◌≡◌, refl, arith, true, Option, none, some, List, [], ◌∷◌, map}
use neo_coin.Base.Int.{pos}
use neo_coin.Base.Bytes.{Bytes, ascii}
use neo_coin.Base.Dict.{bytes_key}
use neo_coin.Base.Result.{Result, ok, err}
use neo_coin.Types.{Error, Transaction, Block}
use neo_coin.Base.Words.{add64}
use neo_coin.Chain.Add.{tip_height}
use neo_coin.Ledger.{State}
use neo_coin.Chain.History.{collect, collect-reverse}
use neo_coin.Chain.{AddressTxEntry, Blockchain, new_block}
use neo_coin.Miner.Mine.{append_block}
use neo_coin.Mempool.{Entry}
use neo_coin.Miner.Select.{select_mempool_txs}
use neo_coin.Miner.SelectLaws.{IsApplicable, select_mempool_txs-IsApplicable}
use neo_coin.Miner.Mine.{Mined, mine_transfers}
use neo_coin.Miner.Extension.{IsMined, mine_transfers-IsMined}
use neo_coin.Tests.Genesis.{chain0, chain0-IsValid}
use neo_coin.Tests.World.{
  toy, toy_sum, alice, bob, miner, coinbase_to, alice_pays, genesis, state0, state1,
}

abbrev entry_of_fee : Bytes → Transaction → Entry
entry_of_fee id t = record { tx = t; tx_id = id; received = pos 7 }

-- The second transfer pays more, but its nonce has to wait for the first.
abbrev snapshot : List Entry
snapshot =
    entry_of_fee (ascii "two") (alice_pays 1 9 2)
    ∷ entry_of_fee (ascii "one") (alice_pays 30 4 1)
    ∷ []

select_mempool_txs-IsApplicable_example :
    IsApplicable toy chain0
      (add64 (tip_height chain0) 1)
      10
      1
      (select_mempool_txs toy chain0 snapshot (pos 10))
      state0
select_mempool_txs-IsApplicable_example =
    select_mempool_txs-IsApplicable toy chain0 snapshot (pos 10) 1

-- The first transfer alone is picked: the other comes before it in the order of the fees.
picks_one : map (λ x. x.1) (select_mempool_txs toy chain0 snapshot (pos 10)) ≡ ascii "one" ∷ []
unfolding select_mempool_txs sort_entries insert_entry is_before select_from try_entry with_chain_id
    tip_height block_reward miner_fee_amount account_of credit debit fee_sum apply_block_to_state
    binary_encoding_active tx_signing_hash signing_hash_legacy_json from_address
    verify_for_consensus bytes_eq hex_encode hex_decode generate_address check_decoded
    validate_address lookup insert add64 sub64 mul64
picks_one = refl

abbrev mined_block : Block
mined_block = record {
  version = 1;
  height = 1;
  timestamp_unix = pos 1015;
  prev_hash = toy_sum 211;
  nonce = 0;
  difficulty_bits = 18;
  miner_address = miner;
  transactions =
      record (coinbase_to miner 10) { tx_data = ascii "Memphis" } ∷ alice_pays 30 4 1 ∷ [];
  hash = toy_sum 167;
}

abbrev mined1 : Mined
mined1 = record {
  chain = append_block toy chain0 mined_block state1;
  answer = ok mined_block;
  events = new_block mined_block ∷ [];
}

mining_runs : mine_transfers toy 1 true (pos 1015) chain0 (alice_pays 30 4 1 ∷ []) ≡ some mined1
unfolding mine_transfers coinbase_data next_timestamp mined_coinbase check_mined with_chain_id
    next_difficulty_bits clamp_difficulty_bits run_loop meets_target pow_run tx_id_hex entries_of
    append_entry reindex_txs reindex_address_txs block_version_for_height big_endian_value
    commitment_root header_bytes pow_validate block_reward miner_fee_amount account_of credit debit
    fee_sum apply_block_to_state binary_encoding_active tx_signing_hash signing_hash_legacy_json
    from_address verify_for_consensus bytes_eq hex_encode hex_decode generate_address check_decoded
    validate_address lookup insert add64 sub64 mul64
mining_runs = refl

mine_transfers-IsMined_example : IsMined toy chain0 (alice_pays 30 4 1 ∷ []) mined_block mined1
mine_transfers-IsMined_example =
    mine_transfers-IsMined toy 1 true (pos 1015) chain0 (alice_pays 30 4 1 ∷ []) genesis
      chain0-IsValid refl (omega arith) mining_runs refl

abbrev error_of : Result Error Block → Option Error
error_of (ok b) = none
error_of (err e) = some e

abbrev outcome_of : Option Mined → Option (Option Error × State)
outcome_of none = none
outcome_of (some m) = some (error_of m.answer, m.chain.state)

-- A transfer without a chain id passes the tests of the miner, which set it on a copy, and fails in
-- the block, when the miner has been credited already: the error leaves the credit in the state.
unset_id_leaves_credit :
    outcome_of (
      mine_transfers toy 1 true
        (pos 1015)
        chain0
        (record (alice_pays 30 4 1) { chain_id = 0 } ∷ []))
    ≡ some (
      some Error.missing_chain_id,
      (alice, record { balance = 100; nonce = 0 })
          ∷ (miner, record { balance = 10; nonce = 0 })
          ∷ [],
    )
unfolding mine_transfers coinbase_data next_timestamp mined_coinbase check_mined with_chain_id
    next_difficulty_bits clamp_difficulty_bits run_loop meets_target pow_run tx_id_hex entries_of
    append_entry reindex_txs reindex_address_txs block_version_for_height big_endian_value
    commitment_root header_bytes pow_validate block_reward miner_fee_amount account_of credit debit
    fee_sum apply_block_to_state binary_encoding_active tx_signing_hash signing_hash_legacy_json
    from_address verify_for_consensus bytes_eq hex_encode hex_decode generate_address check_decoded
    validate_address lookup insert add64 sub64 mul64
unset_id_leaves_credit = refl

-- Three payments of one address, read two at a time.
abbrev payment_entry : ℕ → AddressTxEntry
payment_entry n = record {
  tx_id = n ∷ [];
  location = record { height = n; block_hash_hex = []; index = 1 };
  from_addr = alice;
  to_address = bob;
  amount = n;
  fee = 1;
  nonce = n;
}

abbrev chain_with_history : Blockchain
chain_with_history = record chain0 {
  address_index = (bob, payment_entry 1 ∷ payment_entry 2 ∷ payment_entry 3 ∷ []) ∷ [];
}

collect-reverse_example :
    collect 4 chain_with_history bob (pos 2) 0
    ≡ reverse (entries_of chain_with_history.address_index bob)
unfolding entries_of lookup bytes_eq
collect-reverse_example = collect-reverse 4 chain_with_history bob (pos 2) (omega arith)
