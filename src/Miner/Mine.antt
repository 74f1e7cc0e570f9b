-- ===== src/Miner/Mine.antt =====
-- Mining transfers into a block on top of the chain: `MineTransfers` and `SubmitTransfer` of
-- blockchain/chain.go.
use mathlib.Core.List.{get_last?}
use neo_coin.Base.{
  ℕ, ◌+◌, Bool, not, ◌&&◌, ltb, ◌==◌, if◌then◌else◌, Option, none, some, List, [], ◌∷◌, ◌++◌,
  length,
}
use neo_coin.Base.Int.{ℤ, pos, leb_ℤ, ◌+ℤ◌, to_i64}
use neo_coin.Base.Words.{add64}
use neo_coin.Base.Bytes.{decimal_loop, Bytes, ascii, hex_encode}
use neo_coin.Base.Dict.{bytes_key}
use neo_coin.Base.Result.{Result, ok, err, ◌>>◌, fail_if}
use neo_coin.Types.{Error, Transaction, TransactionType, Block, is_transfer}
use neo_coin.Platform.{Platform}
use neo_coin.Policy.{block_reward, miner_fee_amount}
use neo_coin.Tx.{verify_for_consensus}
use neo_coin.Ledger.{State, Outcome, apply_block_to_state}
use neo_coin.Difficulty.{next_difficulty_bits, work_for_difficulty_bits}
use neo_coin.Header.{block_version_for_height, pow_run}
use neo_coin.Chain.{Blockchain, Event, new_block}
use neo_coin.Chain.Index.{index_txs_for_block, index_address_txs_for_block}
use neo_coin.Chain.Add.{with_chain_id, with_block}

abbrev pub min_fee : ℕ
min_fee = 1

unfoldable pub coinbase_data : ℕ → Bytes
unfolding decimal_loop
coinbase_data height =
    if height == 1
    then ascii "Memphis"
    else ascii "block reward + fees (height=" ++ decimal_loop 20 height [] ++ ascii ")"

-- The time of the new block: the clock's, or one second after the latest block.
unfoldable pub next_timestamp : ℤ → Block → ℤ
next_timestamp now latest =
    if leb_ℤ now latest.timestamp_unix then to_i64 (latest.timestamp_unix +ℤ pos 1) else now

module _ (P : Platform) where
  -- The loop over the transfers: the sum of their fees.
  unfoldable pub check_mined : Blockchain → ℕ → List Transaction → ℕ → Result Error ℕ
  unfolding with_chain_id
  check_mined bc height [] fees = ok fees
  check_mined bc height (t ∷ ts) fees = do
    fail_if (not (is_transfer t.tx_type)) Error.only_transfers
    fail_if (not ((with_chain_id bc.chain_id t).chain_id == bc.chain_id)) Error.wrong_chain_id
    verify_for_consensus P (with_chain_id bc.chain_id t) bc.consensus height
    fail_if (ltb t.fee min_fee) Error.fee_too_low
    check_mined bc height ts (add64 fees t.fee)

-- The coinbase of the new block.
unfoldable pub mined_coinbase : Blockchain → ℕ → ℕ → Transaction
unfolding coinbase_data
mined_coinbase bc height fees = record {
  tx_type = TransactionType.coinbase;
  chain_id = bc.chain_id;
  from_pub_key = none;
  to_address = bc.miner_address;
  amount =
      add64 (block_reward bc.consensus.monetary_policy height)
        (miner_fee_amount bc.consensus.monetary_policy fees);
  fee = 0;
  nonce = 0;
  tx_data = coinbase_data height;
  signature = none;
}

-- The block that is mined, before its nonce and its hash.
unfoldable pub block_template : ℤ → Blockchain → Block → List Transaction → ℕ → ℕ → Block
unfolding mined_coinbase next_timestamp
block_template now bc latest transfers fees bits =
    let height = add64 latest.height 1 in
    record {
      version = block_version_for_height bc.consensus height;
      height = height;
      timestamp_unix = next_timestamp now latest;
      prev_hash = latest.hash;
      nonce = 0;
      difficulty_bits = bits;
      miner_address = bc.miner_address;
      transactions = mined_coinbase bc height fees ∷ transfers;
      hash = [];
    }

-- What `MineTransfers` leaves and returns.
pub record Mined : Type 0 where
  pub chain : Blockchain
  pub answer : Result Error Block
  pub events : List Event

abbrev pub not_mined : Blockchain → Error → Mined
not_mined bc e = record { chain = bc; answer = err e; events = [] }

-- `addToIndexLocked`.
unfoldable pub add_to_index : Block → Blockchain → Blockchain
add_to_index b bc = if length b.hash == 0 then bc else with_block bc b

module _ (P : Platform) where
  -- The chain that has appended a block whose application left a state.
  unfoldable pub append_block : Blockchain → Block → State → Blockchain
  unfolding add_to_index
  append_block bc b s = record (add_to_index b bc) {
    blocks = bc.blocks ++ b ∷ [];
    state = s;
    best_tip_hash = hex_encode b.hash;
    canonical_work = bc.canonical_work + work_for_difficulty_bits b.difficulty_bits;
    tx_index = index_txs_for_block P bc.consensus b bc.tx_index;
    address_index = index_address_txs_for_block P bc.consensus b bc.address_index;
    stored_canonical = bc.stored_canonical ++ b ∷ [];
  }

  -- `MineTransfers` from the application of the sealed block on. The source applies it to the
  -- chain's own state, so what a failing block changed stays changed.
  abbrev pub settle_block : Bool → Blockchain → Block → Outcome → Mined
  settle_block written bc b (s, some e) = not_mined (record bc { state = s }) e
  settle_block written bc b (s, none) =
      if written
      then record { chain = append_block bc b s; answer = ok b; events = new_block b ∷ [] }
      else not_mined (record bc { state = s }) Error.store_failed

  -- The nonce and the hash of a search, put into the block.
  abbrev pub seal : Block → ℕ × Bytes → Block
  seal b (nonce, hash) = record b { nonce = nonce; hash = hash }

  abbrev pub settle_search :
      Bool → Blockchain → Block → Option (Result Error (ℕ × Bytes)) → Option Mined
  settle_search written bc b none = none
  settle_search written bc b (some (err e)) = some (not_mined bc e)
  settle_search written bc b (some (ok found)) = some (
      settle_block written bc (seal b found)
        (apply_block_to_state P bc.consensus bc.state (seal b found)))

  abbrev pub mine_template :
      ℕ → Bool → ℤ → Blockchain → Block → List Transaction → ℕ → Option ℕ → Option Mined
  mine_template fuel written now bc latest transfers fees none =
      some (not_mined bc Error.difficulty_calc_failed)
  mine_template fuel written now bc latest transfers fees (some bits) =
      let b = block_template now bc latest transfers fees bits in
      settle_search written bc b (pow_run P bc.consensus fuel b)

  abbrev pub mine_on : ℕ → Bool → ℤ → Blockchain → List Transaction → Block → Option Mined
  mine_on fuel written now bc transfers latest =
      elim (check_mined P bc (add64 latest.height 1) transfers 0) [
        | err e ↦ some (not_mined bc e)
        | ok fees ↦
            mine_template fuel written now bc latest transfers fees
              (next_difficulty_bits bc.consensus bc.blocks)
      ]

  -- `MineTransfers`; `none` while the search for a nonce goes on. A loaded chain has a block.
  unfoldable pub mine_transfers : ℕ → Bool → ℤ → Blockchain → List Transaction → Option Mined
  unfolding check_mined append_block block_template
  mine_transfers fuel written now bc transfers = elim (get_last? bc.blocks) [
    | none ↦ some (not_mined bc Error.empty_chain)
    | some latest ↦ mine_on fuel written now bc transfers latest
  ]

  -- `SubmitTransfer`.
  unfoldable pub submit_transfer :
      ℕ → Bool → ℤ → Blockchain → Transaction → Bool → Bool → Option Mined
  unfolding mine_transfers
  submit_transfer fuel written now bc t require_ai_audit ai_approved =
      if require_ai_audit && not ai_approved
      then some (not_mined bc Error.ai_rejected)
      else mine_transfers fuel written now bc (t ∷ [])
