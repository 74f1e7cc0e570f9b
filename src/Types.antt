-- ===== src/Types.antt =====
-- The records that the whole node shares: blockchain/types.go (Account, Transaction, Block), the
-- consensus parameters of blockchain/difficulty.go and the monetary policy of
-- blockchain/monetary_policy.go. `uint64` and `uint32` fields are native numbers; a slice for which
-- the code tests `!= nil` is an Option. The error messages are one enumeration, without the numbers
-- that their formats fill in.
use neo_coin.Base.{ℕ, ◌<◌, ◌^◌, Bool, true, false, Option, none, some, List, []}
use neo_coin.Base.Bytes.{Bytes}
use neo_coin.Base.Int.{ℤ}

pub record Account : Type 0 where
  pub balance : ℕ
  pub nonce : ℕ

-- The value that a Go map returns for a missing account.
abbrev pub zero_account : Account
zero_account = record { balance = 0; nonce = 0 }

-- `TransactionType` is a string; every other string is `other`.
pub data TransactionType : Type 0 where
  coinbase : TransactionType
  transfer : TransactionType
  other : Bytes → TransactionType

pub record Transaction : Type 0 where
  pub tx_type : TransactionType
  pub chain_id : ℕ
  pub from_pub_key : Option Bytes
  pub to_address : Bytes
  pub amount : ℕ
  pub fee : ℕ
  pub nonce : ℕ
  pub tx_data : Bytes
  pub signature : Option Bytes

pub record Block : Type 0 where
  pub version : ℕ
  pub height : ℕ
  pub timestamp_unix : ℤ
  pub prev_hash : Bytes
  pub nonce : ℕ
  pub difficulty_bits : ℕ
  pub miner_address : Bytes
  pub transactions : List Transaction
  pub hash : Bytes

pub record MonetaryPolicy : Type 0 where
  pub initial_block_reward : ℕ
  pub halving_interval : ℕ
  pub miner_fee_share : ℕ
  pub tail_emission : ℕ

pub record ConsensusParams : Type 0 where
  pub difficulty_enable : Bool
  -- a `time.Duration`, in nanoseconds
  pub target_block_time : ℤ
  pub difficulty_window : ℤ
  pub difficulty_max_step : ℕ
  pub min_difficulty_bits : ℕ
  pub max_difficulty_bits : ℕ
  pub genesis_difficulty_bits : ℕ
  pub median_time_past_window : ℤ
  pub max_time_drift : ℤ
  pub max_block_size : ℕ
  pub merkle_enable : Bool
  pub merkle_activation_height : ℕ
  pub binary_encoding_enable : Bool
  pub binary_encoding_activation_height : ℕ
  pub monetary_policy : MonetaryPolicy

pub data Error : Type 0 where
  -- addresses
  address_too_short invalid_prefix invalid_hex invalid_encoded_length checksum_mismatch : Error
  -- transactions
  missing_chain_id zero_coinbase_amount coinbase_extra_fields zero_amount : Error
  bad_pub_key_length bad_signature_length zero_nonce unknown_tx_type : Error
  no_from_address not_a_transfer invalid_signature wrong_chain_id fee_too_low : Error
  -- encodings
  invalid_to_address invalid_timestamp bad_prev_hash_length bad_hash_length : Error
  invalid_miner_address empty_leaves leaf_not_32_bytes index_out_of_range : Error
  root_not_32_bytes side_length_mismatch negative_index branch_item_not_32_bytes : Error
  -- blocks
  block_too_large no_transactions first_not_coinbase coinbase_not_first : Error
  coinbase_wrong_receiver bad_coinbase_amount bad_nonce insufficient_funds : Error
  -- chains
  external_genesis bad_block_version missing_block_hash missing_difficulty_bits : Error
  difficulty_out_of_range invalid_proof_of_work unknown_parent duplicate_block : Error
  cycle_detected missing_ancestor bad_genesis_header bad_genesis_version : Error
  bad_height_linkage bad_prev_hash_linkage difficulty_calc_failed bad_difficulty : Error
  timestamp_not_increasing timestamp_too_old timestamp_too_far_in_future : Error
  empty_chain ai_rejected store_failed : Error
  -- the mempool
  duplicate_transaction nonce_in_mempool mempool_full spam_detected ai_filter_failed : Error
  no_nonce_to_replace replacement_fee_too_low replacement_exists : Error
  -- the miner
  only_transfers : Error

abbrev pub bytes_of : Option Bytes → Bytes
bytes_of none = []
bytes_of (some b) = b

abbrev pub is_nil : Option Bytes → Bool
is_nil none = true
is_nil (some b) = false

abbrev pub is_coinbase : TransactionType → Bool
is_coinbase TransactionType.coinbase = true
is_coinbase _ = false

abbrev pub is_transfer : TransactionType → Bool
is_transfer TransactionType.transfer = true
is_transfer _ = false

-- The numbers of a transaction fit the source's `uint64`.
pub record IsWord (t : Transaction) : Type 0 where
  pub chain_id_fits : t.chain_id < 2 ^ 64
  pub amount_fits : t.amount < 2 ^ 64
  pub fee_fits : t.fee < 2 ^ 64
  pub nonce_fits : t.nonce < 2 ^ 64
