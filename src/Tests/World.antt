-- ===== src/Tests/World.antt =====
-- A small node: a platform with computable stand-ins for the cryptography, two keys, and a chain of
-- a genesis and one block.
use neo_coin.Base.{ℕ, ◌+◌, ◌*◌, ◌%◌, ◌≡◌, refl, arith, false, none, some, [], ◌∷◌, ◌++◌, replicate}
use neo_coin.Base.Int.{pos}
use neo_coin.Base.Bytes.{Bytes, bytes_eq, ascii, IsByteList, hex_encode}
use neo_coin.Types.{TransactionType, Transaction, Block, MonetaryPolicy, ConsensusParams}
use neo_coin.Platform.{Platform}
use neo_coin.Address.{generate_address}
use neo_coin.Ledger.{State}

abbrev sum_of : Bytes → ℕ
sum_of [] = 7
sum_of (b ∷ bs) = (b + 3 * sum_of bs) % 256

pub toy_hash-IsByteList : (b : Bytes) → IsByteList (replicate 31 0 ++ (sum_of b % 256) ∷ [])
toy_hash-IsByteList b = ground arith

-- The hash is 31 zero bytes and a checksum; a signature is the key written twice.
abbrev pub toy : Platform
toy = record {
  sha256 = λ b. replicate 31 0 ++ (sum_of b % 256) ∷ [];
  length-sha256 = λ b. refl;
  sha256-IsByteList = toy_hash-IsByteList;
  ed25519_verify = λ key message signature. bytes_eq signature (key ++ key);
  json_signing_view = λ v. v.amount ∷ v.fee ∷ v.nonce ∷ v.to_address;
  json_header_v1 = λ h. h.height ∷ h.nonce ∷ h.prev_hash ++ h.root;
  json_header_v2 = λ h. h.height ∷ h.nonce ∷ h.prev_hash ++ h.root;
  json_block = λ b. b.height ∷ [];
}

abbrev pub alice_key : Bytes
alice_key = replicate 32 1

-- The address whose hash ends in a byte.
abbrev pub address_of : Bytes → Bytes
address_of byte = ascii "NEO" ++ replicate 64 48 ++ byte ++ replicate 8 48

abbrev pub alice : Bytes
alice = address_of (ascii "c7")

abbrev pub bob : Bytes
bob = address_of (ascii "b0")

abbrev pub miner : Bytes
miner = address_of (ascii "a1")

abbrev pub toy_policy : MonetaryPolicy
toy_policy = record {
  initial_block_reward = 8;
  halving_interval = 100;
  miner_fee_share = 50;
  tail_emission = 0;
}

abbrev pub toy_params : ConsensusParams
toy_params = record {
  difficulty_enable = false;
  target_block_time = pos 15000000000;
  difficulty_window = pos 20;
  difficulty_max_step = 1;
  min_difficulty_bits = 1;
  max_difficulty_bits = 255;
  genesis_difficulty_bits = 18;
  median_time_past_window = pos 11;
  max_time_drift = pos 7200;
  max_block_size = 1000000;
  merkle_enable = false;
  merkle_activation_height = 0;
  binary_encoding_enable = false;
  binary_encoding_activation_height = 0;
  monetary_policy = toy_policy;
}

alice_is_generated : generate_address toy alice_key ≡ alice
unfolding generate_address hex_encode
alice_is_generated = refl

abbrev pub coinbase_to : Bytes → ℕ → Transaction
coinbase_to to amount = record {
  tx_type = TransactionType.coinbase;
  chain_id = 1;
  from_pub_key = none;
  to_address = to;
  amount = amount;
  fee = 0;
  nonce = 0;
  tx_data = [];
  signature = none;
}

abbrev pub alice_pays : ℕ → ℕ → ℕ → Transaction
alice_pays amount fee nonce = record {
  tx_type = TransactionType.transfer;
  chain_id = 1;
  from_pub_key = some alice_key;
  to_address = bob;
  amount = amount;
  fee = fee;
  nonce = nonce;
  tx_data = 104 ∷ 105 ∷ [];
  signature = some (alice_key ++ alice_key);
}

abbrev pub toy_sum : ℕ → Bytes
toy_sum n = replicate 31 0 ++ n ∷ []

abbrev pub genesis : Block
genesis = record {
  version = 1;
  height = 0;
  timestamp_unix = pos 1000;
  prev_hash = [];
  nonce = 0;
  difficulty_bits = 18;
  miner_address = alice;
  transactions = coinbase_to alice 100 ∷ [];
  hash = toy_sum 211;
}

-- Alice pays 30 with a fee of 4; the miner takes the reward of 8 and half of the fee.
abbrev pub block1 : Block
block1 = record {
  version = 1;
  height = 1;
  timestamp_unix = pos 1015;
  prev_hash = toy_sum 211;
  nonce = 0;
  difficulty_bits = 18;
  miner_address = miner;
  transactions = coinbase_to miner 10 ∷ alice_pays 30 4 1 ∷ [];
  hash = toy_sum 167;
}

abbrev pub state0 : State
state0 = (alice, record { balance = 100; nonce = 0 }) ∷ []

abbrev pub state1 : State
state1 =
    (alice, record { balance = 66; nonce = 1 })
    ∷ (miner, record { balance = 10; nonce = 0 })
    ∷ (bob, record { balance = 30; nonce = 0 })
    ∷ []
