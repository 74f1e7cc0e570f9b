-- ===== src/Wallet.antt =====
-- Signed transfers: blockchain/wallet.go (`WalletFromPrivateKeyBase64`) and blockchain/cli.go
-- (`buildSignedTransferTxWithWallet`). What the node answers and the private half of crypto/ed25519 are
-- arguments, as is the base64 text of a key, which comes decoded.
pub mod Laws
use neo_coin.Base.{ℕ, Bool, false, ◌==◌, not, if◌then◌else◌, Option, none, some, length}
use neo_coin.Base.Int.{pos}
use neo_coin.Base.Bytes.{Bytes}
use neo_coin.Base.Words.{add64}
use neo_coin.Base.Result.{Result, ok, err, ◌>>=◌}
use neo_coin.Types.{Error, Account, Transaction, TransactionType, ConsensusParams}
use neo_coin.Platform.{Platform}
use neo_coin.Address.{generate_address}
use neo_coin.Tx.{tx_signing_hash}

-- `PrivateKey.Public` and `Sign`.
pub record Signer : Type 0 where
  pub public_of : Bytes → Bytes
  -- private key, message
  pub sign : Bytes → Bytes → Bytes

pub record Wallet : Type 0 where
  pub private_key : Bytes
  pub public_key : Bytes
  pub address : Bytes

pub data BuildError : Type 0 where
  bad_base64 bad_private_key nil_wallet no_chain_info no_account : BuildError
  not_hashed : Error → BuildError

-- ed25519.PrivateKeySize.
abbrev pub private_key_size : ℕ
private_key_size = 64

-- `chainInfoView`.
pub record ChainInfo : Type 0 where
  pub chain_id : ℕ
  pub height : ℕ
  pub binary_encoding_enable : Bool
  pub binary_encoding_activation_height : ℕ

-- The parameters that are filled in from the answer; all others are zero.
abbrev pub params_of : ChainInfo → ConsensusParams
params_of info = record {
  difficulty_enable = false;
  target_block_time = pos 0;
  difficulty_window = pos 0;
  difficulty_max_step = 0;
  min_difficulty_bits = 0;
  max_difficulty_bits = 0;
  genesis_difficulty_bits = 0;
  median_time_past_window = pos 0;
  max_time_drift = pos 0;
  max_block_size = 0;
  merkle_enable = false;
  merkle_activation_height = 0;
  binary_encoding_enable = info.binary_encoding_enable;
  binary_encoding_activation_height = info.binary_encoding_activation_height;
  monetary_policy = record {
    initial_block_reward = 0;
    halving_interval = 0;
    miner_fee_share = 0;
    tail_emission = 0;
  };
}

abbrev pub or_error {ℓ} : {A : Type ℓ} → Option A → BuildError → Result BuildError A
or_error none e = err e
or_error (some a) e = ok a

abbrev pub hashed : Result Error Bytes → Result BuildError Bytes
hashed (ok h) = ok h
hashed (err e) = err (BuildError.not_hashed e)

-- A nonce of 0 stands for the next one of the account.
unfoldable pub nonce_for : ℕ → Option Account → Result BuildError ℕ
nonce_for nonce account =
    if nonce == 0
    then or_error account BuildError.no_account >>= (λ a. ok (add64 a.nonce 1))
    else ok nonce

module _ (P : Platform) (S : Signer) where
  abbrev pub wallet_of : Bytes → Wallet
  wallet_of raw = record {
    private_key = raw;
    public_key = S.public_of raw;
    address = generate_address P (S.public_of raw);
  }

  -- `WalletFromPrivateKeyBase64`, of the decoded text.
  unfoldable pub wallet_from_private_key : Option Bytes → Result BuildError Wallet
  wallet_from_private_key decoded = do
    raw ← or_error decoded BuildError.bad_base64
    if not (length raw == private_key_size)
        then err BuildError.bad_private_key
        else ok (wallet_of raw)

  abbrev pub unsigned : Wallet → ChainInfo → Bytes → ℕ → ℕ → ℕ → Bytes → Transaction
  unsigned w info to amount fee nonce payload = record {
    tx_type = TransactionType.transfer;
    chain_id = info.chain_id;
    from_pub_key = some w.public_key;
    to_address = to;
    amount = amount;
    fee = fee;
    nonce = nonce;
    tx_data = payload;
    signature = none;
  }

  -- `buildSignedTransferTxWithWallet`.
  unfoldable pub build_signed_transfer :
      Option Wallet
      → Option ChainInfo
      → Option Account
      → Bytes
      → ℕ
      → ℕ
      → ℕ
      → Bytes
      → Result BuildError Transaction
  unfolding nonce_for
  build_signed_transfer wallet answer account to amount fee nonce payload = do
    w ← or_error wallet BuildError.nil_wallet
    info ← or_error answer BuildError.no_chain_info
    n ← nonce_for nonce account
    let tx = unsigned w info to amount fee n payload
    h ← hashed (tx_signing_hash P tx (params_of info) (add64 info.height 1))
    ok (record tx { signature = some (S.sign w.private_key h) })
