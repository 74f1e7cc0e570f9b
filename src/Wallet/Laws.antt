-- ===== src/Wallet/Laws.antt =====
-- A transfer that blockchain/cli.go builds passes the consensus checks of blockchain/types.go.
use neo_coin.Base.{ℕ, ◌≡◌, true, some, length}
use neo_coin.Base.Bytes.{Bytes}
use neo_coin.Base.Result.{ok}
use neo_coin.Types.{Transaction}
use neo_coin.Platform.{Platform}
use neo_coin.Tx.{from_address}
use neo_coin.Wallet.{Signer, Wallet, ChainInfo, unsigned}

-- What crypto/ed25519 documents: the sizes, and that a signature verifies under the public key.
pub record IsSigner (P : Platform) (S : Signer) : Type 0 where
  pub length-public_of : (raw : Bytes) → length raw ≡ 64 → length (S.public_of raw) ≡ 32
  pub length-sign : (raw message : Bytes) → length raw ≡ 64 → length (S.sign raw message) ≡ 64
  pub verifies :
      (raw message : Bytes)
      → length raw ≡ 64
      → P.ed25519_verify (S.public_of raw) message (S.sign raw message) ≡ true

module _ (P : Platform) where
  module _ (S : Signer) where
    -- The transfer with a signature.
    abbrev signed_with : Bytes → Wallet → ChainInfo → Bytes → ℕ → ℕ → ℕ → Bytes → Transaction
    signed_with s w info to amount fee n payload =
        record (unsigned P S w info to amount fee n payload) { signature = some s }

    -- What the caller of the wallet gets: his fields, signed for his address.
    pub record IsBuilt (w : Wallet) (info : ChainInfo) (to : Bytes) (amount fee n : ℕ)
        (payload : Bytes) (t : Transaction) : Type 0 where
      pub sender : from_address P t ≡ ok w.address
      pub chain : t.chain_id ≡ info.chain_id
      pub receiver : t.to_address ≡ to
      pub sum : t.amount ≡ amount
      pub paid : t.fee ≡ fee
      pub number : t.nonce ≡ n
      pub text : t.tx_data ≡ payload
