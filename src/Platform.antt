-- ===== src/Platform.antt =====
-- What the node takes from Go's cryptography and encoding packages, as an argument of every
-- definition that calls them: crypto/sha256, crypto/ed25519 and encoding/json. `Sum256` returns 32
-- bytes. Of JSON only the views that the code builds are kept: what `json.Marshal` makes of
-- them is a function.
use neo_coin.Base.{ℕ, ◌≡◌, Bool, length}
use neo_coin.Base.Bytes.{Bytes, IsByteList}
use neo_coin.Base.Int.{ℤ}
use neo_coin.Types.{TransactionType, Block}

-- `signingView` of blockchain/types.go.
pub record SigningView : Type 0 where
  pub tx_type : TransactionType
  pub chain_id : ℕ
  pub from_addr : Bytes
  pub to_address : Bytes
  pub amount : ℕ
  pub fee : ℕ
  pub nonce : ℕ
  pub tx_data : Bytes

-- `headerV1` and `headerV2`, which differ in the label of the root.
pub record HeaderView : Type 0 where
  pub version : ℕ
  pub height : ℕ
  pub timestamp_unix : ℤ
  pub prev_hash : Bytes
  pub root : Bytes
  pub difficulty_bits : ℕ
  pub miner_address : Bytes
  pub nonce : ℕ

pub record Platform : Type 0 where
  pub sha256 : Bytes → Bytes
  pub length-sha256 : (b : Bytes) → length (sha256 b) ≡ 32
  pub sha256-IsByteList : (b : Bytes) → IsByteList (sha256 b)
  -- public key, message, signature
  pub ed25519_verify : Bytes → Bytes → Bytes → Bool
  pub json_signing_view : SigningView → Bytes
  pub json_header_v1 : HeaderView → Bytes
  pub json_header_v2 : HeaderView → Bytes
  pub json_block : Block → Bytes
