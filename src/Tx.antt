-- ===== src/Tx.antt =====
-- Signing hashes and the checks of one transaction: blockchain/types.go (`FromAddress`,
-- `signingHashLegacyJSON`, `Verify`, `VerifyForConsensus`), blockchain/encoding_hash.go and
-- blockchain/txid.go.
pub mod Laws
use neo_coin.Base.{
  ℕ, Bool, true, false, not, ◌&&◌, ◌||◌, leb, ◌==◌, Option, none, some, List, [], length,
  if◌then◌else◌,
}
use neo_coin.Base.Bytes.{Bytes, hex_encode}
use neo_coin.Base.Result.{Result, ok, err, ◌>>=◌, ◌>>◌, fail_if}
use neo_coin.Types.{
  Error, Transaction, TransactionType, ConsensusParams, bytes_of, is_nil, is_transfer,
}
use neo_coin.Platform.{Platform, SigningView}
use neo_coin.Address.{generate_address, validate_address}
use neo_coin.Encoding.{tx_signing_preimage}

-- ed25519.PublicKeySize and ed25519.SignatureSize.
abbrev pub public_key_size : ℕ
public_key_size = 32

abbrev pub signature_size : ℕ
signature_size = 64

-- `ConsensusParams.BinaryEncodingActive`.
unfoldable pub binary_encoding_active : ConsensusParams → ℕ → Bool
binary_encoding_active p height =
    p.binary_encoding_enable && leb p.binary_encoding_activation_height height

module _ (P : Platform) where
  -- `Transaction.FromAddress`.
  unfoldable pub from_address : Transaction → Result Error Bytes
  from_address t = do
    fail_if (not (is_transfer t.tx_type)) Error.no_from_address
    fail_if (not (length (bytes_of t.from_pub_key) == public_key_size)) Error.bad_pub_key_length
    ok (generate_address P (bytes_of t.from_pub_key))

  -- The `signingView` of a transaction whose sender is `from_addr`.
  unfoldable pub signing_view : Transaction → Bytes → SigningView
  signing_view t from_addr = record {
    tx_type = t.tx_type;
    chain_id = t.chain_id;
    from_addr = from_addr;
    to_address = t.to_address;
    amount = t.amount;
    fee = t.fee;
    nonce = t.nonce;
    tx_data = t.tx_data;
  }

  -- `Transaction.signingHashLegacyJSON`.
  unfoldable pub signing_hash_legacy_json : Transaction → Result Error Bytes
  unfolding signing_view from_address
  signing_hash_legacy_json t = do
    from_addr ← if is_transfer t.tx_type then from_address t else ok []
    ok (P.sha256 (P.json_signing_view (signing_view t from_addr)))

  -- `txSigningHashBinaryV1`.
  unfoldable pub tx_signing_hash_binary : Transaction → Result Error Bytes
  tx_signing_hash_binary t = do pre ← tx_signing_preimage t; ok (P.sha256 pre)

  -- `txSigningHashForConsensus`.
  unfoldable pub tx_signing_hash : Transaction → ConsensusParams → ℕ → Result Error Bytes
  tx_signing_hash t p height =
      if binary_encoding_active p height
      then tx_signing_hash_binary t
      else signing_hash_legacy_json t

  -- `bytesToHex32`.
  unfoldable pub bytes_to_hex32 : Bytes → Result Error Bytes
  bytes_to_hex32 b = do fail_if (not (length b == 32)) Error.bad_hash_length; ok (hex_encode b)

  -- `TxIDHexForConsensus`.
  unfoldable pub tx_id_hex : Transaction → ConsensusParams → ℕ → Result Error Bytes
  unfolding bytes_to_hex32
  tx_id_hex t p height = do h ← tx_signing_hash t p height; bytes_to_hex32 h

  -- `Transaction.verifyWithSigningHash`.
  unfoldable pub verify_with_signing_hash : Transaction → Bytes → Result Error (Unit {0})
  verify_with_signing_hash t h = do
    fail_if (not (is_transfer t.tx_type)) Error.not_a_transfer
    fail_if (not (length (bytes_of t.from_pub_key) == public_key_size)) Error.bad_pub_key_length
    fail_if (not (length (bytes_of t.signature) == signature_size)) Error.bad_signature_length
    fail_if (not (P.ed25519_verify (bytes_of t.from_pub_key) h (bytes_of t.signature)))
        Error.invalid_signature

  -- The coinbase case of `Transaction.Verify`.
  unfoldable pub verify_coinbase : Transaction → Result Error (Unit {0})
  verify_coinbase t = do
    fail_if (t.chain_id == 0) Error.missing_chain_id
    fail_if (t.amount == 0) Error.zero_coinbase_amount
    validate_address P t.to_address
    fail_if
        (not (is_nil t.from_pub_key)
          || not (is_nil t.signature)
          || not (t.nonce == 0)
          || not (t.fee == 0))
        Error.coinbase_extra_fields

  -- The checks of a transfer that both verifiers make before they hash.
  unfoldable pub check_transfer : Transaction → Result Error (Unit {0})
  check_transfer t = do
    fail_if (t.amount == 0) Error.zero_amount
    validate_address P t.to_address
    fail_if (not (length (bytes_of t.from_pub_key) == public_key_size)) Error.bad_pub_key_length
    fail_if (not (length (bytes_of t.signature) == signature_size)) Error.bad_signature_length
    fail_if (t.nonce == 0) Error.zero_nonce
    fail_if (t.chain_id == 0) Error.missing_chain_id

  unfoldable pub verify_type : TransactionType → Transaction → Result Error (Unit {0})
  unfolding verify_coinbase check_transfer verify_with_signing_hash
  verify_type TransactionType.coinbase t = verify_coinbase t
  verify_type TransactionType.transfer t = do
    check_transfer t
    h ← signing_hash_legacy_json t
    verify_with_signing_hash t h
  verify_type (TransactionType.other s) t = err Error.unknown_tx_type

  -- `Transaction.Verify`.
  unfoldable pub verify : Transaction → Result Error (Unit {0})
  unfolding verify_type
  verify t = verify_type t.tx_type t

  unfoldable pub verify_type_for_consensus :
      TransactionType → Transaction → ConsensusParams → ℕ → Result Error (Unit {0})
  unfolding verify check_transfer verify_with_signing_hash
  verify_type_for_consensus TransactionType.coinbase t p height = verify t
  verify_type_for_consensus TransactionType.transfer t p height = do
    check_transfer t
    h ← tx_signing_hash t p height
    verify_with_signing_hash t h
  verify_type_for_consensus (TransactionType.other s) t p height = err Error.unknown_tx_type

  -- `Transaction.VerifyForConsensus`.
  unfoldable pub verify_for_consensus : Transaction → ConsensusParams → ℕ → Result Error (Unit {0})
  unfolding verify_type_for_consensus
  verify_for_consensus t p height = verify_type_for_consensus t.tx_type t p height
