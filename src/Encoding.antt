-- ===== src/Encoding.antt =====
-- The binary encoding of transactions: blockchain/encoding_bin.go. Shifts and masks by powers of two
-- are written as division and remainder.
pub mod Numbers
pub mod Preimage
use neo_coin.Base.{
  ℕ, zero, suc, ◌+◌, ◌*◌, ◌/◌, ◌%◌, ◌^◌, Bool, true, false, ◌==◌, if◌then◌else◌, Option, none, some,
  List, [], ◌∷◌, ◌++◌, length, take, drop,
}
use neo_coin.Base.Bytes.{Bytes, bytes_eq}
use neo_coin.Base.Result.{Result, ok, err, ◌>>=◌, ◌>>◌, fail_if}
use neo_coin.Types.{Error, Transaction, TransactionType, bytes_of}
use neo_coin.Address.{address_prefix, hex_decode}

-- `binary.Write` with `LittleEndian`: the low byte first, `k` bytes.
unfoldable pub little_endian : ℕ → ℕ → Bytes
little_endian zero n = []
little_endian (suc k) n = (n % 256) ∷ little_endian k (n / 256)

-- The loop of `writeULEB128`, on fuel. Ten rounds write every `uint64`.
unfoldable pub uleb128_loop : ℕ → ℕ → Bytes
uleb128_loop zero n = []
uleb128_loop (suc fuel) n =
    let rest = uleb128_loop fuel (n / 128) in
    if n / 128 == 0 then (n % 128) ∷ [] else (n % 128 + 128) ∷ rest

-- `writeULEB128`.
unfoldable pub uleb128 : ℕ → Bytes
uleb128 = uleb128_loop 10

-- `strings.TrimPrefix`.
unfoldable pub trim_prefix : Bytes → Bytes → Bytes
trim_prefix prefix s =
    if bytes_eq (take (length prefix) s) prefix then drop (length prefix) s else s

unfoldable pub hash_of_decoded : Option Bytes → Option Bytes
hash_of_decoded none = none
hash_of_decoded (some b) =
    if length b == 37 then some (take 32 (drop 1 b)) else if length b == 32 then some b else none

-- `decodeHex32`.
unfoldable pub decode_hex32 : Bytes → Option Bytes
unfolding hash_of_decoded
decode_hex32 addr = hash_of_decoded (hex_decode (trim_prefix address_prefix addr))

-- The fields of a transfer, in the order in which they are written.
unfoldable pub transfer_bytes : ℕ → Bytes → Bytes → ℕ → ℕ → ℕ → Bytes → Bytes
transfer_bytes chain_id from to amount nonce fee payload =
    1 ∷ 1 ∷ little_endian 8 chain_id
    ++ (from
        ++ (to
            ++ (little_endian 8 amount
                ++ (little_endian 8 nonce
                    ++ (little_endian 8 fee ++ (uleb128 (length payload) ++ payload))))))

unfoldable pub coinbase_bytes : ℕ → Bytes → ℕ → Bytes → Bytes
coinbase_bytes chain_id to amount payload =
    1 ∷ 0 ∷ little_endian 8 chain_id
    ++ (to ++ (little_endian 8 amount ++ (uleb128 (length payload) ++ payload)))

-- The `switch` of `txSigningPreimageBinaryV1`.
unfoldable pub preimage_of_type : TransactionType → Transaction → Result Error Bytes
preimage_of_type TransactionType.coinbase t = do
  fail_if (t.chain_id == 0) Error.missing_chain_id
  elim (decode_hex32 t.to_address) [
    | none ↦ err Error.invalid_to_address
    | some to ↦ ok (coinbase_bytes t.chain_id to t.amount t.tx_data)
  ]
preimage_of_type TransactionType.transfer t = do
  fail_if (t.chain_id == 0) Error.missing_chain_id
  fail_if (if length (bytes_of t.from_pub_key) == 32 then false else true) Error.bad_pub_key_length
  elim (decode_hex32 t.to_address) [
    | none ↦ err Error.invalid_to_address
    | some to ↦
        ok (transfer_bytes t.chain_id (bytes_of t.from_pub_key) to t.amount t.nonce t.fee t.tx_data)
  ]
preimage_of_type (TransactionType.other s) t = err Error.unknown_tx_type

-- `txSigningPreimageBinaryV1`.
unfoldable pub tx_signing_preimage : Transaction → Result Error Bytes
unfolding preimage_of_type
tx_signing_preimage t = preimage_of_type t.tx_type t
