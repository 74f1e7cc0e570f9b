-- ===== src/Address.antt =====
-- Addresses: blockchain/address.go. An address is "NEO" and the hexadecimal text of a version byte,
-- a 32-byte hash and the first four bytes of their checksum.
pub mod Laws
use neo_coin.Base.{
  ℕ, ◌+◌, ◌-◌, ◌*◌, ◌<◌, ◌≡◌, Bool, true, false, ◌&&◌, ◌||◌, ltb, leb, ◌==◌, if◌then◌else◌, not,
  Option, none, some, List, [], ◌∷◌, ◌++◌, length, take, drop,
}
use neo_coin.Base.Bytes.{Bytes, ascii, bytes_eq, hex_encode}
use neo_coin.Base.Result.{Result, ok, err, ◌>>=◌, ◌>>◌, fail_if}
use neo_coin.Types.{Error}
use neo_coin.Platform.{Platform}

-- The value of a hexadecimal digit, of either case.
abbrev pub hex_value : ℕ → Option ℕ
hex_value c =
    if leb b'0' c && leb c b'9'
    then some (c - b'0')
    else if leb b'a' c && leb c b'f'
    then some (c - b'a' + 10)
    else if leb b'A' c && leb c b'F'
    then some (c - b'A' + 10)
    else none

abbrev join_hex : Option ℕ → Option ℕ → Option Bytes → Option Bytes
join_hex (some h) (some l) (some rest) = some ((h * 16 + l) ∷ rest)
join_hex _ _ _ = none

-- `hex.DecodeString` of encoding/hex; `none` is its error.
unfoldable pub hex_decode : Bytes → Option Bytes
hex_decode [] = some []
hex_decode (h ∷ []) = none
hex_decode (h ∷ l ∷ rest) = join_hex (hex_value h) (hex_value l) (hex_decode rest)

abbrev pub address_prefix : Bytes
address_prefix = ascii "NEO"

abbrev pub address_version : ℕ
address_version = 0

abbrev pub checksum_len : ℕ
checksum_len = 4

module _ (P : Platform) where
  -- `GenerateAddress`.
  unfoldable pub generate_address : Bytes → Bytes
  generate_address pub_key =
      let address_data = address_version ∷ P.sha256 pub_key in
      let checksum = P.sha256 address_data in
      address_prefix ++ hex_encode (address_data ++ take checksum_len checksum)

  -- The part of `ValidateAddress` after decoding.
  unfoldable pub check_decoded : Bytes → Result Error (Unit {0})
  check_decoded decoded = do
    fail_if (ltb (length decoded) (checksum_len + 1)) Error.invalid_encoded_length
    let address_data = take (length decoded - checksum_len) decoded
    let stored_checksum = drop (length decoded - checksum_len) decoded
    let checksum = P.sha256 address_data
    fail_if (not (bytes_eq stored_checksum (take checksum_len checksum))) Error.checksum_mismatch

  -- `ValidateAddress`.
  unfoldable pub validate_address : Bytes → Result Error (Unit {0})
  unfolding check_decoded
  validate_address addr = do
    fail_if (ltb (length addr) (length address_prefix + 10)) Error.address_too_short
    fail_if (not (bytes_eq (take (length address_prefix) addr) address_prefix)) Error.invalid_prefix
    elim (hex_decode (drop (length address_prefix) addr)) [
      | none ↦ err Error.invalid_hex
      | some decoded ↦ check_decoded decoded
    ]
