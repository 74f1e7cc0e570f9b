-- ===== src/Tests/Signing.antt =====
-- A wallet that signs a transfer.
use neo_coin.Base.{◌≡◌, refl, false, Option, none, some, ◌++◌, replicate}
use neo_coin.Base.Bytes.{ascii, bytes_eq}
use neo_coin.Base.Result.{ok}
use neo_coin.Types.{Account}
use neo_coin.Address.{validate_address, check_decoded, hex_decode}
use neo_coin.Encoding.{decode_hex32, hash_of_decoded, trim_prefix}
use neo_coin.Wallet.{Signer, Wallet, ChainInfo}
use neo_coin.Tests.World.{toy, alice_key}

-- Every private key is Alice's.
abbrev toy_signer : Signer
toy_signer = record { public_of = λ raw. alice_key; sign = λ raw message. alice_key ++ alice_key }

abbrev answer : ChainInfo
answer = record {
  chain_id = 1;
  height = 6;
  binary_encoding_enable = false;
  binary_encoding_activation_height = 0;
}

abbrev account : Option Account
account = some (record { balance = 70; nonce = 3 })

-- Ten bytes with their checksum are a valid address, and have no binary encoding.
short_address_validates :
    (validate_address toy (ascii "NEO" ++ replicate 20 48) ≡ ok tt)
    × (decode_hex32 (ascii "NEO" ++ replicate 20 48) ≡ none)
unfolding validate_address check_decoded hex_decode bytes_eq decode_hex32 hash_of_decoded
    trim_prefix
short_address_validates = (refl, refl)
