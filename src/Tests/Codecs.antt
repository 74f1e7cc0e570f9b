-- ===== src/Tests/Codecs.antt =====
-- Merkle branches, transaction encodings and addresses on concrete values.
use neo_coin.Address.{hex_decode}
use neo_coin.Base.Bytes.{bytes_eq}
use neo_coin.Encoding.{trim_prefix, tx_signing_preimage}
use neo_coin.Base.{◌≡◌, refl, arith, Bool, true, none, some, List, [], ◌∷◌, ◌++◌}
use neo_coin.Base.Int.{pos}
use neo_coin.Base.Bytes.{Bytes}
use neo_coin.Base.Result.{ok}
use neo_coin.Types.{Transaction, IsWord, bytes_of}
use neo_coin.Address.Laws.{validate_address-generate_address}
use neo_coin.Encoding.{decode_hex32, transfer_bytes, uleb128}
use neo_coin.Address.{validate_address, generate_address}
use neo_coin.Encoding.Numbers.{read_uleb128, read_uleb128-uleb128}
use neo_coin.Encoding.Preimage.{tx_signing_preimage_binds}
use neo_coin.Merkle.{merkle_root, merkle_proof, verify_merkle_proof}
use neo_coin.Merkle.Levels.{All32}
use neo_coin.Merkle.Proofs.{merkle_proof-verifies}
use neo_coin.Tests.World.{toy, toy_sum, alice_key, alice_pays}

abbrev leaves : List Bytes
leaves = toy_sum 1 ∷ toy_sum 2 ∷ toy_sum 3 ∷ []

leaves-All32 : All32 leaves
leaves-All32 = (refl, (refl, (refl, tt)))

merkle_proof-verifies_example :
    (root : Bytes) × (branch : List Bytes) × (sides : List Bool) × (merkle_root toy leaves
      ≡ ok root)
    × (merkle_proof toy leaves (pos 2) ≡ ok (branch, sides, root))
    × (verify_merkle_proof toy (toy_sum 3) (pos 2) branch sides root ≡ ok true)
merkle_proof-verifies_example = merkle_proof-verifies toy leaves 2 (toy_sum 3) leaves-All32 refl

validate_address-generate_address_example :
    validate_address toy (generate_address toy alice_key) ≡ ok tt
validate_address-generate_address_example = validate_address-generate_address toy alice_key

abbrev payment : Transaction
payment = alice_pays 300 5 7

payment-IsWord : IsWord payment
payment-IsWord = record {
  chain_id_fits = omega arith;
  amount_fits = omega arith;
  fee_fits = omega arith;
  nonce_fits = omega arith;
}

abbrev same_payment : Transaction
same_payment = record payment { signature = none }

same_payment-IsWord : IsWord same_payment
same_payment-IsWord = record {
  chain_id_fits = omega arith;
  amount_fits = omega arith;
  fee_fits = omega arith;
  nonce_fits = omega arith;
}

abbrev payment_bytes : Bytes
payment_bytes = transfer_bytes 1 alice_key (toy_sum 176) 300 7 5 (104 ∷ 105 ∷ [])

payment_encodes : tx_signing_preimage payment ≡ ok payment_bytes
unfolding tx_signing_preimage decode_hex32 hex_decode bytes_eq trim_prefix
payment_encodes = refl

same_payment_encodes : tx_signing_preimage same_payment ≡ ok payment_bytes
unfolding tx_signing_preimage decode_hex32 hex_decode bytes_eq trim_prefix
same_payment_encodes = refl

tx_signing_preimage_binds_example :
    (payment.chain_id ≡ same_payment.chain_id)
    × (bytes_of payment.from_pub_key ≡ bytes_of same_payment.from_pub_key)
    × (decode_hex32 payment.to_address ≡ decode_hex32 same_payment.to_address)
    × (payment.amount ≡ same_payment.amount)
    × (payment.nonce ≡ same_payment.nonce)
    × (payment.fee ≡ same_payment.fee)
    × (payment.tx_data ≡ same_payment.tx_data)
tx_signing_preimage_binds_example =
    tx_signing_preimage_binds payment same_payment refl refl payment-IsWord same_payment-IsWord
      (omega arith) (omega arith) payment_encodes same_payment_encodes

read_uleb128-uleb128_example : read_uleb128 (uleb128 300 ++ 7 ∷ []) ≡ some (300, 7 ∷ [])
read_uleb128-uleb128_example = read_uleb128-uleb128 300 (7 ∷ []) (omega arith)
