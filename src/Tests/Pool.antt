-- ===== src/Tests/Pool.antt =====
-- The pool of pending transactions on concrete transactions.
use neo_coin.Address.{hex_decode, generate_address, check_decoded, validate_address}
use neo_coin.Base.Bytes.{bytes_eq, hex_encode}
use neo_coin.Base.Dict.{lookup, insert, erase}
use neo_coin.Base.Words.{add64, sub64, mul64}
use neo_coin.Mempool.{nonces_of, id_at, index_put, drop_nonce, index_remove, put, remove}
use neo_coin.Mempool.Evict.{evict_nonces}
use neo_coin.Mempool.Spam.{any_pattern, check_spam}
use neo_coin.Tx.{
  binary_encoding_active, from_address, signing_hash_legacy_json, tx_signing_hash, tx_id_hex,
  verify_for_consensus,
}
use neo_coin.Base.{ℕ, ◌≡◌, refl, arith, true, false, Option, none, some, List, [], ◌∷◌}
use neo_coin.Base.Int.{pos}
use neo_coin.Base.Bytes.{Bytes, ascii}
use neo_coin.Base.Result.{ok}
use neo_coin.Types.{Error, Transaction}
use neo_coin.Mempool.{Mempool, new_mempool, tx_for_sender_nonce}
use neo_coin.Mempool.Evict.{add_with_tx_id, replace_by_fee, entry_for, is_full, resolve_id}
use neo_coin.Mempool.Accept.{IsFresh, add_with_tx_id_accepts, replace_by_fee_accepts}
use neo_coin.Mempool.Consistent.{IsConsistent, new_mempool-IsConsistent}
use neo_coin.Mempool.Operations.{add_with_tx_id-IsConsistent}
use neo_coin.Mempool.Replace.{IsReplaced, replace_by_fee-IsReplaced}
use neo_coin.Mempool.Bound.{Fits, add_with_tx_id-Fits}
use neo_coin.Base.Dict.{bytes_key}
use neo_coin.Tests.World.{toy, toy_params, alice, alice_pays}

abbrev pool0 : Mempool
unfolding new_mempool
pool0 = new_mempool (pos 2)

abbrev first_id : Bytes
first_id = ascii "one"

abbrev pool1 : Mempool
unfolding add_with_tx_id
pool1 = (add_with_tx_id toy none [] (pos 7) (alice_pays 30 4 1) first_id toy_params 1 pool0).0

pool1-IsConsistent : IsConsistent toy pool1
unfolding pool1 pool0
pool1-IsConsistent =
    add_with_tx_id-IsConsistent toy none [] (pos 7) (alice_pays 30 4 1) first_id toy_params 1 pool0
      (new_mempool-IsConsistent toy (pos 2))

add_with_tx_id-IsConsistent_example :
    IsConsistent toy
      (add_with_tx_id toy none (first_id ∷ []) (pos 8) (alice_pays 20 3 2) [] toy_params 1 pool1).0
add_with_tx_id-IsConsistent_example =
    add_with_tx_id-IsConsistent toy none (first_id ∷ []) (pos 8) (alice_pays 20 3 2) [] toy_params 1
      pool1 pool1-IsConsistent

pool1-Fits : Fits pool1
unfolding pool1 pool0 add_with_tx_id resolve_id check_spam bytes_eq hex_encode hex_decode
    generate_address check_decoded validate_address lookup insert add64 sub64 mul64
pool1-Fits =
    add_with_tx_id-Fits toy none [] (pos 7) (alice_pays 30 4 1) first_id toy_params 1 pool0
      (new_mempool-IsConsistent toy (pos 2)) (omega arith)

add_with_tx_id-Fits_example :
    Fits
      (add_with_tx_id toy none (first_id ∷ []) (pos 8) (alice_pays 20 3 2) [] toy_params 1 pool1).0
add_with_tx_id-Fits_example =
    add_with_tx_id-Fits toy none (first_id ∷ []) (pos 8) (alice_pays 20 3 2) [] toy_params 1 pool1
      pool1-IsConsistent pool1-Fits

replace_by_fee-IsReplaced_example :
    IsConsistent toy
      (replace_by_fee toy (1 ∷ []) (pos 9) (alice_pays 30 9 1) [] toy_params 1 pool1).0
    × (((replace_by_fee toy (1 ∷ []) (pos 9) (alice_pays 30 9 1) [] toy_params 1 pool1).1.3 ≡ none)
        → IsReplaced toy
            (alice_pays 30 9 1)
            pool1
            (replace_by_fee toy (1 ∷ []) (pos 9) (alice_pays 30 9 1) [] toy_params 1 pool1).0)
replace_by_fee-IsReplaced_example =
    replace_by_fee-IsReplaced toy (1 ∷ []) (pos 9) (alice_pays 30 9 1) [] toy_params 1 pool1
      pool1-IsConsistent

-- The replacement is made; the same fee is refused; a payload with a known pattern is spam.
replacement_runs :
    ◌≡◌ {A = Option Error × Option Error × Option Error}
      (
        (replace_by_fee toy (1 ∷ []) (pos 9) (alice_pays 30 9 1) [] toy_params 1 pool1).1.3,
        (replace_by_fee toy (1 ∷ []) (pos 9) (alice_pays 30 4 1) [] toy_params 1 pool1).1.3,
        (add_with_tx_id toy none []
            (pos 9)
            (record (alice_pays 1 1 2) { tx_data = ascii "Claim your FREE coins" })
            []
            toy_params
            1
            pool1).1.1,
      )
      (none, some Error.replacement_fee_too_low, some Error.spam_detected)
unfolding pool1 pool0 add_with_tx_id replace_by_fee erase remove put index_put index_remove
    drop_nonce id_at nonces_of resolve_id tx_id_hex check_spam any_pattern evict_nonces
    binary_encoding_active tx_signing_hash signing_hash_legacy_json from_address
    verify_for_consensus bytes_eq hex_encode hex_decode generate_address check_decoded
    validate_address lookup insert add64 sub64 mul64
replacement_runs = refl

-- A second transfer of the sender, under a given id.
abbrev next_payment : Transaction
next_payment = alice_pays 20 3 2

abbrev second_id : Bytes
second_id = ascii "two"

sender_known : (amount fee nonce : ℕ) → from_address toy (alice_pays amount fee nonce) ≡ ok alice
unfolding from_address bytes_eq hex_encode hex_decode generate_address check_decoded
    validate_address lookup insert add64 sub64 mul64
sender_known amount fee nonce = refl

next_payment-IsFresh : IsFresh toy next_payment second_id toy_params 1 (pos 8) pool1 second_id alice
unfolding pool1 pool0 add_with_tx_id resolve_id check_spam any_pattern put index_put id_at nonces_of
    binary_encoding_active tx_signing_hash signing_hash_legacy_json from_address
    verify_for_consensus bytes_eq hex_encode hex_decode generate_address check_decoded
    validate_address lookup insert add64 sub64 mul64
next_payment-IsFresh = record { resolved = refl; sent = sender_known 20 3 2; new = refl }

next_payment_clean : (check_spam toy none next_payment pool1).1 ≡ ok tt
unfolding check_spam any_pattern
next_payment_clean = refl

next_slot_free : id_at pool1.by_sender_nonce alice 2 ≡ none
unfolding pool1 pool0 add_with_tx_id resolve_id check_spam any_pattern put index_put id_at nonces_of
    binary_encoding_active tx_signing_hash signing_hash_legacy_json from_address
    verify_for_consensus bytes_eq hex_encode hex_decode generate_address check_decoded
    validate_address lookup insert add64 sub64 mul64
next_slot_free = refl

pool1_has_room : is_full pool1 ≡ false
unfolding is_full pool1 pool0 add_with_tx_id resolve_id check_spam any_pattern put index_put id_at
    nonces_of binary_encoding_active tx_signing_hash signing_hash_legacy_json from_address
    verify_for_consensus bytes_eq hex_encode hex_decode generate_address check_decoded
    validate_address lookup insert add64 sub64 mul64
pool1_has_room = refl

add_with_tx_id_accepts_example :
    ((add_with_tx_id toy none [] (pos 8) next_payment second_id toy_params 1 pool1).1
      ≡ (second_id, none))
    × (tx_for_sender_nonce
          (add_with_tx_id toy none [] (pos 8) next_payment second_id toy_params 1 pool1).0
          alice
          2
        ≡ some (entry_for next_payment (pos 8) second_id))
add_with_tx_id_accepts_example =
    add_with_tx_id_accepts toy next_payment second_id toy_params 1 (pos 8) pool1 none [] second_id
      alice next_payment-IsFresh next_payment_clean next_slot_free pool1_has_room

abbrev better_payment : Transaction
better_payment = alice_pays 30 9 1

better_payment-IsFresh :
    IsFresh toy better_payment second_id toy_params 1 (pos 9) pool1 second_id alice
unfolding pool1 pool0 add_with_tx_id resolve_id check_spam any_pattern put index_put id_at nonces_of
    binary_encoding_active tx_signing_hash signing_hash_legacy_json from_address
    verify_for_consensus bytes_eq hex_encode hex_decode generate_address check_decoded
    validate_address lookup insert add64 sub64 mul64
better_payment-IsFresh = record { resolved = refl; sent = sender_known 30 9 1; new = refl }

first_slot_taken : id_at pool1.by_sender_nonce alice 1 ≡ some first_id
unfolding pool1 pool0 add_with_tx_id resolve_id check_spam any_pattern put index_put id_at nonces_of
    binary_encoding_active tx_signing_hash signing_hash_legacy_json from_address
    verify_for_consensus bytes_eq hex_encode hex_decode generate_address check_decoded
    validate_address lookup insert add64 sub64 mul64
first_slot_taken = refl

first_found : lookup first_id pool1.entries ≡ some (entry_for (alice_pays 30 4 1) (pos 7) first_id)
unfolding pool1 pool0 add_with_tx_id resolve_id check_spam any_pattern put index_put id_at nonces_of
    binary_encoding_active tx_signing_hash signing_hash_legacy_json from_address
    verify_for_consensus bytes_eq hex_encode hex_decode generate_address check_decoded
    validate_address lookup insert add64 sub64 mul64
first_found = refl

replace_by_fee_accepts_example :
    let answer = replace_by_fee toy (1 ∷ []) (pos 9) better_payment second_id toy_params 1 pool1 in
    ((others : List Bytes) × (answer.1 ≡ (second_id, true, first_id ∷ others, none)))
    × (tx_for_sender_nonce answer.0 alice 1 ≡ some (entry_for better_payment (pos 9) second_id))
    × (lookup second_id answer.0.entries ≡ some (entry_for better_payment (pos 9) second_id))
    × (lookup first_id answer.0.entries ≡ none)
    × IsConsistent toy answer.0
replace_by_fee_accepts_example =
    replace_by_fee_accepts toy better_payment second_id toy_params 1 (pos 9) pool1 (1 ∷ [])
      second_id alice first_id (entry_for (alice_pays 30 4 1) (pos 7) first_id) pool1-IsConsistent
      better_payment-IsFresh first_slot_taken first_found (omega arith)
