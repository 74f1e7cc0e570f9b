-- ===== src/Encoding/Preimage.antt =====
-- A signature over the binary encoding binds every field of a transfer.
use neo_coin.Base.{
  ℕ, ◌<◌, ◌^◌, ◌≡◌, refl, sym, ap, ◌∙◌, arith, Option, none, some, List, [], ◌∷◌, ◌++◌, length,
  Bool, true, false, ◌==◌, ==_iff, if◌then◌else◌, take, drop, length-take, length-drop,
}
use neo_coin.Base.Bytes.{Bytes}
use neo_coin.Base.Result.{ok}
use neo_coin.Types.{Transaction, TransactionType, bytes_of, IsWord}
use neo_coin.Address.{address_prefix, hex_decode}
use neo_coin.Encoding.{
  trim_prefix, little_endian, uleb128, transfer_bytes, decode_hex32, hash_of_decoded,
  tx_signing_preimage,
}
use neo_coin.Encoding.Numbers.{
  length-little_endian, little_endian_injective, read_uleb128, read_uleb128-uleb128,
}

-- Two texts with heads of one length are equal only part by part.
append_split {ℓ} :
    {A : Type ℓ} (xs ys : List A) {us vs : List A}
    → length xs ≡ length ys
    → xs ++ us ≡ ys ++ vs
    → (xs ≡ ys) × (us ≡ vs)
append_split [] [] l e = (refl, e)
append_split [] (y ∷ ys) l e = absurd (omega arith)
append_split (x ∷ xs) [] l e = absurd (omega arith)
append_split (x ∷ xs) (y ∷ ys) {us} {vs} l e =
    let tails : xs ++ us ≡ ys ++ vs = cc in
    let (heads, rest) = append_split xs ys (omega arith) tails in (cc, rest)

little_endian_split :
    (m n : ℕ) {us vs : Bytes}
    → m < 2 ^ 64
    → n < 2 ^ 64
    → little_endian 8 m ++ us ≡ little_endian 8 n ++ vs
    → (m ≡ n) × (us ≡ vs)
little_endian_split m n hm hn e =
    let (heads, rest) =
      append_split (little_endian 8 m) (little_endian 8 n)
        (length-little_endian 8 m ∙ sym (length-little_endian 8 n)) e in
    (little_endian_injective m n hm hn heads, rest)

payload_split :
    (xs ys : Bytes)
    → length xs < 2 ^ 64
    → length ys < 2 ^ 64
    → uleb128 (length xs) ++ xs ≡ uleb128 (length ys) ++ ys
    → xs ≡ ys
payload_split xs ys hx hy e =
    let parsed : ◌≡◌ {A = Option (ℕ × Bytes)} (some (length xs, xs)) (some (length ys, ys)) =
      sym (read_uleb128-uleb128 (length xs) xs hx)
      ∙ ap read_uleb128 e
      ∙ read_uleb128-uleb128 (length ys) ys hy in
    cc

length-choice :
    (p q : Bool) (x y : Bytes) {to : Bytes}
    → (if p then some x else if q then some y else none) ≡ some to
    → (p ≡ true → length x ≡ 32)
    → (q ≡ true → length y ≡ 32)
    → length to ≡ 32
length-choice true q x y e hx hy = grind (arith, hx refl)
length-choice false true x y e hx hy = grind (arith, hy refl)
length-choice false false x y e hx hy = cc

length-skip_version : (b : Bytes) → length b ≡ 37 → length (take 32 (drop 1 b)) ≡ 32
length-skip_version b h = omega (arith, length-take 32 (drop 1 b), length-drop 1 b)

length-hash_of_decoded :
    (o : Option Bytes) {to : Bytes} → hash_of_decoded o ≡ some to → length to ≡ 32
unfolding hash_of_decoded
length-hash_of_decoded none e = cc
length-hash_of_decoded (some b) e =
    length-choice (length b == 37) (length b == 32) (take 32 (drop 1 b)) b e
      (λ h. length-skip_version b ((==_iff (length b) 37).0 h)) (λ h. (==_iff (length b) 32).0 h)

length-decode_hex32 : (addr : Bytes) {to : Bytes} → decode_hex32 addr ≡ some to → length to ≡ 32
unfolding decode_hex32
length-decode_hex32 addr e = length-hash_of_decoded (hex_decode (trim_prefix address_prefix addr)) e

-- What a transfer's preimage is made of.
preimage_parts :
    (t : Transaction) {b : Bytes}
    → t.tx_type ≡ TransactionType.transfer
    → tx_signing_preimage t ≡ ok b
    → (to : Bytes) × (decode_hex32 t.to_address ≡ some to)
      × (length (bytes_of t.from_pub_key) ≡ 32)
      × (b
          ≡ transfer_bytes t.chain_id (bytes_of t.from_pub_key) to t.amount t.nonce t.fee t.tx_data)
unfolding tx_signing_preimage
preimage_parts t is_transfer e = ground arith

transfer_bytes_injective :
    (c c' a a' n n' f f' : ℕ) (k k' to to' d d' : Bytes)
    → c < 2 ^ 64
    → c' < 2 ^ 64
    → a < 2 ^ 64
    → a' < 2 ^ 64
    → n < 2 ^ 64
    → n' < 2 ^ 64
    → f < 2 ^ 64
    → f' < 2 ^ 64
    → length k ≡ 32
    → length k' ≡ 32
    → length to ≡ 32
    → length to' ≡ 32
    → length d < 2 ^ 64
    → length d' < 2 ^ 64
    → transfer_bytes c k to a n f d ≡ transfer_bytes c' k' to' a' n' f' d'
    → (c ≡ c') × (k ≡ k') × (to ≡ to') × (a ≡ a') × (n ≡ n') × (f ≡ f') × (d ≡ d')
unfolding transfer_bytes
transfer_bytes_injective c c' a a' n n' f f' k k' to to' d d' hc hc' ha ha' hn hn' hf hf' hk hk' ht
      ht' hd hd' e =
    let (ec, r1) = little_endian_split c c' hc hc' (ap (drop 2) e) in
    let (ek, r2) = append_split k k' (hk ∙ sym hk') r1 in
    let (et, r3) = append_split to to' (ht ∙ sym ht') r2 in
    let (ea, r4) = little_endian_split a a' ha ha' r3 in
    let (en, r5) = little_endian_split n n' hn hn' r4 in
    let (ef, r6) = little_endian_split f f' hf hf' r5 in
    (ec, ek, et, ea, en, ef, payload_split d d' hd hd' r6)

-- Two transfers whose numbers fit 64 bits and whose payloads are shorter than 2 ^ 64 bytes have the
-- same binary signing preimage only if their chain ids, public keys, amounts, nonces, fees and
-- payloads are equal and their receivers decode to the same 32-byte hash.
pub tx_signing_preimage_binds :
    (t u : Transaction) {b : Bytes}
    → t.tx_type ≡ TransactionType.transfer
    → u.tx_type ≡ TransactionType.transfer
    → IsWord t
    → IsWord u
    → length t.tx_data < 2 ^ 64
    → length u.tx_data < 2 ^ 64
    → tx_signing_preimage t ≡ ok b
    → tx_signing_preimage u ≡ ok b
    → (t.chain_id ≡ u.chain_id)
      × (bytes_of t.from_pub_key ≡ bytes_of u.from_pub_key)
      × (decode_hex32 t.to_address ≡ decode_hex32 u.to_address)
      × (t.amount ≡ u.amount)
      × (t.nonce ≡ u.nonce)
      × (t.fee ≡ u.fee)
      × (t.tx_data ≡ u.tx_data)
tx_signing_preimage_binds t u it iu wt wu dt du et eu =
    let (to, decoded, key, parts) = preimage_parts t it et in
    let (to', decoded', key', parts') = preimage_parts u iu eu in
    let (ec, ek, eto, ea, en, ef, ed) =
      transfer_bytes_injective t.chain_id u.chain_id t.amount u.amount t.nonce u.nonce t.fee u.fee
        (bytes_of t.from_pub_key) (bytes_of u.from_pub_key) to to' t.tx_data u.tx_data
        wt.chain_id_fits wu.chain_id_fits wt.amount_fits wu.amount_fits wt.nonce_fits wu.nonce_fits
        wt.fee_fits wu.fee_fits key key' (length-decode_hex32 t.to_address decoded)
        (length-decode_hex32 u.to_address decoded') dt du (sym parts ∙ parts') in
    (ec, ek, cc, ea, en, ef, ed)
