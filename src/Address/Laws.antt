-- ===== src/Address/Laws.antt =====
-- Hexadecimal decoding after encoding, and that every generated address validates.
use neo_coin.Base.{
  ℕ, zero, suc, ◌+◌, ◌-◌, ◌/◌, ◌%◌, ◌≤◌, ◌<◌, ◌≡◌, refl, ◌∙◌, false, some, List, [], ◌∷◌, ◌++◌,
  arith, length, take, drop, length-append, length-take, ltb, ap,
}
use neo_coin.Base.Bytes.{Bytes, IsByteList, hex_encode, bytes_eq, bytes_eq_refl, hex_digit}
use neo_coin.Base.Result.{ok}
use neo_coin.Platform.{Platform}
use neo_coin.Address.{hex_value, hex_decode, generate_address, check_decoded, validate_address}

hex_value-hex_digit : (d : ℕ) → d < 16 → hex_value (hex_digit d) ≡ some d
hex_value-hex_digit d h = ground arith

-- Decoding the hexadecimal text of a byte list gives the list back.
pub hex_decode-hex_encode : (bs : Bytes) → IsByteList bs → hex_decode (hex_encode bs) ≡ some bs
unfolding hex_decode hex_encode
hex_decode-hex_encode [] h = refl
hex_decode-hex_encode (b ∷ bs) h = ground (
  arith,
  hex_value-hex_digit (b / 16),
  hex_value-hex_digit (b % 16),
  hex_decode-hex_encode bs h.1,
)

pub length-hex_encode : (bs : Bytes) → length (hex_encode bs) ≡ length bs + length bs
unfolding hex_encode
length-hex_encode [] = omega arith
length-hex_encode (b ∷ bs) = omega (arith, length-hex_encode bs)

IsByteList-append : (xs ys : Bytes) → IsByteList xs → IsByteList ys → IsByteList (xs ++ ys)
IsByteList-append [] ys h k = k
IsByteList-append (x ∷ xs) ys h k = (h.0, IsByteList-append xs ys h.1 k)

IsByteList-take : (n : ℕ) (xs : Bytes) → IsByteList xs → IsByteList (take n xs)
IsByteList-take zero xs h = tt
IsByteList-take (suc n) [] h = tt
IsByteList-take (suc n) (x ∷ xs) h = (h.0, IsByteList-take n xs h.1)

pub take-append {ℓ} : {A : Type ℓ} (xs ys : List A) → take (length xs) (xs ++ ys) ≡ xs
take-append [] ys = refl
take-append (x ∷ xs) ys = ap (◌∷◌ x) (take-append xs ys)

pub drop-append {ℓ} : {A : Type ℓ} (xs ys : List A) → drop (length xs) (xs ++ ys) ≡ ys
drop-append [] ys = refl
drop-append (x ∷ xs) ys = drop-append xs ys

module _ (P : Platform) where
  length-checksum : (b : Bytes) → length (take 4 (P.sha256 b)) ≡ 4
  length-checksum b = omega (arith, length-take 4 (P.sha256 b), P.length-sha256 b)

  -- A body of at least one byte, followed by its checksum, passes the check.
  check_decoded-append :
      (body : Bytes) → 0 < length body → check_decoded P (body ++ take 4 (P.sha256 body)) ≡ ok tt
  unfolding check_decoded
  check_decoded-append body h =
      let tail = take 4 (P.sha256 body) in
      let long : length (body ++ tail) ≡ length body + 4 =
        omega (arith, length-append body tail, length-checksum body) in
      let cut : length (body ++ tail) - 4 ≡ length body = omega (arith, long) in
      let enough : ltb (length (body ++ tail)) 5 ≡ false = ground (arith, long) in
      rw (enough, cut, take-append body tail, drop-append body tail, bytes_eq_refl tail)

  pub sealed-IsByteList :
      (hash : Bytes) → IsByteList hash → IsByteList ((0 ∷ hash) ++ take 4 (P.sha256 (0 ∷ hash)))
  sealed-IsByteList hash h =
      IsByteList-append (0 ∷ hash) _ (omega arith, h) (IsByteList-take 4 _ (P.sha256-IsByteList _))

  -- A text that decodes, behind the prefix.
  validate_address-prefix :
      (text decoded : Bytes)
      → 10 ≤ length text
      → hex_decode text ≡ some decoded
      → validate_address P (78 ∷ 69 ∷ 79 ∷ text) ≡ check_decoded P decoded
  unfolding validate_address bytes_eq
  validate_address-prefix text decoded long decodes = ground arith

  -- Every address that is generated from a public key, of any length, passes validation.
  pub validate_address-generate_address :
      (pub_key : Bytes) → validate_address P (generate_address P pub_key) ≡ ok tt
  unfolding generate_address
  validate_address-generate_address pub_key =
      let hash = P.sha256 pub_key in
      let body = 0 ∷ hash in
      let text = body ++ take 4 (P.sha256 body) in
      let long : 10 ≤ length (hex_encode text) = omega (
        arith,
        length-hex_encode text,
        length-append body (take 4 (P.sha256 body)),
        P.length-sha256 pub_key,
      ) in
      let decodes =
        hex_decode-hex_encode text (sealed-IsByteList hash (P.sha256-IsByteList pub_key)) in
      validate_address-prefix (hex_encode text) text long decodes
      ∙ check_decoded-append body (omega arith)
