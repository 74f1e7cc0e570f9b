-- ===== src/Encoding/Numbers.antt =====
-- Reading back what the encoder writes: little-endian words and unsigned LEB128.
use neo_coin.Base.{
  ℕ, zero, suc, ◌+◌, ◌*◌, ◌/◌, ◌%◌, ◌^◌, ◌<◌, ◌≤◌, ◌≡◌, refl, ap, arith, ltb, if◌then◌else◌, Option,
  none, some, [], ◌∷◌, ◌++◌, length,
}
use mathlib.Core.Path.{subst}
use native.Mathlib.Decide.{dec_lt}
use native.Mathlib.Nat.{pow-suc}
use neo_coin.Base.Bytes.{Bytes}
use neo_coin.Encoding.{little_endian, uleb128_loop, uleb128}

pub length-little_endian : (k n : ℕ) → length (little_endian k n) ≡ k
unfolding little_endian
length-little_endian zero n = refl
length-little_endian (suc k) n = ap suc (length-little_endian k (n / 256))

-- The number that little-endian bytes stand for.
abbrev little_endian_value : Bytes → ℕ
little_endian_value [] = 0
little_endian_value (b ∷ bs) = b + 256 * little_endian_value bs

little_endian_value-little_endian :
    (k n : ℕ) → n < 256 ^ k → little_endian_value (little_endian k n) ≡ n
unfolding little_endian
little_endian_value-little_endian zero n h = omega arith
little_endian_value-little_endian (suc k) n h =
    let small : n < 256 ^ k * 256 = rw (← pow-suc) h in
    omega (arith, little_endian_value-little_endian k (n / 256) (omega (arith, small)))

-- Two 64-bit words with the same bytes are equal.
pub little_endian_injective :
    (m n : ℕ) → m < 2 ^ 64 → n < 2 ^ 64 → little_endian 8 m ≡ little_endian 8 n → m ≡ n
little_endian_injective m n hm hn e = omega (
  arith,
  ap little_endian_value e,
  little_endian_value-little_endian 8 m hm,
  little_endian_value-little_endian 8 n hn,
)

abbrev more_digits : ℕ → Option (ℕ × Bytes) → Option (ℕ × Bytes)
more_digits d none = none
more_digits d (some (n, rest)) = some (d + 128 * n, rest)

-- A reader of unsigned LEB128, as the format defines it: digits of seven bits, the low one first,
-- the last one below 128. It returns the number and what follows it.
pub read_uleb128 : Bytes → Option (ℕ × Bytes)
read_uleb128 [] = none
read_uleb128 (b ∷ bs) =
    let rest = read_uleb128 bs in if ltb b 128 then some (b, bs) else more_digits (b % 128) rest

uleb128_last : (fuel n : ℕ) → n < 128 → uleb128_loop (suc fuel) n ≡ n ∷ []
unfolding uleb128_loop
uleb128_last fuel n h = ground arith

uleb128_more :
    (fuel n : ℕ)
    → 128 ≤ n
    → uleb128_loop (suc fuel) n ≡ (n % 128 + 128) ∷ uleb128_loop fuel (n / 128)
unfolding uleb128_loop
uleb128_more fuel n h = ground arith

read_last : (b : ℕ) (bs : Bytes) → b < 128 → read_uleb128 (b ∷ bs) ≡ some (b, bs)
unfolding read_uleb128
read_last b bs h = ground arith

read_more :
    (d n : ℕ) (bs rest : Bytes)
    → d < 128
    → read_uleb128 bs ≡ some (n, rest)
    → read_uleb128 ((d + 128) ∷ bs) ≡ some (d + 128 * n, rest)
unfolding read_uleb128
read_more d n bs rest h e = rw e (ground arith)

read-uleb128_loop :
    (fuel n : ℕ) (rest : Bytes)
    → n < 128 ^ suc fuel
    → read_uleb128 (uleb128_loop (suc fuel) n ++ rest) ≡ some (n, rest)
read-uleb128_loop zero n rest h =
    rw (uleb128_last 0 n (omega arith)) (read_last n rest (omega arith))
read-uleb128_loop (suc fuel) n rest h = elim (dec_lt n 128) [
  | yes last ↦ rw (uleb128_last (suc fuel) n last) (read_last n rest last)
  | no more ↦
      let small : n < 128 ^ suc fuel * 128 = rw (← pow-suc) h in
      let ih = read-uleb128_loop fuel (n / 128) rest (omega (arith, small)) in
      let whole : n % 128 + 128 * (n / 128) ≡ n = omega arith in
      rw (uleb128_more (suc fuel) n (omega arith)) (
        subst
          (λ m.
            read_uleb128 ((n % 128 + 128) ∷ uleb128_loop (suc fuel) (n / 128) ++ rest)
            ≡ some (m, rest))
          whole (read_more (n % 128) (n / 128) _ rest (omega arith) ih))
]

-- Every 64-bit number that the encoder writes is read back, whatever follows it: the ten rounds of
-- fuel are enough.
pub read_uleb128-uleb128 :
    (n : ℕ) (rest : Bytes) → n < 2 ^ 64 → read_uleb128 (uleb128 n ++ rest) ≡ some (n, rest)
unfolding uleb128
read_uleb128-uleb128 n rest h = read-uleb128_loop 9 n rest (omega arith)
