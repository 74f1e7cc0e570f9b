-- ===== src/Base/Bytes.antt =====
-- Go's `[]byte` and `string`: lists of byte values, compared and ordered as Go compares strings.
use Prim.Native.Nat.{ℕ, zero, suc, ◌+◌, ◌/◌, ◌%◌, ◌<◌}
use Prim.Native.Char.{code}
use Prim.Native.String.{String}
use mathlib.Core.Path.{◌≡◌, refl}
use mathlib.Core.Logic.{◌↔◌}
use mathlib.Core.Bool.{Bool, true, false, ◌&&◌, ◌||◌}
use mathlib.Core.List.{List, [], ◌∷◌}
use native.Mathlib.Omega.{arith}
use neo_coin.Base.Tests.{ltb, ◌==◌, if◌then◌else◌}

abbrev pub Bytes : Type 0
Bytes = List ℕ

-- The bytes of an ASCII text.
abbrev pub ascii : String → Bytes
ascii String.[] = []
ascii (String.◌∷◌ c s) = code c ∷ ascii s

unfoldable pub bytes_eq : Bytes → Bytes → Bool
bytes_eq [] [] = true
bytes_eq [] (y ∷ ys) = false
bytes_eq (x ∷ xs) [] = false
bytes_eq (x ∷ xs) (y ∷ ys) = x == y && bytes_eq xs ys

-- `a < b` on strings.
unfoldable pub bytes_ltb : Bytes → Bytes → Bool
bytes_ltb [] [] = false
bytes_ltb [] (y ∷ ys) = true
bytes_ltb (x ∷ xs) [] = false
bytes_ltb (x ∷ xs) (y ∷ ys) = ltb x y || x == y && bytes_ltb xs ys

pub bytes_eq→eq : (xs ys : Bytes) → bytes_eq xs ys ≡ true → xs ≡ ys
unfolding bytes_eq
bytes_eq→eq [] [] h = refl
bytes_eq→eq [] (y ∷ ys) h = ground arith
bytes_eq→eq (x ∷ xs) [] h = ground arith
bytes_eq→eq (x ∷ xs) (y ∷ ys) h = ground (arith, bytes_eq→eq xs ys)

pub bytes_eq_refl : (xs : Bytes) → bytes_eq xs xs ≡ true
unfolding bytes_eq
bytes_eq_refl [] = refl
bytes_eq_refl (x ∷ xs) = ground (arith, bytes_eq_refl xs)

pub bytes_eq_iff : (xs ys : Bytes) → (bytes_eq xs ys ≡ true) ↔ (xs ≡ ys)
bytes_eq_iff xs ys = (bytes_eq→eq xs ys, λ e. ground (arith, bytes_eq_refl xs))

-- Two strings neither of which is below the other are equal.
pub bytes_ltb_total : (xs ys : Bytes) → bytes_ltb xs ys ≡ false → bytes_ltb ys xs ≡ false → xs ≡ ys
unfolding bytes_ltb
bytes_ltb_total [] [] h k = refl
bytes_ltb_total [] (y ∷ ys) h k = ground arith
bytes_ltb_total (x ∷ xs) [] h k = ground arith
bytes_ltb_total (x ∷ xs) (y ∷ ys) h k = ground (arith, bytes_ltb_total xs ys)

pub bytes_ltb_irrefl : (xs : Bytes) → bytes_ltb xs xs ≡ false
unfolding bytes_ltb
bytes_ltb_irrefl [] = refl
bytes_ltb_irrefl (x ∷ xs) = ground (arith, bytes_ltb_irrefl xs)

-- `encoding/hex`: two lower-case digits for each byte.
abbrev pub hex_digit : ℕ → ℕ
hex_digit d = if ltb d 10 then d + 48 else d + 87

unfoldable pub hex_encode : Bytes → Bytes
hex_encode [] = []
hex_encode (b ∷ bs) = hex_digit (b / 16) ∷ hex_digit (b % 16) ∷ hex_encode bs

abbrev pub IsByteList : Bytes → Type 0
IsByteList [] = Unit {0}
IsByteList (b ∷ bs) = (b < 256) × IsByteList bs

-- `%d` of a `uint64`, which has at most 20 digits.
unfoldable pub decimal_loop : ℕ → ℕ → Bytes → Bytes
decimal_loop zero n out = out
decimal_loop (suc fuel) n out =
    let rest = decimal_loop fuel (n / 10) ((48 + n % 10) ∷ out) in
    if ltb n 10 then (48 + n % 10) ∷ out else rest
