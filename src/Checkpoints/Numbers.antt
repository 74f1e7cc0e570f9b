-- ===== src/Checkpoints/Numbers.antt =====
-- Big-endian numbers read back, and what is taken from and dropped off a list with a known front.
use Prim.Native.Nat.{◌*◌}
use native.Mathlib.Nat.{pow-suc}
use neo_coin.Base.{
  ℕ, zero, suc, ◌+◌, ◌/◌, ◌%◌, ◌^◌, ◌<◌, ◌≡◌, refl, sym, ap, ◌∙◌, arith, List, [], ◌∷◌, ◌++◌,
  length, length-append, take, drop,
}
use neo_coin.Base.Bytes.{Bytes}
use neo_coin.Address.Laws.{take-append, drop-append}
use neo_coin.Header.{big_endian_value}
use neo_coin.Checkpoints.Codec.{big_endian}

pub length-big_endian : (k n : ℕ) → length (big_endian k n) ≡ k
unfolding big_endian
length-big_endian zero n = refl
length-big_endian (suc k) n =
    omega (
      arith,
      length-append (big_endian k (n / 256)) ((n % 256) ∷ []),
      length-big_endian k (n / 256),
    )

big_endian_value-append :
    (acc : ℕ) (bs : Bytes) (b : ℕ)
    → big_endian_value acc (bs ++ b ∷ []) ≡ big_endian_value acc bs * 256 + b
unfolding big_endian_value
big_endian_value-append acc [] b = refl
big_endian_value-append acc (x ∷ bs) b = big_endian_value-append (acc * 256 + x) bs b

pub big_endian_value-big_endian : (k n : ℕ) → n < 256 ^ k → big_endian_value 0 (big_endian k n) ≡ n
unfolding big_endian big_endian_value
big_endian_value-big_endian zero n h = omega arith
big_endian_value-big_endian (suc k) n h =
    let small : n < 256 ^ k * 256 = rw (← pow-suc) h in
    let smaller : n / 256 < 256 ^ k = omega arith in
    big_endian_value-append 0 (big_endian k (n / 256)) (n % 256)
    ∙ omega (arith, big_endian_value-big_endian k (n / 256) smaller)

pub take-front {ℓ} : {A : Type ℓ} (k : ℕ) (xs ys : List A) → length xs ≡ k → take k (xs ++ ys) ≡ xs
take-front k xs ys e = ap (λ n. take n (xs ++ ys)) (sym e) ∙ take-append xs ys

pub drop-front {ℓ} : {A : Type ℓ} (k : ℕ) (xs ys : List A) → length xs ≡ k → drop k (xs ++ ys) ≡ ys
drop-front k xs ys e = ap (λ n. drop n (xs ++ ys)) (sym e) ∙ drop-append xs ys
