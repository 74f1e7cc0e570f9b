-- ===== src/Trie/Paths.antt =====
-- Key paths: what is left of a path behind a prefix, and where two paths part.
use neo_coin.Base.{
  ℕ, zero, suc, ◌≡◌, ◌≢◌, refl, ap, false, ◌==◌, Option, none, some, [], ◌∷◌, ◌++◌, length, take,
  drop, arith, Bool-cases, inl, inr,
}
use neo_coin.Base.Bytes.{Bytes, bytes_eq, IsByteList}
use neo_coin.Trie.{strip_prefix, from_rest, common_length, nibbles}
use neo_coin.Trie.Shape.{IsPath}

pub from_rest_cong {ℓ} :
    {A : Type ℓ} (d : A) (f g : Bytes → A) (o : Option Bytes)
    → ((rest : Bytes) → f rest ≡ g rest)
    → from_rest d f o ≡ from_rest d g o
from_rest_cong d f g none h = refl
from_rest_cong d f g (some rest) h = h rest

pub bytes_eq-append :
    (prefix a q : Bytes)
    → bytes_eq (prefix ++ a) q ≡ from_rest false (bytes_eq a) (strip_prefix prefix q)
unfolding bytes_eq strip_prefix
bytes_eq-append [] a q = refl
bytes_eq-append (k ∷ prefix) a [] = refl
bytes_eq-append (k ∷ prefix) a (x ∷ q) = ground (arith, bytes_eq-append prefix a q)

pub strip_prefix-append :
    (prefix a q : Bytes)
    → strip_prefix (prefix ++ a) q ≡ from_rest none (strip_prefix a) (strip_prefix prefix q)
unfolding strip_prefix
strip_prefix-append [] a q = refl
strip_prefix-append (k ∷ prefix) a [] = refl
strip_prefix-append (k ∷ prefix) a (x ∷ q) = ground (arith, strip_prefix-append prefix a q)

-- Two rests that do not start alike.
abbrev pub Apart : Bytes → Bytes → Type 0
Apart [] b = Unit {0}
Apart (x ∷ a) [] = Unit {0}
Apart (x ∷ a) (y ∷ b) = x ≢ y

pub common_length-Apart :
    (k p : Bytes) → Apart (drop (common_length k p) k) (drop (common_length k p) p)
unfolding common_length
common_length-Apart [] p = tt
common_length-Apart (x ∷ k) [] = tt
common_length-Apart (x ∷ k) (y ∷ p) = ground (arith, common_length-Apart k p)

pub take-common_length : (k p : Bytes) → take (common_length k p) p ≡ take (common_length k p) k
unfolding common_length
take-common_length [] p = refl
take-common_length (x ∷ k) [] = refl
take-common_length (x ∷ k) (y ∷ p) = ground (arith, take-common_length k p)

pub take-IsPath : (n : ℕ) (p : Bytes) → IsPath p → IsPath (take n p)
take-IsPath zero p h = tt
take-IsPath (suc n) [] h = tt
take-IsPath (suc n) (x ∷ p) h = (h.0, take-IsPath n p h.1)

pub drop-IsPath : (n : ℕ) (p : Bytes) → IsPath p → IsPath (drop n p)
drop-IsPath zero p h = h
drop-IsPath (suc n) [] h = tt
drop-IsPath (suc n) (x ∷ p) h = drop-IsPath n p h.1

-- Paths that agree to their ends are equal.
pub eq_of_common_length :
    (k p : Bytes) → common_length k p ≡ length k → common_length k p ≡ length p → k ≡ p
unfolding common_length
eq_of_common_length [] [] h j = refl
eq_of_common_length [] (y ∷ p) h j = absurd (omega arith)
eq_of_common_length (x ∷ k) [] h j = absurd (omega arith)
eq_of_common_length (x ∷ k) (y ∷ p) h j = ground (arith, eq_of_common_length k p)

-- A path that covers the key path goes on behind it.
pub drop-common_length :
    (k p : Bytes)
    → common_length k p ≡ length k
    → strip_prefix k p ≡ some (drop (common_length k p) p)
unfolding common_length strip_prefix
drop-common_length [] p h = refl
drop-common_length (x ∷ k) [] h = absurd (omega arith)
drop-common_length (x ∷ k) (y ∷ p) h = ground (arith, drop-common_length k p)

-- A path that does not cover it leaves a rest of the key path.
pub drop-common_length_ne :
    (k p : Bytes)
    → common_length k p ≢ length k
    → (x : ℕ) × (rest : Bytes) × (drop (common_length k p) k ≡ x ∷ rest)
unfolding common_length
drop-common_length_ne [] p h = absurd (h refl)
drop-common_length_ne (x ∷ k) [] h = (x, k, refl)
drop-common_length_ne (x ∷ k) (y ∷ p) h = elim (Bool-cases (x == y)) [
  | inl same ↦
      let deeper = drop-common_length_ne k p (λ e. h (rw same (ap suc e))) in
      (deeper.0, deeper.1, rw same deeper.2)
  | inr other ↦ (x, k, rw other)
]

pub nibbles-IsPath : (b : Bytes) → IsByteList b → IsPath (nibbles b)
unfolding nibbles
nibbles-IsPath [] h = tt
nibbles-IsPath (x ∷ b) h = (omega arith, (omega arith, nibbles-IsPath b h.1))
