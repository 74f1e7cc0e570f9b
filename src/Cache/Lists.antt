-- ===== src/Cache/Lists.antt =====
-- The list of elements: unlinking one of distinct elements, and moving one to the front.
use neo_coin.Base.{
  ℕ, suc, ◌<◌, ◌≤◌, ◌≡◌, refl, true, false, not, ◌&&◌, ◌||◌, ◌==◌, some, List, [], ◌∷◌, ◌++◌,
  length, arith, Bool-cases, inl, inr,
}
use neo_coin.Cache.{member, unlink, back}

abbrev pub Distinct : List ℕ → Type 0
Distinct [] = Unit {0}
Distinct (x ∷ xs) = (member x xs ≡ false) × Distinct xs

pub member-unlink :
    (el x : ℕ) (xs : List ℕ)
    → Distinct xs
    → member x (unlink el xs) ≡ (member x xs && not (x == el))
unfolding member unlink
member-unlink el x [] d = refl
member-unlink el x (y ∷ ys) d = ground (arith, d.0, member-unlink el x ys d.1)

pub unlink-Distinct : (el : ℕ) (xs : List ℕ) → Distinct xs → Distinct (unlink el xs)
unfolding unlink
unlink-Distinct el [] d = tt
unlink-Distinct el (x ∷ xs) d = elim (Bool-cases (x == el)) [
  | inl same ↦ rw same d.1
  | inr other ↦ rw other (ground (arith, d.0, member-unlink el x xs d.1), unlink-Distinct el xs d.1)
]

pub length-unlink :
    (el : ℕ) (xs : List ℕ)
    → (length (unlink el xs) ≤ length xs)
      × (member el xs ≡ true → length xs ≡ suc (length (unlink el xs)))
unfolding member unlink
length-unlink el [] = (omega arith, λ h. absurd (ground arith))
length-unlink el (x ∷ xs) =
    let (a, b) = length-unlink el xs in (ground (arith, a), λ h. ground (arith, b))

pub back-member : (xs : List ℕ) (el : ℕ) → back xs ≡ some el → member el xs ≡ true
unfolding back member
back-member [] el e = absurd (ground arith)
back-member (x ∷ []) el e = ground arith
back-member (x ∷ y ∷ ys) el e = ground (arith, back-member (y ∷ ys) el e)

pub member-append : (x : ℕ) (xs ys : List ℕ) → member x (xs ++ ys) ≡ (member x xs || member x ys)
unfolding member
member-append x [] ys = refl
member-append x (z ∷ xs) ys = ground (arith, member-append x xs ys)

pub back-some : (xs : List ℕ) → 0 < length xs → (el : ℕ) × (back xs ≡ some el)
unfolding back
back-some [] h = absurd (omega arith)
back-some (x ∷ []) h = (x, refl)
back-some (x ∷ y ∷ ys) h = back-some (y ∷ ys) (omega arith)

unfoldable pub drop_last {ℓ} : {A : Type ℓ} → List A → List A
drop_last [] = []
drop_last (x ∷ []) = []
drop_last (x ∷ y ∷ ys) = x ∷ drop_last (y ∷ ys)

pub unlink-absent : (el : ℕ) (xs : List ℕ) → member el xs ≡ false → unlink el xs ≡ xs
unfolding member unlink
unlink-absent el [] h = refl
unlink-absent el (x ∷ xs) h = ground (arith, unlink-absent el xs)

pub unlink-back :
    (el : ℕ) (xs : List ℕ) → Distinct xs → back xs ≡ some el → unlink el xs ≡ drop_last xs
unfolding member unlink back drop_last
unlink-back el [] d e = refl
unlink-back el (x ∷ []) d e = ground arith
unlink-back el (x ∷ y ∷ ys) d e =
    let there : member el (y ∷ ys) ≡ true = back-member (y ∷ ys) el e in
    ground (arith, d.0, there, unlink-back el (y ∷ ys) d.1 e)
