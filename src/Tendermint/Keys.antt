-- ===== src/Tendermint/Keys.antt =====
-- Maps with distinct keys: a map whose keys are all in another is not larger.
use neo_coin.Base.{
  ◌<◌, ◌≤◌, ◌≡◌, refl, Bool, true, false, Option, none, some, [], ◌∷◌, length, arith, Bool-cases,
  inl, inr,
}
use mathlib.Core.Path.{subst}
use neo_coin.Base.Dict.{Key, Dict, lookup, insert, erase, lookup-insert, lookup-erase}

abbrev pub has {ℓ} : {A : Type ℓ} → Option A → Bool
has none = false
has (some a) = true

module _ {ℓ κ} {K : Type ℓ} {V : Type κ} ⦃e : Key K⦄ where
  pub length-erase :
      (k : K) (m : Dict K V)
      → (length (erase k m) ≤ length m) × (has (lookup k m) ≡ true → length (erase k m) < length m)
  unfolding lookup erase
  length-erase k [] = (omega arith, λ h. absurd (ground arith))
  length-erase k ((j, v) ∷ m) =
      let (a, b) = length-erase k m in (ground arith, λ h. ground (arith, b))

module _ {ℓ κ} {K : Type ℓ} {V : Type κ} ⦃e : Key K⦄ where
  abbrev pub Distinct : Dict K V → Type 0
  Distinct [] = Unit {0}
  Distinct ((k, v) ∷ m) = (has (lookup k m) ≡ false) × Distinct m

  pub insert-Distinct : (k : K) (v : V) (m : Dict K V) → Distinct m → Distinct (insert k v m)
  unfolding lookup insert
  insert-Distinct k v [] d = (refl, tt)
  insert-Distinct k v ((j, w) ∷ m) d = elim (Bool-cases (e.same j k)) [
    | inl same ↦
        let eq : j ≡ k = (e.same_iff j k).0 same in
        rw same (subst (λ x. has (lookup x m) ≡ false) eq d.0, d.1)
    | inr other ↦ rw other (
      ground (arith, d.0, e.same_iff j k, e.same_iff k j, lookup-insert k j v m),
      insert-Distinct k v m d.1,
    )
  ]

module _ {ℓ κ} {K : Type ℓ} {V : Type κ} ⦃e : Key K⦄ where
  keys-erase :
      {W : Type κ} (k : K) (m : Dict K V) (n : Dict K W)
      → has (lookup k m) ≡ false
      → ((j : K) → has (lookup j m) ≡ true → has (lookup j n) ≡ true)
      → (j : K) → has (lookup j m) ≡ true
      → has (lookup j (erase k n)) ≡ true
  keys-erase k m n new sub j h = elim (Bool-cases (e.same k j)) [
    | inl same ↦
        let eq : k ≡ j = (e.same_iff k j).0 same in
        absurd (cc (subst (λ x. has (lookup x m) ≡ false) eq new))
    | inr other ↦ ground (arith, lookup-erase k j n, sub j h)
  ]

  -- Distinct keys that are all in another map are no more than its entries.
  pub length-le-of_keys :
      {W : Type κ} (m : Dict K V) (n : Dict K W)
      → Distinct m
      → ((j : K) → has (lookup j m) ≡ true → has (lookup j n) ≡ true)
      → length m ≤ length n
  unfolding lookup
  length-le-of_keys [] n d sub = omega arith
  length-le-of_keys ((k, v) ∷ m) n d sub =
      let there : has (lookup k n) ≡ true = sub k (ground (arith, e.same_iff k k)) in
      let below : length m ≤ length (erase k n) =
        length-le-of_keys m (erase k n) d.1 (keys-erase k m n d.0 (λ j h. sub j (ground arith))) in
      omega (arith, (length-erase k n).1 there)
