-- ===== src/Base/Dict.antt =====
-- Go's maps as association lists over keys with a Boolean equality. `range` over a map visits the
-- list's order, which stands for one of the orders that Go may choose.
use Prim.Native.Nat.{ℕ}
use mathlib.Core.Path.{◌≡◌, refl}
use mathlib.Core.Logic.{◌≢◌, ◌↔◌}
use mathlib.Core.Bool.{Bool, true}
use mathlib.Core.Option.{Option, none, some}
use mathlib.Core.List.{List, [], ◌∷◌}
use native.Mathlib.Omega.{arith}
use neo_coin.Base.Tests.{◌==◌, ==_iff, if◌then◌else◌}
use neo_coin.Base.Bytes.{Bytes, bytes_eq, bytes_eq_iff}

pub record Key {ℓ} (K : Type ℓ) : Type ℓ where
  pub same : K → K → Bool
  pub same_iff : (a b : K) → (same a b ≡ true) ↔ (a ≡ b)

instance abbrev pub ℕ_key : Key ℕ
ℕ_key = record { same = ◌==◌; same_iff = ==_iff }

instance abbrev pub bytes_key : Key Bytes
bytes_key = record { same = bytes_eq; same_iff = bytes_eq_iff }

abbrev pub Dict {ℓ κ} : Type ℓ → Type κ → Type (ℓ ⊔ κ)
Dict K V = List (K × V)

module _ {ℓ κ} {K : Type ℓ} {V : Type κ} ⦃e : Key K⦄ where
  unfoldable pub lookup : K → Dict K V → Option V
  lookup k [] = none
  lookup k ((j, v) ∷ m) = if e.same j k then some v else lookup k m

  -- `m[k] = v`
  unfoldable pub insert : K → V → Dict K V → Dict K V
  insert k v [] = (k, v) ∷ []
  insert k v ((j, w) ∷ m) = if e.same j k then (k, v) ∷ m else (j, w) ∷ insert k v m

  -- `delete(m, k)`
  unfoldable pub erase : K → Dict K V → Dict K V
  erase k [] = []
  erase k ((j, w) ∷ m) = let rest = erase k m in if e.same j k then rest else (j, w) ∷ rest

  pub lookup-insert :
      (k j : K) (v : V) (m : Dict K V)
      → lookup j (insert k v m) ≡ (if e.same k j then some v else lookup j m)
  unfolding lookup insert
  lookup-insert k j v [] = refl
  lookup-insert k j v ((i, w) ∷ m) =
      ground (arith, e.same_iff k j, e.same_iff i k, e.same_iff i j, lookup-insert k j v m)

  pub lookup-erase :
      (k j : K) (m : Dict K V) → lookup j (erase k m) ≡ (if e.same k j then none else lookup j m)
  unfolding lookup erase
  lookup-erase k j [] = ground arith
  lookup-erase k j ((i, w) ∷ m) =
      ground (arith, e.same_iff k j, e.same_iff i k, e.same_iff i j, lookup-erase k j m)

  pub lookup-insert_self : (k : K) (v : V) (m : Dict K V) → lookup k (insert k v m) ≡ some v
  lookup-insert_self k v m = ground (arith, lookup-insert k k v m, e.same_iff k k)

  pub lookup-insert_ne :
      (k j : K) (v : V) (m : Dict K V) → k ≢ j → lookup j (insert k v m) ≡ lookup j m
  lookup-insert_ne k j v m h = ground (arith, lookup-insert k j v m, e.same_iff k j)

  pub lookup-erase_self : (k : K) (m : Dict K V) → lookup k (erase k m) ≡ none
  lookup-erase_self k m = ground (arith, lookup-erase k k m, e.same_iff k k)

  pub lookup-erase_ne : (k j : K) (m : Dict K V) → k ≢ j → lookup j (erase k m) ≡ lookup j m
  lookup-erase_ne k j m h = ground (arith, lookup-erase k j m, e.same_iff k j)

module _ {ℓ κ} {K : Type ℓ} {V : Type κ} ⦃e : Key K⦄ where
  pub erase_absent : (k : K) (m : Dict K V) → lookup k m ≡ none → erase k m ≡ m
  unfolding lookup erase
  erase_absent k [] h = refl
  erase_absent k ((j, w) ∷ m) h = ground (arith, erase_absent k m)

  -- Removing a new key undoes its insertion.
  pub erase-insert : (k : K) (v : V) (m : Dict K V) → lookup k m ≡ none → erase k (insert k v m) ≡ m
  unfolding lookup insert erase
  erase-insert k v [] h = ground (arith, e.same_iff k k)
  erase-insert k v ((j, w) ∷ m) h = ground (arith, erase-insert k v m)
