-- ===== src/Cache/Recent.antt =====
-- internal/cache/lru.go: what the cache is for its callers, a list of keys and values, the latest
-- used first.
use neo_coin.Base.{
  ℕ, suc, ◌≡◌, ◌≢◌, refl, ap, sym, ◌∙◌, Bool, true, false, leb, ◌==◌, if◌then◌else◌, Option, none,
  some, List, [], ◌∷◌, length, arith, Bool-cases, inl, inr,
}
use neo_coin.Base.Dict.{Key, Dict, ℕ_key, lookup, insert, erase, lookup-insert}
use neo_coin.Cache.{Lru, member, unlink, log_one}
use neo_coin.Cache.Lists.{Distinct, drop_last, unlink-absent}
use neo_coin.Cache.Sound.{key_of}

module _ {ℓ κ} {K : Type ℓ} {V : Type κ} ⦃e : Key K⦄ where
  abbrev put_found : Option V → ℕ → K → V → Dict K V → Dict K V
  put_found (some old) max_items k v used = (k, v) ∷ erase k used
  put_found none max_items k v used =
      (k, v) ∷ (if leb max_items (length used) then drop_last used else used)

  -- A key that is set is the latest; a new key in a full cache drops the one used longest ago.
  abbrev pub recent_set : ℕ → K → V → Dict K V → Dict K V
  recent_set max_items k v used = put_found (lookup k used) max_items k v used

  abbrev use_found : Option V → K → Dict K V → Dict K V
  use_found none k used = used
  use_found (some v) k used = (k, v) ∷ erase k used

  -- A key that is read is the latest.
  abbrev pub recent_get : K → Dict K V → Dict K V
  recent_get k used = use_found (lookup k used) k used

module _ {ℓ κ} {K : Type ℓ} {V : Type κ} where
  -- The entries of the elements.
  unfoldable pub entries_of : List ℕ → Dict ℕ (K × V) → Dict K V
  entries_of [] held = []
  entries_of (el ∷ els) held = log_one (lookup el held) (entries_of els held)

  abbrev pub recent : Lru K V → Dict K V
  recent c = entries_of c.lru_list c.held

  -- An element that is not listed may change.
  pub entries_of-insert :
      (n : ℕ) (kv : K × V) (held : Dict ℕ (K × V)) (els : List ℕ)
      → member n els ≡ false
      → entries_of els (insert n kv held) ≡ entries_of els held
  unfolding entries_of member
  entries_of-insert n kv held [] h = refl
  entries_of-insert n kv held (el ∷ els) h =
      let rest = entries_of-insert n kv held els (ground arith) in
      rw (rest, lookup-insert n el kv held)
        (ap (λ o. log_one o (entries_of els held)) (ground arith))

  abbrev pub AllHeld : List ℕ → Dict ℕ (K × V) → Type (ℓ ⊔ κ)
  AllHeld [] held = Unit
  AllHeld (el ∷ els) held = ((kv : K × V) × (lookup el held ≡ some kv)) × AllHeld els held

  pub length-entries_of :
      (els : List ℕ) (held : Dict ℕ (K × V))
      → AllHeld els held
      → length (entries_of els held) ≡ length els
  unfolding entries_of
  length-entries_of [] held a = refl
  length-entries_of (el ∷ els) held (((k, v), h), a) = rw h (ap suc (length-entries_of els held a))

  pub entries_of-drop_last :
      (els : List ℕ) (held : Dict ℕ (K × V))
      → AllHeld els held
      → entries_of (drop_last els) held ≡ drop_last (entries_of els held)
  unfolding entries_of drop_last
  entries_of-drop_last [] held a = refl
  entries_of-drop_last (el ∷ []) held (((k, v), h), a) = rw h refl
  entries_of-drop_last (el ∷ fl ∷ els) held (((k, v), h), (((j, w), g), a)) =
      let rest = entries_of-drop_last (fl ∷ els) held (((j, w), g), a) in
      rw h (ap (λ l. (k, v) ∷ l) rest ∙ rw g refl)

  pub entries_of-drop_if :
      (b : Bool) (els : List ℕ) (held : Dict ℕ (K × V))
      → AllHeld els held
      → entries_of (if b then drop_last els else els) held
        ≡ (if b then drop_last (entries_of els held) else entries_of els held)
  entries_of-drop_if true els held a = entries_of-drop_last els held a
  entries_of-drop_if false els held a = refl

module _ {ℓ} {K : Type ℓ} ⦃e : Key K⦄ where
  same_self : (k : K) → e.same k k ≡ true
  same_self k = (e.same_iff k k).1 refl

module _ {ℓ κ} {K : Type ℓ} {V : Type κ} ⦃e : Key K⦄ where
  -- Only the element `el` can hold the key.
  abbrev pub OnlyAt : K → ℕ → List ℕ → Dict ℕ (K × V) → Type ℓ
  OnlyAt k el els held = (x : ℕ) → member x els ≡ true → key_of (lookup x held) ≡ some k → x ≡ el

  erase-log_one :
      (k : K) (o : Option (K × V)) (used : Dict K V)
      → key_of o ≢ some k
      → erase k (log_one o used) ≡ log_one o (erase k used)
  unfolding erase
  erase-log_one k none used h = refl
  erase-log_one k (some (j, w)) used h = ground (arith, h, e.same_iff j k)

  lookup-log_one :
      (k : K) (o : Option (K × V)) (used : Dict K V)
      → key_of o ≢ some k
      → lookup k (log_one o used) ≡ lookup k used
  unfolding lookup
  lookup-log_one k none used h = refl
  lookup-log_one k (some (j, w)) used h = ground (arith, h, e.same_iff j k)

  holds_at :
      (x el : ℕ) (held : Dict ℕ (K × V)) (kv : K × V)
      → x == el ≡ true
      → lookup el held ≡ some kv
      → lookup x held ≡ some kv
  holds_at x el held kv same at = let q : x ≡ el = ground arith in ap (λ i. lookup i held) q ∙ at

  pub entries_of-unlink :
      (k : K) (v : V) (el : ℕ) (els : List ℕ) (held : Dict ℕ (K × V))
      → Distinct els
      → lookup el held ≡ some (k, v)
      → OnlyAt k el els held
      → entries_of (unlink el els) held ≡ erase k (entries_of els held)
  unfolding entries_of unlink member erase
  entries_of-unlink k v el [] held d at only = refl
  entries_of-unlink k v el (x ∷ xs) held d at only =
      let rest = entries_of-unlink k v el xs held d.1 at (λ y m. only y (ground arith)) in
      elim (Bool-cases (x == el)) [
        | inl same ↦
            let gone : member el xs ≡ false = ground (arith, d.0) in
            rw (same, holds_at x el held (k, v) same at, same_self k)
              (sym (ap (λ l. entries_of l held) (unlink-absent el xs gone)) ∙ rest)
        | inr other ↦ rw other (
            ap (log_one (lookup x held)) rest
            ∙ sym (
                erase-log_one k (lookup x held) (entries_of xs held)
                  (λ h. ground (arith, only x, h))))
      ]

  -- A key is used exactly where an element of the list holds it.
  pub lookup-entries_of :
      (k : K) (v : V) (el : ℕ) (els : List ℕ) (held : Dict ℕ (K × V))
      → lookup el held ≡ some (k, v)
      → OnlyAt k el els held
      → member el els ≡ true
      → lookup k (entries_of els held) ≡ some v
  unfolding entries_of lookup member
  lookup-entries_of k v el [] held at only m = absurd (cc m)
  lookup-entries_of k v el (x ∷ xs) held at only m = elim (Bool-cases (x == el)) [
    | inl same ↦ rw (holds_at x el held (k, v) same at, same_self k) refl
    | inr other ↦
        lookup-log_one k (lookup x held) (entries_of xs held) (λ h. ground (arith, only x, h))
        ∙ lookup-entries_of k v el xs held at (λ y h. only y (ground arith)) (ground arith)
  ]

  pub lookup-entries_of-none :
      (k : K) (els : List ℕ) (held : Dict ℕ (K × V))
      → ((x : ℕ) → member x els ≡ true → key_of (lookup x held) ≢ some k)
      → lookup k (entries_of els held) ≡ none
  unfolding entries_of member lookup
  lookup-entries_of-none k [] held absent = refl
  lookup-entries_of-none k (x ∷ xs) held absent =
      lookup-log_one k (lookup x held) (entries_of xs held) (absent x (ground arith))
      ∙ lookup-entries_of-none k xs held (λ y h. absent y (ground arith))
