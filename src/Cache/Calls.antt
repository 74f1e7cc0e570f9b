-- ===== src/Cache/Calls.antt =====
-- internal/cache/lru.go: a run of calls, and the same run on the list of the latest used keys.
use neo_coin.Base.{
  ℕ, ◌≤◌, ◌≡◌, refl, ap, ◌∙◌, ◌==◌, if◌then◌else◌, Option, none, some, List, [], ◌∷◌, length,
}
use mathlib.Core.Path.{subst}
use neo_coin.Base.Int.{ℤ, pos, negsuc}
use neo_coin.Base.Dict.{Key, Dict, lookup, erase}
use neo_coin.Cache.{Lru, new_lru, lru_set, lru_delete, clear, lru_get}
use neo_coin.Cache.Sound.{IsSound, clear-IsSound}
use neo_coin.Cache.Steps.{new_lru-IsSound}
use neo_coin.Cache.Recent.{recent, recent_set, recent_get, entries_of}
use neo_coin.Cache.Refines.{answer, get_refines, delete_refines, set_refines}

pub data Call {ℓ κ} (K : Type ℓ) (V : Type κ) : Type (ℓ ⊔ κ) where
  put : K → V → Call K V
  read : K → Call K V
  drop_key : K → Call K V
  reset : Call K V

abbrev pub bound_of : ℤ → ℕ
bound_of (pos n) = if n == 0 then 1024 else n
bound_of (negsuc n) = 1024

new_lru-max {ℓ κ} :
    (K : Type ℓ) (V : Type κ) (n : ℤ) → (new_lru {K = K} {V = V} n).max_items ≡ bound_of n
unfolding new_lru
new_lru-max K V (pos n) = refl
new_lru-max K V (negsuc n) = refl

new_lru-recent {ℓ κ} : (K : Type ℓ) (V : Type κ) (n : ℤ) → recent (new_lru {K = K} {V = V} n) ≡ []
unfolding new_lru entries_of
new_lru-recent K V (pos n) = refl
new_lru-recent K V (negsuc n) = refl

module _ {ℓ κ} {K : Type ℓ} {V : Type κ} where
  abbrev pub silent : Option (Lru K V) → Option (Lru K V × Option (K × V))
  silent none = none
  silent (some c) = some (c, none)

  abbrev pub put_front :
      Option (K × V)
      → Option (Lru K V × List (Option (K × V)))
      → Option (Lru K V × List (Option (K × V)))
  put_front a none = none
  put_front a (some (c, others)) = some (c, a ∷ others)

  -- The run goes on from the new state, and the answer is put in front.
  abbrev pub chain :
      Option (Lru K V × Option (K × V))
      → (Lru K V → Option (Lru K V × List (Option (K × V))))
      → Option (Lru K V × List (Option (K × V)))
  chain none rest = none
  chain (some (c, a)) rest = put_front a (rest c)

module _ {ℓ κ} {K : Type ℓ} {V : Type κ} ⦃e : Key K⦄ where
  unfoldable pub perform : Call K V → Lru K V → Option (Lru K V × Option (K × V))
  perform (put k v) c = silent (lru_set k v c)
  perform (read k) c = lru_get k c
  perform (drop_key k) c = silent (lru_delete k c)
  perform reset c = some (clear c, none)

  unfoldable pub perform_all : List (Call K V) → Lru K V → Option (Lru K V × List (Option (K × V)))
  unfolding perform
  perform_all [] c = some (c, [])
  perform_all (x ∷ xs) c = chain (perform x c) (perform_all xs)

  -- The same calls on the list.
  abbrev pub recent_perform : ℕ → Call K V → Dict K V → Dict K V × Option (K × V)
  recent_perform max_items (put k v) used = (recent_set max_items k v used, none)
  recent_perform max_items (read k) used = (recent_get k used, answer k (lookup k used))
  recent_perform max_items (drop_key k) used = (erase k used, none)
  recent_perform max_items reset used = ([], none)

  unfoldable pub recent_all : ℕ → List (Call K V) → Dict K V → Dict K V × List (Option (K × V))
  recent_all max_items [] used = (used, [])
  recent_all max_items (x ∷ xs) used =
      let one = recent_perform max_items x used in
      let rest = recent_all max_items xs one.0 in (rest.0, one.1 ∷ rest.1)

  perform_refines :
      (x : Call K V) (c : Lru K V)
      → IsSound c
      → (d : Lru K V) × (perform x c ≡ some (d, (recent_perform c.max_items x (recent c)).1))
        × IsSound d
        × (recent d ≡ (recent_perform c.max_items x (recent c)).0)
        × (d.max_items ≡ c.max_items)
  unfolding perform clear entries_of
  perform_refines (put k v) c s =
      let (d, done, t, r, m) = set_refines c s k v in (d, ap silent done, t, r, m)
  perform_refines (read k) c s = get_refines c s k
  perform_refines (drop_key k) c s =
      let (d, done, t, r, m) = delete_refines c s k in (d, ap silent done, t, r, m)
  perform_refines reset c s = (clear c, refl, clear-IsSound c s, refl, refl)

  perform_all-refines :
      (xs : List (Call K V)) (c : Lru K V)
      → IsSound c
      → (d : Lru K V) × (perform_all xs c ≡ some (d, (recent_all c.max_items xs (recent c)).1))
        × IsSound d
        × (recent d ≡ (recent_all c.max_items xs (recent c)).0)
        × (d.max_items ≡ c.max_items)
  unfolding perform_all recent_all
  perform_all-refines [] c s = (c, refl, s, refl, refl)
  perform_all-refines (x ∷ xs) c s =
      let (d, done, t, r, m) = perform_refines x c s in
      let (f, all_done, u, q, n) = perform_all-refines xs d t in
      (
        f,
        ap (λ o. chain o (perform_all xs)) done ∙ rw (all_done, r, m) refl,
        u,
        rw (q, r, m) refl,
        n ∙ m,
      )

  -- Any calls of Set, Get, Delete and Clear on a new cache, one after the other, return what the
  -- same calls on a list of the latest used keys return, and leave the entries of that list, in its
  -- order; there are never more of them than the bound, which is 1024 where the given number is not
  -- positive.
  pub lru_refines :
      (n : ℤ) (xs : List (Call K V))
      → (d : Lru K V) × (perform_all xs (new_lru n) ≡ some (d, (recent_all (bound_of n) xs []).1))
        × (recent d ≡ (recent_all (bound_of n) xs []).0)
        × (length d.lru_list ≤ bound_of n)
  lru_refines n xs =
      let (d, done, s, r, m) = perform_all-refines xs (new_lru n) (new_lru-IsSound n) in
      (
        d,
        done ∙ rw (new_lru-max K V n, new_lru-recent K V n) refl,
        r ∙ rw (new_lru-max K V n, new_lru-recent K V n) refl,
        subst (λ b. length d.lru_list ≤ b) (m ∙ new_lru-max K V n) s.bounded,
      )
