-- ===== src/Cache/Refines.antt =====
-- internal/cache/lru.go: calls one after the other give what the list of the latest used keys gives.
use neo_coin.Base.{
  ℕ, ◌≡◌, ◌≢◌, refl, ap, sym, ◌∙◌, true, false, leb, Option, none, some, List, [], ◌∷◌, length,
  arith, Option-cases, inl, inr,
}
use mathlib.Core.Path.{subst}
use neo_coin.Base.Words.{add64}
use neo_coin.Base.Dict.{Key, Dict, ℕ_key, lookup, erase, lookup-insert_self, erase_absent}
use neo_coin.Cache.{
  Lru, member, unlink, then_do, push_front, store_value, set_found, lru_set, delete_found,
  lru_delete, miss, lru_get,
}
use neo_coin.Cache.Lists.{member-unlink}
use neo_coin.Cache.Sound.{
  key_of, IsSound, move-IsSound, unlink-IsSound, push_front-IsSound, store_value-IsSound,
}
use neo_coin.Cache.Steps.{
  to_front, without, set_found-some, delete_found-some, make_room, touch_kept,
}
use neo_coin.Cache.Recent.{
  recent, recent_set, recent_get, entries_of, entries_of-insert, AllHeld, length-entries_of,
  entries_of-drop_if, OnlyAt, entries_of-unlink, lookup-entries_of, lookup-entries_of-none,
}

module _ {ℓ κ} {K : Type ℓ} {V : Type κ} where
  key_of-some : (k : K) (o : Option (K × V)) → key_of o ≡ some k → (v : V) × (o ≡ some (k, v))
  key_of-some k none h = absurd (cc h)
  key_of-some k (some (j, v)) h = let q : j ≡ k = ground (arith, h) in (v, rw q refl)

  held_of-AllHeld :
      (els : List ℕ) (held : Dict ℕ (K × V))
      → ((x : ℕ) → member x els ≡ true → (kv : K × V) × (lookup x held ≡ some kv))
      → AllHeld els held
  unfolding member
  held_of-AllHeld [] held h = tt
  held_of-AllHeld (x ∷ xs) held h =
      (h x (ground arith), held_of-AllHeld xs held (λ y m. h y (ground arith)))

-- What `Get` returns of the value that a key has.
abbrev pub answer {ℓ κ} : {K : Type ℓ} {V : Type κ} → K → Option V → Option (K × V)
answer k none = none
answer k (some v) = some (k, v)

module _ {ℓ κ} {K : Type ℓ} {V : Type κ} ⦃e : Key K⦄ (c : Lru K V) (s : IsSound c) where
  sound_held : AllHeld c.lru_list c.held
  sound_held = held_of-AllHeld c.lru_list c.held (λ x m.
      let (k, holds, there) = s.mapped x m in
      let (v, at) = key_of-some k (lookup x c.held) holds in ((k, v), at))

  sound_only : (k : K) (el : ℕ) → lookup k c.items ≡ some el → OnlyAt k el c.lru_list c.held
  sound_only k el at x m h =
      let (j, holds, there) = s.mapped x m in
      let q : j ≡ k = ground (arith, holds, h) in
      let same : lookup k c.items ≡ some x = subst (λ i. lookup i c.items ≡ some x) q there in
      ground (arith, same, at)

  sound_absent :
      (k : K)
      → lookup k c.items ≡ none
      → (x : ℕ) → member x c.lru_list ≡ true
      → key_of (lookup x c.held) ≢ some k
  sound_absent k new x m h =
      let (j, holds, there) = s.mapped x m in
      let q : j ≡ k = ground (arith, holds, h) in
      let same : lookup k c.items ≡ some x = subst (λ i. lookup i c.items ≡ some x) q there in
      cc (same, new)

  sound_at :
      (k : K) (el : ℕ) → lookup k c.items ≡ some el → (v : V) × (lookup el c.held ≡ some (k, v))
  sound_at k el at = key_of-some k (lookup el c.held) (s.listed k el at).1

  recent-unlink :
      (k : K) (el : ℕ)
      → lookup k c.items ≡ some el
      → entries_of (unlink el c.lru_list) c.held ≡ erase k (recent c)
  recent-unlink k el at =
      let (v, held) = sound_at k el at in
      entries_of-unlink k v el c.lru_list c.held s.distinct held (sound_only k el at)

  recent-found :
      (k : K) (v : V) (el : ℕ)
      → lookup k c.items ≡ some el
      → lookup el c.held ≡ some (k, v)
      → lookup k (recent c) ≡ some v
  recent-found k v el at held =
      lookup-entries_of k v el c.lru_list c.held held (sound_only k el at) (s.listed k el at).0

  recent-new : (k : K) → lookup k c.items ≡ none → lookup k (recent c) ≡ none
  recent-new k new = lookup-entries_of-none k c.lru_list c.held (sound_absent k new)

  -- `Get` of a key gives the value that the key has, and makes it the latest.
  pub get_refines :
      (k : K)
      → (d : Lru K V) × (lru_get k c ≡ some (d, answer k (lookup k (recent c))))
        × IsSound d
        × (recent d ≡ recent_get k (recent c))
        × (d.max_items ≡ c.max_items)
  unfolding lru_get entries_of
  get_refines k = elim (Option-cases (lookup k c.items)) [
    | inl new ↦
        let absent = recent-new k new in (miss c, rw (new, absent) refl, s, rw absent refl, refl)
    | inr (el, at) ↦
        let (there, holds) = s.listed k el at in
        let (v, held) = sound_at k el at in
        let found = recent-found k v el at held in
        (
          record (to_front el c) { hit_count = add64 c.hit_count 1 },
          rw (at, found, touch_kept c el (s.apart el there), held) refl,
          move-IsSound c el s,
          rw (found, there, held) (ap (λ l. (k, v) ∷ l) (recent-unlink k el at)),
          refl,
        )
  ]

  pub delete_refines :
      (k : K)
      → (d : Lru K V) × (lru_delete k c ≡ some d)
        × IsSound d
        × (recent d ≡ erase k (recent c))
        × (d.max_items ≡ c.max_items)
  unfolding lru_delete
  delete_refines k = elim (Option-cases (lookup k c.items)) [
    | inl new ↦ (
      c,
      ap (λ o. delete_found o k c) new,
      s,
      sym (erase_absent k (recent c) (recent-new k new)),
      refl,
    )
    | inr (el, at) ↦ (
      without el k c,
      ap (λ o. delete_found o k c) at ∙ delete_found-some c el k at s,
      unlink-IsSound c el k at s,
      recent-unlink k el at,
      refl,
    )
  ]

  recent-store_value :
      (k : K) (v : V) (el : ℕ)
      → lookup k c.items ≡ some el
      → recent (store_value el v (to_front el c)) ≡ (k, v) ∷ erase k (recent c)
  unfolding entries_of
  recent-store_value k v el at =
      let (there, holds) = s.listed k el at in
      let (old, held) = sound_at k el at in
      let gone : member el (unlink el c.lru_list) ≡ false =
        ground (arith, member-unlink el el c.lru_list s.distinct) in
      rw (there, held, lookup-insert_self el (k, v) c.held)
        (ap (λ l. (k, v) ∷ l)
          (entries_of-insert el (k, v) c.held (unlink el c.lru_list) gone ∙ recent-unlink k el at))

  recent-push_front : (k : K) (v : V) → recent (push_front k v c) ≡ (k, v) ∷ recent c
  unfolding entries_of
  recent-push_front k v = rw (lookup-insert_self c.next_element (k, v) c.held) (
      ap (λ l. (k, v) ∷ l)
        (entries_of-insert c.next_element (k, v) c.held c.lru_list
          (ground (arith, s.made c.next_element))))

module _ {ℓ κ} {K : Type ℓ} {V : Type κ} ⦃e : Key K⦄ where
  pub set_refines :
      (c : Lru K V) (s : IsSound c) (k : K) (v : V)
      → (d : Lru K V) × (lru_set k v c ≡ some d)
        × IsSound d
        × (recent d ≡ recent_set c.max_items k v (recent c))
        × (d.max_items ≡ c.max_items)
  unfolding lru_set
  set_refines c s k v = elim (Option-cases (lookup k c.items)) [
    | inl new ↦
        let r = make_room c k new s in
        (
          push_front k v r.left,
          ap (λ o. set_found o k v c) new ∙ ap (then_do (push_front k v)) r.is_left,
          push_front-IsSound r.left k v r.new r.room r.sound,
          recent-push_front r.left r.sound k v
              ∙ rw
                  (
                    recent-new c s k new,
                    length-entries_of c.lru_list c.held (sound_held c s),
                    r.same_held,
                    r.same_list,
                  )
                  (ap (λ l. (k, v) ∷ l)
                    (entries_of-drop_if (leb c.max_items (length c.lru_list)) c.lru_list c.held
                      (sound_held c s))),
          r.same_max,
        )
    | inr (el, at) ↦
        let (old, held) = sound_at c s k el at in
        (
          store_value el v (to_front el c),
          ap (λ o. set_found o k v c) at ∙ set_found-some c el k v at s,
          store_value-IsSound (to_front el c) el v (move-IsSound c el s),
          recent-store_value c s k v el at ∙ rw (recent-found c s k old el at held) refl,
          refl,
        )
  ]
