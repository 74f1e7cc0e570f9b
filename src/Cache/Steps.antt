-- ===== src/Cache/Steps.antt =====
-- internal/cache/lru.go: each critical section keeps the map and the list in agreement, in every
-- order of the sections.
use neo_coin.Base.{
  ℕ, ◌<◌, ◌≡◌, refl, ap, sym, ◌∙◌, true, false, leb, ◌==◌, if◌then◌else◌, Option, none, some, [],
  ◌∷◌, length, arith, Bool-cases, Option-cases, inl, inr,
}
use mathlib.Core.Path.{subst}
use neo_coin.Base.Int.{ℤ, pos, negsuc}
use neo_coin.Base.Dict.{Key, ℕ_key, lookup, erase, lookup-erase}
use neo_coin.Base.Words.{add64}
use neo_coin.Cache.{
  Lru, Shared, LruStep, Reach, here, next, sets, deletes, clears, misses, finds, touches, new_lru,
  member, unlink, back, then_do, evict_oldest, push_front, store_value, set_found, lru_set,
  delete_found, lru_delete, touch,
}
use neo_coin.Cache.Lists.{length-unlink, back-member, back-some, drop_last, unlink-back}
use neo_coin.Cache.Sound.{
  Agrees, IsSound, move-IsSound, unlink-IsSound, push_front-IsSound, store_value-IsSound,
  clear-IsSound,
}

module _ {ℓ κ} {K : Type ℓ} {V : Type κ} where
  abbrev pub to_front : ℕ → Lru K V → Lru K V
  to_front el c = record c {
    lru_list = if member el c.lru_list then el ∷ unlink el c.lru_list else c.lru_list;
  }

  abbrev pub IfDone {μ} : (Lru K V → Type μ) → Option (Lru K V) → Type μ
  IfDone Q none = Unit
  IfDone Q (some c) = Q c

module _ {ℓ κ} {K : Type ℓ} {V : Type κ} ⦃e : Key K⦄ where
  abbrev pub without : ℕ → K → Lru K V → Lru K V
  without el k c = record c { lru_list = unlink el c.lru_list; items = erase k c.items }

  pub set_found-some :
      (c : Lru K V) (el : ℕ) (k : K) (v : V)
      → lookup k c.items ≡ some el
      → IsSound c
      → set_found (some el) k v c ≡ some (store_value el v (to_front el c))
  set_found-some c el k v at s = rw (s.apart el (s.listed k el at).0) refl

  pub delete_found-some :
      (c : Lru K V) (el : ℕ) (k : K)
      → lookup k c.items ≡ some el
      → IsSound c
      → delete_found (some el) k c ≡ some (without el k c)
  delete_found-some c el k at s = rw (s.apart el (s.listed k el at).0) refl

  -- The oldest entry is evicted, with its key.
  pub evict_oldest-some :
      (c : Lru K V) (el : ℕ)
      → back c.lru_list ≡ some el
      → IsSound c
      → (k : K) × (v : V) × (lookup el c.held ≡ some (k, v))
        × (lookup k c.items ≡ some el)
        × (evict_oldest c ≡ some (record (without el k c) { evicted = (k, v) ∷ c.evicted }))
  unfolding evict_oldest
  evict_oldest-some c el last s =
      let there = back-member c.lru_list el last in
      let (k, holds, at) = s.mapped el there in
      elim (Option-cases (lookup el c.held)) [
        | inl a ↦ absurd (cc (holds, a))
        | inr ((j, v), a) ↦
            let same : j ≡ k = ground (arith, holds, a) in
            (
              j,
              v,
              a,
              subst (λ i. lookup i c.items ≡ some el) (sym same) at,
              rw (last, s.apart el there, a) refl,
            )
      ]

  -- Room for a new key.
  pub record HasRoom (k : K) (c : Lru K V) (o : Option (Lru K V)) : Type (ℓ ⊔ κ) where
    pub left : Lru K V
    pub is_left : o ≡ some left
    pub sound : IsSound left
    pub new : lookup k left.items ≡ none
    pub room : length left.lru_list < left.max_items
    pub same_held : left.held ≡ c.held
    pub same_max : left.max_items ≡ c.max_items
    pub same_list :
        left.lru_list
        ≡ (if leb c.max_items (length c.lru_list) then drop_last c.lru_list else c.lru_list)

  pub make_room :
      (c : Lru K V) (k : K)
      → lookup k c.items ≡ none
      → IsSound c
      → HasRoom k c (if leb c.max_items (length c.lru_list) then evict_oldest c else some c)
  make_room c k new s = elim (Bool-cases (leb c.max_items (length c.lru_list))) [
    | inl full ↦
        let (el, last) = back-some c.lru_list (ground (arith, full, s.positive)) in
        let (j, v, held, at, done) = evict_oldest-some c el last s in
        rw full (record {
          left = record (without el j c) { evicted = (j, v) ∷ c.evicted };
          is_left = done;
          sound = unlink-IsSound c el j at s;
          new = ground (arith, new, lookup-erase j k c.items);
          room =
              omega (
                arith,
                s.bounded,
                (length-unlink el c.lru_list).1 (back-member c.lru_list el last),
              );
          same_held = refl;
          same_max = refl;
          same_list = rw full (unlink-back el c.lru_list s.distinct last);
        })
    | inr room ↦ rw room (record {
      left = c;
      is_left = refl;
      sound = s;
      new = new;
      room = ground (arith, room);
      same_held = refl;
      same_max = refl;
      same_list = rw room refl;
    })
  ]

  -- `Set` never meets a dropped element.
  pub set_total :
      (c : Lru K V) (k : K) (v : V)
      → IsSound c
      → (d : Lru K V) × (lru_set k v c ≡ some d) × IsSound d
  unfolding lru_set
  set_total c k v s = elim (Option-cases (lookup k c.items)) [
    | inl new ↦
        let r = make_room c k new s in
        (
          push_front k v r.left,
          ap (λ o. set_found o k v c) new ∙ ap (then_do (push_front k v)) r.is_left,
          push_front-IsSound r.left k v r.new r.room r.sound,
        )
    | inr (el, at) ↦ (
      store_value el v (to_front el c),
      ap (λ o. set_found o k v c) at ∙ set_found-some c el k v at s,
      store_value-IsSound (to_front el c) el v (move-IsSound c el s),
    )
  ]

  pub delete_total :
      (c : Lru K V) (k : K) → IsSound c → (d : Lru K V) × (lru_delete k c ≡ some d) × IsSound d
  unfolding lru_delete
  delete_total c k s = elim (Option-cases (lookup k c.items)) [
    | inl new ↦ (c, ap (λ o. delete_found o k c) new, s)
    | inr (el, at) ↦ (
      without el k c,
      ap (λ o. delete_found o k c) at ∙ delete_found-some c el k at s,
      unlink-IsSound c el k at s,
    )
  ]

  pub touch_kept :
      (c : Lru K V) (el : ℕ)
      → member el c.dropped ≡ false
      → touch el c ≡ some (record (to_front el c) { hit_count = add64 c.hit_count 1 })
  unfolding touch
  touch_kept c el kept = rw kept refl

  touch_dropped : (c : Lru K V) (el : ℕ) → member el c.dropped ≡ true → touch el c ≡ none
  unfolding touch
  touch_dropped c el gone = rw gone refl

  touch-IsSound : (c d : Lru K V) (el : ℕ) → touch el c ≡ some d → IsSound c → IsSound d
  touch-IsSound c d el done s = elim (Bool-cases (member el c.dropped)) [
    | inl gone ↦ absurd (cc (done, touch_dropped c el gone))
    | inr kept ↦ subst (IfDone IsSound) (sym (touch_kept c el kept) ∙ done) (move-IsSound c el s)
  ]

  LruStep-IsSound : {s t : Shared K V} → LruStep s t → IsSound s.cache → IsSound t.cache
  LruStep-IsSound (sets s k v c done) x =
      let (d, is_d, y) = set_total s.cache k v x in subst (IfDone IsSound) (sym is_d ∙ done) y
  LruStep-IsSound (deletes s k c done) x =
      let (d, is_d, y) = delete_total s.cache k x in subst (IfDone IsSound) (sym is_d ∙ done) y
  LruStep-IsSound (clears s) x = clear-IsSound s.cache x
  LruStep-IsSound (misses s k new) x = x
  LruStep-IsSound (finds s k el at) x = x
  LruStep-IsSound (touches s el c f done) x = touch-IsSound s.cache c el done x

  Reach-IsSound_from : {s t : Shared K V} → Reach s t → IsSound s.cache → IsSound t.cache
  Reach-IsSound_from here x = x
  Reach-IsSound_from (next r step) x = LruStep-IsSound step (Reach-IsSound_from r x)

  empty-Agrees : (max_items : ℕ) → 0 < max_items → Agrees {K = K} {V = V} max_items [] [] [] 0 []
  unfolding lookup member
  empty-Agrees max_items h = record {
    positive = h;
    bounded = omega arith;
    distinct = tt;
    listed = λ k el a. absurd (cc a);
    mapped = λ el a. absurd (cc a);
    made = λ el a. absurd (cc a);
    made_dropped = λ el a. absurd (cc a);
    apart = λ el a. absurd (cc a);
  }

  pub new_lru-IsSound : (n : ℤ) → IsSound (new_lru {K = K} {V = V} n)
  unfolding new_lru
  new_lru-IsSound (pos n) = empty-Agrees (if n == 0 then 1024 else n) (ground arith)
  new_lru-IsSound (negsuc n) = empty-Agrees 1024 (omega arith)

  -- Whatever the calls of the goroutines and the order of their critical sections, `Clear`
  -- included, while no found element is moved after `Clear` has dropped it: the list holds the
  -- elements of the map, each once, and they are at most `maxItems`; and a `Set` or `Delete` never
  -- meets a dropped element.
  pub Reach-IsSound :
      (n : ℤ) (s : Shared K V)
      → Reach (record { cache = new_lru n; found = [] }) s
      → IsSound s.cache
        × ((k : K) (v : V) → (d : Lru K V) × (lru_set k v s.cache ≡ some d) × IsSound d)
        × ((k : K) → (d : Lru K V) × (lru_delete k s.cache ≡ some d) × IsSound d)
  Reach-IsSound n s r =
      let x = Reach-IsSound_from r (new_lru-IsSound n) in
      (x, λ k v. set_total s.cache k v x, λ k. delete_total s.cache k x)
