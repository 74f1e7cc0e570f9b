-- ===== src/Cache/Sound.antt =====
-- internal/cache/lru.go: the map and the list name the same elements, within the bound.
use neo_coin.Base.{
  ℕ, ◌<◌, ◌≤◌, ◌≡◌, refl, sym, ◌∙◌, true, false, ◌==◌, if◌then◌else◌, Option, none, some, List, ◌∷◌,
  length, arith, Bool-cases, Option-cases, inl, inr,
}
use neo_coin.Base.Dict.{
  Key, Dict, ℕ_key, lookup, erase, lookup-insert, lookup-erase, lookup-insert_self,
}
use neo_coin.Cache.{Lru, member, unlink, push_front, rewrite_held, store_value, clear}
use neo_coin.Cache.Lists.{Distinct, member-unlink, unlink-Distinct, length-unlink, member-append}

abbrev pub key_of {ℓ κ} : {K : Type ℓ} {V : Type κ} → Option (K × V) → Option K
key_of none = none
key_of (some (k, v)) = some k

module _ {ℓ κ} {K : Type ℓ} {V : Type κ} ⦃e : Key K⦄ where
  -- The list holds the elements of the map, each once and within the bound.
  pub record Agrees (max_items : ℕ) (items : Dict K ℕ) (list : List ℕ) (held : Dict ℕ (K × V))
      (next_element : ℕ) (dropped : List ℕ) : Type (ℓ ⊔ κ) where
    pub positive : 0 < max_items
    pub bounded : length list ≤ max_items
    pub distinct : Distinct list
    pub listed :
        (k : K) (el : ℕ)
        → lookup k items ≡ some el
        → (member el list ≡ true) × (key_of (lookup el held) ≡ some k)
    pub mapped :
        (el : ℕ)
        → member el list ≡ true
        → (k : K) × (key_of (lookup el held) ≡ some k) × (lookup k items ≡ some el)
    pub made : (el : ℕ) → member el list ≡ true → el < next_element
    pub made_dropped : (el : ℕ) → member el dropped ≡ true → el < next_element
    pub apart : (el : ℕ) → member el list ≡ true → member el dropped ≡ false

  abbrev pub IsSound : Lru K V → Type (ℓ ⊔ κ)
  IsSound c = Agrees c.max_items c.items c.lru_list c.held c.next_element c.dropped

  relist-Agrees :
      (c : Lru K V) (list : List ℕ)
      → ((x : ℕ) → member x list ≡ member x c.lru_list)
      → length list ≤ length c.lru_list
      → Distinct list
      → IsSound c
      → IsSound (record c { lru_list = list })
  relist-Agrees c list same shorter d s = record {
    positive = s.positive;
    bounded = omega (arith, s.bounded);
    distinct = d;
    listed = λ k el h. (same el ∙ (s.listed k el h).0, (s.listed k el h).1);
    mapped = λ el h. s.mapped el (sym (same el) ∙ h);
    made = λ el h. s.made el (sym (same el) ∙ h);
    made_dropped = s.made_dropped;
    apart = λ el h. s.apart el (sym (same el) ∙ h);
  }

  -- An element that the map or the list still has is moved without a change of the members.
  pub move-IsSound :
      (c : Lru K V) (el : ℕ)
      → IsSound c
      → IsSound (record c {
        lru_list = if member el c.lru_list then el ∷ unlink el c.lru_list else c.lru_list;
      })
  unfolding member
  move-IsSound c el s = elim (Bool-cases (member el c.lru_list)) [
    | inl there ↦ rw there (
        relist-Agrees c (el ∷ unlink el c.lru_list)
          (λ x. ground (arith, member-unlink el x c.lru_list s.distinct))
          (omega (arith, (length-unlink el c.lru_list).1 there))
          (
            ground (arith, member-unlink el el c.lru_list s.distinct),
            unlink-Distinct el c.lru_list s.distinct,
          )
          s)
    | inr gone ↦ rw gone s
  ]

  -- The element of a key leaves the list and the map.
  pub unlink-IsSound :
      (c : Lru K V) (el : ℕ) (k : K)
      → lookup k c.items ≡ some el
      → IsSound c
      → IsSound (record c { lru_list = unlink el c.lru_list; items = erase k c.items })
  unlink-IsSound c el k at s = record {
    positive = s.positive;
    bounded = omega (arith, (length-unlink el c.lru_list).0, s.bounded);
    distinct = unlink-Distinct el c.lru_list s.distinct;
    listed = λ j x h. elim (Bool-cases (e.same k j)) [
      | inl same ↦ absurd (cc (sym h, lookup-erase k j c.items, same))
      | inr other ↦ ground (
        arith,
        lookup-erase k j c.items,
        s.listed j x,
        s.listed k el at,
        e.same_iff k j,
        member-unlink el x c.lru_list s.distinct,
      )
    ];
    mapped = λ x h.
        let (j, holds, there) =
          s.mapped x (ground (arith, member-unlink el x c.lru_list s.distinct)) in
        (
          j,
          holds,
          ground (
            arith,
            there,
            at,
            lookup-erase k j c.items,
            e.same_iff k j,
            member-unlink el x c.lru_list s.distinct,
          ),
        );
    made = λ x h. s.made x (ground (arith, member-unlink el x c.lru_list s.distinct));
    made_dropped = s.made_dropped;
    apart = λ x h. s.apart x (ground (arith, member-unlink el x c.lru_list s.distinct));
  }

  pub push_front-IsSound :
      (c : Lru K V) (k : K) (v : V)
      → lookup k c.items ≡ none
      → length c.lru_list < c.max_items
      → IsSound c
      → IsSound (push_front k v c)
  unfolding member
  push_front-IsSound c k v new room s = record {
    positive = s.positive;
    bounded = omega arith;
    distinct = (ground (arith, s.made c.next_element), s.distinct);
    listed = λ j x h. ground (
      arith,
      h,
      lookup-insert k j c.next_element c.items,
      lookup-insert c.next_element x (k, v) c.held,
      s.listed j x,
      s.made x,
      e.same_iff k j,
    );
    mapped = λ x h. elim (Bool-cases (c.next_element == x)) [
      | inl same ↦ (
        k,
        ground (arith, lookup-insert c.next_element x (k, v) c.held),
        ground (arith, lookup-insert_self k c.next_element c.items),
      )
      | inr other ↦
          let (j, holds, there) = s.mapped x (ground arith) in
          (
            j,
            ground (arith, holds, lookup-insert c.next_element x (k, v) c.held),
            ground (arith, there, new, lookup-insert k j c.next_element c.items, e.same_iff k j),
          )
    ];
    made = λ x h. ground (arith, s.made x);
    made_dropped = λ x h. ground (arith, s.made_dropped x h);
    apart = λ x h. ground (arith, s.apart x, s.made_dropped x);
  }

  key_of-rewrite_held :
      (el x : ℕ) (v : V) (held : Dict ℕ (K × V))
      → key_of (lookup x (rewrite_held el v (lookup el held) held)) ≡ key_of (lookup x held)
  key_of-rewrite_held el x v held = elim (Option-cases (lookup el held)) [
    | inl a ↦ rw a refl
    | inr ((k, old), a) ↦ rw a (ground (arith, a, lookup-insert el x (k, v) held))
  ]

  pub store_value-IsSound :
      (c : Lru K V) (el : ℕ) (v : V) → IsSound c → IsSound (store_value el v c)
  store_value-IsSound c el v s = record {
    positive = s.positive;
    bounded = s.bounded;
    distinct = s.distinct;
    listed = λ j x h. ((s.listed j x h).0, key_of-rewrite_held el x v c.held ∙ (s.listed j x h).1);
    mapped = λ x h.
        let (j, holds, there) = s.mapped x h in
        (j, key_of-rewrite_held el x v c.held ∙ holds, there);
    made = s.made;
    made_dropped = s.made_dropped;
    apart = s.apart;
  }

  pub clear-IsSound : (c : Lru K V) → IsSound c → IsSound (clear c)
  unfolding clear member lookup
  clear-IsSound c s = record {
    positive = s.positive;
    bounded = omega arith;
    distinct = tt;
    listed = λ j x h. absurd (cc h);
    mapped = λ x h. absurd (cc h);
    made = λ x h. absurd (cc h);
    made_dropped =
        λ x h. ground (arith, member-append x c.lru_list c.dropped, s.made x, s.made_dropped x);
    apart = λ x h. absurd (cc h);
  }
