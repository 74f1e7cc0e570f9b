-- ===== src/Cache.antt =====
-- internal/cache/lru.go: a bounded map that drops the key that was used longest ago. A list element
-- is a number, and its entry stays readable after the element has left the list. `Get` finds its
-- element under one lock and moves it under another, so that calls of other goroutines come in
-- between.
pub mod Lists
pub mod Sound
pub mod Steps
pub mod Recent
pub mod Refines
pub mod Calls
use neo_coin.Base.{
  ℕ, suc, ◌+◌, Bool, true, false, ◌||◌, leb, ◌==◌, if◌then◌else◌, Option, none, some, List, [], ◌∷◌,
  ◌++◌, length, ◌≡◌,
}
use neo_coin.Base.Int.{ℤ, pos, negsuc}
use neo_coin.Base.Dict.{Key, Dict, ℕ_key, lookup, insert, erase}
use neo_coin.Base.Words.{add64}

pub record Lru {ℓ κ} (K : Type ℓ) (V : Type κ) : Type (ℓ ⊔ κ) where
  pub max_items : ℕ
  pub items : Dict K ℕ
  -- The elements of the list, the front first.
  pub lru_list : List ℕ
  -- What each element holds.
  pub held : Dict ℕ (K × V)
  pub next_element : ℕ
  -- The elements that `Clear` has dropped, which still name the list as theirs.
  pub dropped : List ℕ
  pub hit_count : ℕ
  pub miss_count : ℕ
  -- What `onEvict` was called with, the latest first.
  pub evicted : List (K × V)

-- `NewLRU`.
unfoldable pub new_lru {ℓ κ} : {K : Type ℓ} {V : Type κ} → ℤ → Lru K V
new_lru (pos n) = record {
  max_items = if n == 0 then 1024 else n;
  items = [];
  lru_list = [];
  held = [];
  next_element = 0;
  dropped = [];
  hit_count = 0;
  miss_count = 0;
  evicted = [];
}
new_lru (negsuc n) = record {
  max_items = 1024;
  items = [];
  lru_list = [];
  held = [];
  next_element = 0;
  dropped = [];
  hit_count = 0;
  miss_count = 0;
  evicted = [];
}

unfoldable pub member : ℕ → List ℕ → Bool
member el [] = false
member el (x ∷ xs) = x == el || member el xs

unfoldable pub unlink : ℕ → List ℕ → List ℕ
unlink el [] = []
unlink el (x ∷ xs) = let rest = unlink el xs in if x == el then xs else x ∷ rest

unfoldable pub back : List ℕ → Option ℕ
back [] = none
back (x ∷ []) = some x
back (x ∷ y ∷ ys) = back (y ∷ ys)

-- The list's `MoveToFront`: nothing for an element that was removed. `none` stands for an element
-- that `Clear` dropped, which is linked into the list that no longer counts it.
abbrev pub move_to_front : ℕ → List ℕ → List ℕ → Option (List ℕ)
move_to_front el dropped list =
    if member el dropped then none else some (if member el list then el ∷ unlink el list else list)

-- The list's `Remove`.
abbrev pub remove_element : ℕ → List ℕ → List ℕ → Option (List ℕ)
remove_element el dropped list = if member el dropped then none else some (unlink el list)

module _ {ℓ κ} {K : Type ℓ} {V : Type κ} where
  abbrev pub relist : Lru K V → Option (List ℕ) → Option (Lru K V)
  relist c none = none
  relist c (some list) = some (record c { lru_list = list })

  abbrev pub then_do : (Lru K V → Lru K V) → Option (Lru K V) → Option (Lru K V)
  then_do f none = none
  then_do f (some c) = some (f c)

module _ {ℓ κ} {K : Type ℓ} {V : Type κ} ⦃e : Key K⦄ where
  -- `delete(c.items, e.key)` and the call of `onEvict`.
  abbrev pub forget : Option (K × V) → Lru K V → Lru K V
  forget none c = c
  forget (some (k, v)) c = record c { items = erase k c.items; evicted = (k, v) ∷ c.evicted }

  abbrev pub evict_element : Option ℕ → Lru K V → Option (Lru K V)
  evict_element none c = some c
  evict_element (some el) c =
      then_do (forget (lookup el c.held)) (relist c (remove_element el c.dropped c.lru_list))

  -- `evictOldest`.
  unfoldable pub evict_oldest : Lru K V → Option (Lru K V)
  unfolding back
  evict_oldest c = evict_element (back c.lru_list) c

  -- `PushFront` with a new element, and its entry in the map.
  abbrev pub push_front : K → V → Lru K V → Lru K V
  push_front k v c = record c {
    items = insert k c.next_element c.items;
    lru_list = c.next_element ∷ c.lru_list;
    held = insert c.next_element (k, v) c.held;
    next_element = suc c.next_element;
  }

  abbrev pub rewrite_held : ℕ → V → Option (K × V) → Dict ℕ (K × V) → Dict ℕ (K × V)
  rewrite_held el v none held = held
  rewrite_held el v (some (k, old)) held = insert el (k, v) held

  -- `el.Value.(*entry[K, V]).val = val`.
  abbrev pub store_value : ℕ → V → Lru K V → Lru K V
  store_value el v c = record c { held = rewrite_held el v (lookup el c.held) c.held }

  abbrev pub set_found : Option ℕ → K → V → Lru K V → Option (Lru K V)
  set_found (some el) k v c =
      then_do (store_value el v) (relist c (move_to_front el c.dropped c.lru_list))
  set_found none k v c =
      then_do (push_front k v)
        (if leb c.max_items (length c.lru_list) then evict_oldest c else some c)

  -- `Set`.
  unfoldable pub lru_set : K → V → Lru K V → Option (Lru K V)
  unfolding evict_oldest
  lru_set k v c = set_found (lookup k c.items) k v c

  abbrev pub delete_found : Option ℕ → K → Lru K V → Option (Lru K V)
  delete_found none k c = some c
  delete_found (some el) k c =
      then_do (λ d. record d { items = erase k d.items })
        (relist c (remove_element el c.dropped c.lru_list))

  -- `Delete`.
  unfoldable pub lru_delete : K → Lru K V → Option (Lru K V)
  lru_delete k c = delete_found (lookup k c.items) k c

module _ {ℓ κ} {K : Type ℓ} {V : Type κ} where
  abbrev pub log_one : Option (K × V) → List (K × V) → List (K × V)
  log_one none log = log
  log_one (some kv) log = kv ∷ log

  unfoldable pub log_all : List ℕ → Dict ℕ (K × V) → List (K × V) → List (K × V)
  log_all [] held log = log
  log_all (el ∷ els) held log = log_all els held (log_one (lookup el held) log)

  -- `Clear`.
  unfoldable pub clear : Lru K V → Lru K V
  unfolding log_all
  clear c = record c {
    items = [];
    lru_list = [];
    dropped = c.lru_list ++ c.dropped;
    evicted = log_all c.lru_list c.held c.evicted;
  }

  -- The second half of `Get`: the element is moved, and the hit is counted.
  unfoldable pub touch : ℕ → Lru K V → Option (Lru K V)
  touch el c =
      then_do (λ d. record d { hit_count = add64 d.hit_count 1 })
        (relist c (move_to_front el c.dropped c.lru_list))

  -- `Get` of a key that is not there.
  abbrev pub miss : Lru K V → Lru K V
  miss c = record c { miss_count = add64 c.miss_count 1 }

module _ {ℓ κ} {K : Type ℓ} {V : Type κ} ⦃e : Key K⦄ where
  abbrev pub read_after : Option (Lru K V) → ℕ → Option (Lru K V × Option (K × V))
  read_after none el = none
  read_after (some c) el = some (c, lookup el c.held)

  abbrev pub get_found : Option ℕ → Lru K V → Option (Lru K V × Option (K × V))
  get_found none c = some (miss c, none)
  get_found (some el) c = read_after (touch el c) el

  -- `Get` without calls in between, with the entry whose value it returns.
  unfoldable pub lru_get : K → Lru K V → Option (Lru K V × Option (K × V))
  unfolding touch
  lru_get k c = get_found (lookup k c.items) c

-- The cache with the elements that calls of `Get` have found and not moved yet.
pub record Shared {ℓ κ} (K : Type ℓ) (V : Type κ) : Type (ℓ ⊔ κ) where
  pub cache : Lru K V
  pub found : List ℕ

module _ {ℓ κ} {K : Type ℓ} {V : Type κ} ⦃e : Key K⦄ where
  -- The critical sections, one at a time in any order.
  pub data LruStep : Shared K V → Shared K V → Type (ℓ ⊔ κ) where
    sets :
        (s : Shared K V) (k : K) (v : V) (c : Lru K V)
        → lru_set k v s.cache ≡ some c
        → LruStep s (record s { cache = c })
    deletes :
        (s : Shared K V) (k : K) (c : Lru K V)
        → lru_delete k s.cache ≡ some c
        → LruStep s (record s { cache = c })
    clears : (s : Shared K V) → LruStep s (record s { cache = clear s.cache })
    misses :
        (s : Shared K V) (k : K)
        → lookup k s.cache.items ≡ none
        → LruStep s (record s { cache = miss s.cache })
    finds :
        (s : Shared K V) (k : K) (el : ℕ)
        → lookup k s.cache.items ≡ some el
        → LruStep s (record s { found = el ∷ s.found })
    touches :
        (s : Shared K V) (el : ℕ) (c : Lru K V)
        → member el s.found ≡ true
        → touch el s.cache ≡ some c
        → LruStep s (record { cache = c; found = unlink el s.found })

  pub data Reach (s : Shared K V) : Shared K V → Type (ℓ ⊔ κ) where
    here : Reach s s
    next : {t u : Shared K V} → Reach s t → LruStep t u → Reach s u
