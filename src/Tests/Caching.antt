-- ===== src/Tests/Caching.antt =====
-- A cache of two entries.
use neo_coin.Base.{ℕ, ◌≡◌, refl, none, some, List, [], ◌∷◌, length, ◌≤◌}
use neo_coin.Base.Int.{pos}
use neo_coin.Base.Words.{add64}
use neo_coin.Base.Dict.{ℕ_key, lookup, insert, erase}
use neo_coin.Cache.{
  Lru, Shared, Reach, here, next, sets, deletes, finds, touches, new_lru, member, unlink,
  evict_oldest, lru_set, lru_delete, clear, touch, log_all,
}
use neo_coin.Cache.Sound.{IsSound}
use neo_coin.Cache.Steps.{Reach-IsSound}
use neo_coin.Cache.Recent.{recent}
use neo_coin.Cache.Lists.{drop_last}
use neo_coin.Cache.Calls.{Call, put, read, perform_all, recent_all, lru_refines}

-- The third key drops the second, since the first was read after it.
abbrev calls : List (Call ℕ ℕ)
calls = put 1 10 ∷ put 2 20 ∷ read 1 ∷ put 3 30 ∷ read 2 ∷ read 1 ∷ []

recent_calls :
    recent_all 2 calls []
    ≡ ((1, 10) ∷ (3, 30) ∷ [], none ∷ none ∷ some (1, 10) ∷ none ∷ none ∷ some (1, 10) ∷ [])
unfolding recent_all lookup erase drop_last
recent_calls = refl

lru_refines_example :
    (d : Lru ℕ ℕ) × (perform_all calls (new_lru (pos 2)) ≡ some (d, (recent_all 2 calls []).1))
    × (recent d ≡ (recent_all 2 calls []).0)
    × (length d.lru_list ≤ 2)
lru_refines_example = lru_refines (pos 2) calls

abbrev start : Shared ℕ ℕ
start = record { cache = new_lru (pos 2); found = [] }

abbrev one_key : Lru ℕ ℕ
one_key = record {
  max_items = 2;
  items = (1, 0) ∷ [];
  lru_list = 0 ∷ [];
  held = (0, (1, 10)) ∷ [];
  next_element = 1;
  dropped = [];
  hit_count = 0;
  miss_count = 0;
  evicted = [];
}

abbrev no_key : Lru ℕ ℕ
no_key = record one_key { items = []; lru_list = [] }

abbrev last : Shared ℕ ℕ
last = record { cache = record no_key { hit_count = 1 }; found = [] }

-- One call finds an element, another deletes its key, and the first then moves the element.
late_touch : Reach start last
unfolding new_lru lru_set evict_oldest lookup insert erase lru_delete touch member unlink add64
late_touch =
    next
      (next
        (next (next here (sets start 1 10 one_key refl))
          (finds (record { cache = one_key; found = [] }) 1 0 refl))
        (deletes (record { cache = one_key; found = 0 ∷ [] }) 1 no_key refl))
      (touches (record { cache = no_key; found = 0 ∷ [] }) 0 (record no_key { hit_count = 1 }) refl
        refl)

Reach-IsSound_example :
    IsSound last.cache
    × ((k : ℕ) (v : ℕ) → (d : Lru ℕ ℕ) × (lru_set k v last.cache ≡ some d) × IsSound d)
    × ((k : ℕ) → (d : Lru ℕ ℕ) × (lru_delete k last.cache ≡ some d) × IsSound d)
Reach-IsSound_example = Reach-IsSound (pos 2) last late_touch

-- Where `Clear` comes in between, the element that is moved is one that the list has dropped.
touch_after_clear : touch 0 (clear one_key) ≡ none
unfolding touch clear member log_all lookup
touch_after_clear = refl
