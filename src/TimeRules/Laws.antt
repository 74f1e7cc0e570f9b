-- ===== src/TimeRules/Laws.antt =====
-- What a block's time must satisfy.
use neo_coin.Base.{
  ℕ, suc, zero, ◌+◌, ◌-◌, ◌/◌, ◌≤◌, ◌<◌, ◌≡◌, refl, arith, false, List, [], ◌∷◌, length, get_elem?,
  get_or, Bool-cases, inl, inr, sym, leb, ◌==◌, lt-length_of_get_elem?, ap, ◌∙◌, ◌↔◌, take, drop,
  length-map, length-take, length-drop, some,
}
use neo_coin.Base.Int.{ltb_ℤ, ℤ, pos, negsuc, ◌≤ℤ◌, ◌+ℤ◌, leb_ℤ, to_i64}
use neo_coin.Base.Result.{ok}
use neo_coin.Types.{Block, ConsensusParams}
use neo_coin.TimeRules.{
  window_size, insert_sorted, sort_times, window_times, median_time_past, check_times,
  validate_block_time,
}

check_times-parts :
    (p : ConsensusParams) (now prev mtp cur : ℤ)
    → check_times p now prev mtp cur ≡ ok tt
    → (leb_ℤ cur prev ≡ false)
      × (leb_ℤ cur mtp ≡ false)
      × (pos 1 ≤ℤ p.max_time_drift → cur ≤ℤ to_i64 (now +ℤ p.max_time_drift))
unfolding check_times
check_times-parts p now prev mtp cur e = (ground arith, ground arith, λ h. ground arith)

check_times_of_parts :
    (p : ConsensusParams) (now prev mtp cur : ℤ)
    → (leb_ℤ cur prev ≡ false)
      × (leb_ℤ cur mtp ≡ false)
      × (pos 1 ≤ℤ p.max_time_drift → cur ≤ℤ to_i64 (now +ℤ p.max_time_drift))
    → check_times p now prev mtp cur ≡ ok tt
unfolding check_times
check_times_of_parts p now prev mtp cur (later, newer, near) =
    elim (Bool-cases (ltb_ℤ (pos 0) p.max_time_drift)) [
      | inl on ↦ ground (arith, near)
      | inr off ↦ ground arith
    ]

validate_block_time-check_times :
    (p : ConsensusParams) (now : ℤ) (path : List Block) (i : ℕ) {prev cur : Block}
    → get_elem? path i ≡ some prev
    → get_elem? path (suc i) ≡ some cur
    → validate_block_time p now path (suc i)
      ≡ check_times p now prev.timestamp_unix (median_time_past p path i) cur.timestamp_unix
unfolding validate_block_time
validate_block_time-check_times p now path i before here =
    let inside : leb (length path) (suc i) ≡ false =
      ground (arith, lt-length_of_get_elem? path (suc i) here) in
    let positive : (suc i == 0) ≡ false = ground arith in
    let back : suc i - 1 ≡ i = omega arith in rw (positive, inside, back, before, here)

-- A block behind another passes the time rules exactly when its time is later than its
-- predecessor's and than the median of the window that ends there, and, where a drift is
-- configured, not later than the clock plus the drift.
pub validate_block_time_iff :
    (p : ConsensusParams) (now : ℤ) (path : List Block) (i : ℕ) {prev cur : Block}
    → get_elem? path i ≡ some prev
    → get_elem? path (suc i) ≡ some cur
    → (validate_block_time p now path (suc i) ≡ ok tt) ↔ (
        (leb_ℤ cur.timestamp_unix prev.timestamp_unix ≡ false)
        × (leb_ℤ cur.timestamp_unix (median_time_past p path i) ≡ false)
        × (pos 1 ≤ℤ p.max_time_drift → cur.timestamp_unix ≤ℤ to_i64 (now +ℤ p.max_time_drift)))
validate_block_time_iff p now path i {prev} {cur} before here =
    let step = validate_block_time-check_times p now path i before here in
    let mtp = median_time_past p path i in
    (
      λ e. check_times-parts p now prev.timestamp_unix mtp cur.timestamp_unix (sym step ∙ e),
      λ parts. step ∙ check_times_of_parts p now prev.timestamp_unix mtp cur.timestamp_unix parts,
    )

module _ {κ} (Q : ℤ → Type κ) where
  abbrev pub AllTimes : List ℤ → Type κ
  AllTimes [] = Unit
  AllTimes (x ∷ xs) = Q x × AllTimes xs

  insert_sorted-AllTimes : (x : ℤ) (ys : List ℤ) → Q x → AllTimes ys → AllTimes (insert_sorted x ys)
  unfolding insert_sorted
  insert_sorted-AllTimes x [] h k = (h, tt)
  insert_sorted-AllTimes x (y ∷ ys) h k = elim (Bool-cases (leb_ℤ x y)) [
    | inl below ↦ rw below (h, k)
    | inr above ↦ rw above (k.0, insert_sorted-AllTimes x ys h k.1)
  ]

  sort_times-AllTimes : (xs : List ℤ) → AllTimes xs → AllTimes (sort_times xs)
  unfolding sort_times
  sort_times-AllTimes [] h = tt
  sort_times-AllTimes (x ∷ xs) h =
      insert_sorted-AllTimes x (sort_times xs) h.0 (sort_times-AllTimes xs h.1)

  AllTimes-get_or : (xs : List ℤ) (i : ℕ) (d : ℤ) → AllTimes xs → i < length xs → Q (get_or xs i d)
  AllTimes-get_or [] i d h lt = elim lt [ ]
  AllTimes-get_or (x ∷ xs) zero d h lt = h.0
  AllTimes-get_or (x ∷ xs) (suc i) d h lt = AllTimes-get_or xs i d h.1 (omega arith)

length-insert_sorted : (x : ℤ) (ys : List ℤ) → length (insert_sorted x ys) ≡ suc (length ys)
unfolding insert_sorted
length-insert_sorted x [] = refl
length-insert_sorted x (y ∷ ys) = ground (arith, length-insert_sorted x ys)

length-sort_times : (xs : List ℤ) → length (sort_times xs) ≡ length xs
unfolding sort_times
length-sort_times [] = refl
length-sort_times (x ∷ xs) = length-insert_sorted x (sort_times xs) ∙ ap suc (length-sort_times xs)

window_size_pos : (w : ℤ) → 1 ≤ window_size w
unfolding window_size
window_size_pos (pos zero) = omega arith
window_size_pos (pos (suc n)) = omega arith
window_size_pos (negsuc n) = omega arith

length-window_times :
    (p : ConsensusParams) (path : List Block) (i : ℕ)
    → i < length path
    → 0 < length (window_times p path i)
unfolding window_times
length-window_times p path i lt =
    let start = i - (window_size p.median_time_past_window - 1) in
    omega (
      arith,
      window_size_pos p.median_time_past_window,
      length-map (take (i + 1 - start) (drop start path)) (λ (b : Block). b.timestamp_unix),
      length-take (i + 1 - start) (drop start path),
      length-drop start path,
    )

-- The median of a window that ends at a block of the path satisfies whatever all the timestamps of
-- the window satisfy: so it lies within every bound on them.
pub median_time_past-AllTimes {κ} :
    (Q : ℤ → Type κ) (p : ConsensusParams) (path : List Block) (i : ℕ)
    → i < length path
    → AllTimes Q (window_times p path i)
    → Q (median_time_past p path i)
unfolding median_time_past
median_time_past-AllTimes Q p path i lt all =
    AllTimes-get_or Q (sort_times (window_times p path i)) (length (window_times p path i) / 2)
      (pos 0) (sort_times-AllTimes Q (window_times p path i) all)
      (omega (arith, length-sort_times (window_times p path i), length-window_times p path i lt))
