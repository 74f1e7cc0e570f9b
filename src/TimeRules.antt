-- ===== src/TimeRules.antt =====
-- Block times: blockchain/time_rules.go. `now` is the clock's `time.Now().Unix()`.
pub mod Laws
use neo_coin.Base.{
  ℕ, zero, suc, ◌+◌, ◌-◌, ◌/◌, Bool, true, false, not, ◌&&◌, ◌||◌, ltb, leb, ◌==◌, if◌then◌else◌,
  Option, none, some, List, [], ◌∷◌, map, length, get_elem?, get_or, take, drop,
}
use neo_coin.Base.Int.{ℤ, pos, negsuc, ◌+ℤ◌, ltb_ℤ, leb_ℤ, to_i64}
use neo_coin.Base.Result.{Result, ok, err, ◌>>=◌, ◌>>◌, fail_if}
use neo_coin.Types.{Error, Block, ConsensusParams}

-- `sort.Slice` in increasing order; equal timestamps cannot be told apart.
unfoldable pub insert_sorted : ℤ → List ℤ → List ℤ
insert_sorted x [] = x ∷ []
insert_sorted x (y ∷ ys) = if leb_ℤ x y then x ∷ y ∷ ys else y ∷ insert_sorted x ys

unfoldable pub sort_times : List ℤ → List ℤ
sort_times [] = []
sort_times (x ∷ xs) = insert_sorted x (sort_times xs)

-- `if window <= 0 { window = 11 }`.
unfoldable pub window_size : ℤ → ℕ
window_size (pos zero) = 11
window_size (pos (suc n)) = suc n
window_size (negsuc n) = 11

-- The timestamps of the last blocks of the window that ends at `end_idx`, in order.
unfoldable pub window_times : ConsensusParams → List Block → ℕ → List ℤ
unfolding window_size
window_times p path end_idx =
    let start = end_idx - (window_size p.median_time_past_window - 1) in
    map (λ b. b.timestamp_unix) (take (end_idx + 1 - start) (drop start path))

-- `medianTimePast`, at an index that is not negative.
unfoldable pub median_time_past : ConsensusParams → List Block → ℕ → ℤ
unfolding window_times sort_times
median_time_past p path end_idx =
    let ts = window_times p path end_idx in get_or (sort_times ts) (length ts / 2) (pos 0)

-- The checks of a block against the one before it.
unfoldable pub check_times : ConsensusParams → ℤ → ℤ → ℤ → ℤ → Result Error (Unit {0})
check_times p now prev mtp cur = do
  fail_if (leb_ℤ cur prev) Error.timestamp_not_increasing
  fail_if (leb_ℤ cur mtp) Error.timestamp_too_old
  fail_if (ltb_ℤ (pos 0) p.max_time_drift && ltb_ℤ (to_i64 (now +ℤ p.max_time_drift)) cur)
      Error.timestamp_too_far_in_future

abbrev pub check_pair :
    ConsensusParams → ℤ → ℤ → Option Block → Option Block → Result Error (Unit {0})
check_pair p now mtp (some prev) (some cur) =
    check_times p now prev.timestamp_unix mtp cur.timestamp_unix
check_pair p now mtp _ _ = ok tt

-- `validateBlockTime`.
unfoldable pub validate_block_time : ConsensusParams → ℤ → List Block → ℕ → Result Error (Unit {0})
unfolding check_times
validate_block_time p now path idx =
    if idx == 0 || leb (length path) idx
    then ok tt
    else check_pair p now (median_time_past p path (idx - 1)) (get_elem? path (idx - 1))
        (get_elem? path idx)
