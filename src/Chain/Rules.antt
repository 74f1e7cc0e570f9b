-- ===== src/Chain/Rules.antt =====
-- The rules that hold between each two neighbours of a validated chain, times and difficulty
-- included.
use mathlib.Core.List.{reverse}
use neo_coin.Base.{
  ℕ, zero, suc, ◌+◌, ◌≡◌, ◌≢◌, ap, sym, ◌∙◌, arith, true, false, Option, none, some, List, [], ◌∷◌,
  length, get_elem?,
}
use neo_coin.Base.Int.{ℤ, pos, ◌+ℤ◌, ◌≤ℤ◌, leb_ℤ, to_i64}
use neo_coin.Base.Bytes.{Bytes, bytes_eq_iff, hex_encode}
use neo_coin.Base.Dict.{Dict}
use neo_coin.Base.Result.{ok}
use neo_coin.Types.{Block, ConsensusParams}
use neo_coin.Platform.{Platform}
use neo_coin.Difficulty.{expected_difficulty_bits}
use neo_coin.TimeRules.{validate_block_time, median_time_past}
use neo_coin.TimeRules.Laws.{validate_block_time_iff}
use neo_coin.Header.{block_version_for_height}
use neo_coin.Ledger.{State}
use neo_coin.Chain.Walk.{ancestors}
use neo_coin.Chain.Path.{check_bits, check_link, validate_from, compute_canonical}
use neo_coin.Chain.PathLaws.{validate_from-cons, validate_walk-parts, validate_path-valid}

-- Block `k + 1` of the path, `cur`, behind block `k`, `prev`.
pub record IsLawful (p : ConsensusParams) (now : ℤ) (path : List Block) (k : ℕ) (prev cur : Block)
    : Type 0 where
  pub next_height : cur.height ≡ prev.height + 1
  pub linked : hex_encode cur.prev_hash ≡ hex_encode prev.hash
  pub version : cur.version ≡ block_version_for_height p cur.height
  pub later : leb_ℤ cur.timestamp_unix prev.timestamp_unix ≡ false
  pub after_median : leb_ℤ cur.timestamp_unix (median_time_past p path k) ≡ false
  pub within_drift :
      pos 1 ≤ℤ p.max_time_drift → cur.timestamp_unix ≤ℤ to_i64 (now +ℤ p.max_time_drift)
  pub bits :
      p.difficulty_enable ≡ true
      → (expected_difficulty_bits p path (suc k) ≡ some cur.difficulty_bits)
        × (cur.difficulty_bits ≢ 0)

bits_expected :
    (b : Block) (o : Option ℕ)
    → check_bits b o ≡ ok tt
    → (o ≡ some b.difficulty_bits) × (b.difficulty_bits ≢ 0)
bits_expected b none h = cc
bits_expected b (some e) h = ground arith

check_link-IsLawful :
    (p : ConsensusParams) (now : ℤ) (path : List Block) (k : ℕ) (prev cur : Block)
    → get_elem? path k ≡ some prev
    → get_elem? path (suc k) ≡ some cur
    → check_link p now path (suc k) prev cur ≡ ok tt
    → IsLawful p now path k prev cur
unfolding check_link
check_link-IsLawful p now path k prev cur before here h =
    let timely : validate_block_time p now path (suc k) ≡ ok tt = ground arith in
    let (later, median, drift) = (validate_block_time_iff p now path k before here).0 timely in
    record {
      next_height = ground arith;
      linked = (bytes_eq_iff (hex_encode cur.prev_hash) (hex_encode prev.hash)).0 (ground arith);
      version = ground arith;
      later = later;
      after_median = median;
      within_drift = drift;
      bits = λ enabled. bits_expected cur (expected_difficulty_bits p path (suc k)) (ground arith);
    }

module _ (P : Platform) (p : ConsensusParams) (now : ℤ) (path : List Block) where
  -- Each block of a validated part was tested behind its predecessor, at its place in the path.
  neighbours_tested :
      (bs : List Block) (k i : ℕ) (first : Option Block) (s : State) (work : ℕ) {r : State × ℕ}
      {prev cur : Block}
      → get_elem? bs k ≡ some prev
      → get_elem? bs (suc k) ≡ some cur
      → validate_from P p now path i first bs s work ≡ ok r
      → check_link p now path (i + suc k) prev cur ≡ ok tt
  neighbours_tested [] k i first s work a b h = cc
  neighbours_tested (x ∷ []) zero i first s work a b h = cc
  neighbours_tested (x ∷ y ∷ bs) zero i first s work {prev = prev} {cur = cur} a b h =
      let (s1, _, _, more) = validate_from-cons P p now path i first x (y ∷ bs) s work h in
      let (s2, header, _, _) = validate_from-cons P p now path (suc i) (some x) y bs s1 _ more in
      ap (λ (n : ℕ). check_link p now path n prev cur) (omega arith)
      ∙ ap (λ (c : Block). check_link p now path (suc i) prev c) (sym (cc b))
      ∙ ap (λ (c : Block). check_link p now path (suc i) c y) (sym (cc a))
      ∙ header
  neighbours_tested (x ∷ bs) (suc k) i first s work {prev = prev} {cur = cur} a b h =
      let (s1, _, _, more) = validate_from-cons P p now path i first x bs s work h in
      ap (λ (n : ℕ). check_link p now path n prev cur) (omega arith)
      ∙ neighbours_tested bs k (suc i) (some x) s1 _ a b more

module _ (P : Platform) (p : ConsensusParams) (now : ℤ) where
  -- In a chain that `computeCanonicalForTipLocked` accepts each block stands right above its
  -- predecessor and names its hash, has the version of its height, a time later than its
  -- predecessor's and than the median of the window that ends there and within the configured
  -- drift, and, where the difficulty rule is on, the bits that it prescribes, which are not 0.
  pub compute_canonical-IsLawful :
      (tree : Dict Bytes Block) (tip : Bytes) (k : ℕ) {path : List Block} {s : State} {w : ℕ}
      {prev cur : Block}
      → compute_canonical P p now tree tip ≡ ok (path, s, w)
      → get_elem? path k ≡ some prev
      → get_elem? path (suc k) ≡ some cur
      → IsLawful p now path k prev cur
  unfolding compute_canonical
  compute_canonical-IsLawful tree tip k {path} {prev = prev} {cur = cur} h a b =
      let (rev, _, valid) =
        validate_walk-parts P p now (ancestors (suc (length tree)) tree [] tip) h in
      check_link-IsLawful p now path k prev cur a b (
        ap (λ (n : ℕ). check_link p now path n prev cur) (omega arith)
        ∙ neighbours_tested P p now path path k 0 none [] 0 a b
            (validate_path-valid P p now (reverse rev) valid))
