-- ===== src/Tendermint/Powers.antt =====
-- blockchain/tendermint.go: the quorum as a number, where every power is 3 at least.
use neo_coin.Base.{
  ℕ, ◌+◌, ◌*◌, ◌^◌, ◌<◌, ◌≤◌, ◌≡◌, ap, ◌∙◌, true, if◌then◌else◌, [], ◌∷◌, length, arith, Bool-cases,
  inl, inr,
}
use neo_coin.Base.Words.{add64, add64_fits}
use neo_coin.Base.Bytes.{Bytes, bytes_eq}
use neo_coin.Base.Dict.{Dict, ℕ_key, bytes_key, insert}
use neo_coin.Tendermint.{TmValidator, Votes, is_active, total_from, count_equal}

-- The powers, without a bound.
unfoldable pub power_sum : Dict Bytes TmValidator → ℕ
power_sum [] = 0
power_sum ((k, v) ∷ vals) = v.power + power_sum vals

-- Every validator is active, with a power of 3 at least.
abbrev pub AllHeavy : Dict Bytes TmValidator → Type 0
AllHeavy [] = Unit {0}
AllHeavy ((k, v) ∷ vals) = (is_active v ≡ true) × (3 ≤ v.power) × AllHeavy vals

pub insert-AllHeavy :
    (a : Bytes) (v : TmValidator) (vals : Dict Bytes TmValidator)
    → is_active v ≡ true
    → 3 ≤ v.power
    → AllHeavy vals
    → AllHeavy (insert a v vals)
unfolding insert
insert-AllHeavy a v [] x p h = (x, p, tt)
insert-AllHeavy a v ((j, w) ∷ vals) x p h = elim (Bool-cases (bytes_eq j a)) [
  | inl same ↦ rw same (x, p, h.2)
  | inr other ↦ rw other (h.0, h.1, insert-AllHeavy a v vals x p h.2)
]

pub heavy_power : (vals : Dict Bytes TmValidator) → AllHeavy vals → 3 * length vals ≤ power_sum vals
unfolding power_sum
heavy_power [] h = omega arith
heavy_power ((k, v) ∷ vals) h = omega (arith, heavy_power vals h.2, h.1)

pub total_from-power_sum :
    (total : ℕ) (vals : Dict Bytes TmValidator)
    → AllHeavy vals
    → total + power_sum vals < 2 ^ 64
    → total_from total vals ≡ total + power_sum vals
unfolding total_from power_sum
total_from-power_sum total [] h b = omega arith
total_from-power_sum total ((k, v) ∷ vals) h b =
    let step : (if is_active v then add64 total v.power else total) ≡ total + v.power =
      ap (λ c. if c then add64 total v.power else total) h.0
      ∙ add64_fits total v.power (omega arith) in
    ap (λ n. total_from n vals) step
    ∙ total_from-power_sum (total + v.power) vals h.2 (omega arith)
    ∙ omega arith

pub count_equal-le : (block_hash : Bytes) (vs : Votes) → count_equal block_hash vs ≤ length vs
unfolding count_equal
count_equal-le block_hash [] = omega arith
count_equal-le block_hash ((k, h) ∷ vs) = ground (arith, count_equal-le block_hash vs)
