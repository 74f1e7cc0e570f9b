-- ===== src/Tendermint/Quorum.antt =====
-- blockchain/tendermint.go: `quorum` is two thirds of the powers, and the count that `Vote`
-- compares with it is one for each validator.
use neo_coin.Base.{
  ℕ, ◌*◌, ◌/◌, ◌%◌, ◌==◌, if◌then◌else◌, ◌+◌, ◌∙◌, ◌^◌, ◌<◌, ◌≤◌, ◌≡◌, refl, ap, true, false, leb,
  Option, none, some, List, [], ◌∷◌, length, arith, Bool-cases, inl, inr,
}
use neo_coin.Base.Bytes.{Bytes}
use neo_coin.Base.Dict.{Dict, ℕ_key, bytes_key, lookup}
use neo_coin.Base.Words.{mul64}
use neo_coin.Platform.{Platform}
use neo_coin.Tendermint.{
  TmValidator, Tendermint, new_tendermint, is_active, total_from, quorum, count_equal, votes_at,
  set_vote, count_votes, vote_of, tm_vote, Call, perform_all,
}
use neo_coin.Tendermint.Keys.{has, length-le-of_keys}
use neo_coin.Tendermint.Powers.{power_sum, heavy_power, total_from-power_sum, count_equal-le}
use neo_coin.Tendermint.Register.{
  IsRegistered, set_vote-IsRegistered, AllHeavyCalls, perform_all-IsRegistered,
  new_tendermint-IsRegistered,
}

two_thirds-above :
    (s n c : ℕ)
    → 3 * n ≤ s
    → 0 < n
    → c ≤ n
    → s < 2 ^ 63
    → leb (if s == 0 then 0 else mul64 s 2 / 3) c ≡ false
unfolding mul64
two_thirds-above s n c many some_n few b =
    let fits : s * 2 % 2 ^ 64 ≡ s * 2 = omega arith in rw fits (ground arith)

plus_zero : (n : ℕ) → 0 + n ≡ n
plus_zero n = omega arith

-- In a register, no number of votes is a quorum.
quorum-above :
    (t : Tendermint) (block_hash : Bytes)
    → IsRegistered t
    → 0 < length t.vals
    → power_sum t.vals < 2 ^ 63
    → leb (quorum t) (count_votes t.height t.round block_hash t) ≡ false
unfolding quorum count_votes
quorum-above t block_hash x some_val b =
    let votes = votes_at t.height t.round t.votes in
    let cast_votes : length votes ≤ length t.vals =
      length-le-of_keys votes t.vals (x.once t.height t.round) (x.known t.height t.round) in
    let total : total_from 0 t.vals ≡ power_sum t.vals =
      total_from-power_sum 0 t.vals x.heavy (omega arith) ∙ plus_zero (power_sum t.vals) in
    rw total (
      two_thirds-above (power_sum t.vals) (length t.vals) (count_equal block_hash votes)
        (heavy_power t.vals x.heavy) some_val
        (omega (arith, count_equal-le block_hash votes, cast_votes)) b)

length-positive :
    (addr : Bytes) (vals : Dict Bytes TmValidator) → has (lookup addr vals) ≡ true → 0 < length vals
unfolding lookup
length-positive addr [] h = absurd (cc h)
length-positive addr ((k, v) ∷ vals) h = omega arith

vote_of-no_quorum :
    (o : Option TmValidator) (addr block_hash : Bytes) (t : Tendermint)
    → lookup addr t.vals ≡ o
    → IsRegistered t
    → power_sum t.vals < 2 ^ 63
    → (vote_of o addr block_hash t).1 ≡ false
vote_of-no_quorum none addr block_hash t e x b = refl
vote_of-no_quorum (some v) addr block_hash t e x b =
    let there = ap has e in
    elim (Bool-cases (is_active v)) [
      | inl on ↦ rw on (
          quorum-above (record t { votes = set_vote t.height t.round addr block_hash t.votes })
            block_hash (set_vote-IsRegistered addr block_hash t there x)
            (length-positive addr t.vals there) b)
      | inr off ↦ rw off refl
    ]

-- After any calls in which every validator enrolled with a stake of at least 3, the stakes together
-- below 2 ^ 63, no vote reports a quorum, whoever casts it and whatever the others voted.
pub tm_vote-no_quorum :
    (P : Platform) (cs : List Call) (addr block_hash : Bytes)
    → AllHeavyCalls cs
    → power_sum (perform_all P cs new_tendermint).vals < 2 ^ 63
    → (tm_vote addr block_hash (perform_all P cs new_tendermint)).1 ≡ false
unfolding tm_vote
tm_vote-no_quorum P cs addr block_hash p b =
    let t = perform_all P cs new_tendermint in
    vote_of-no_quorum (lookup addr t.vals) addr block_hash t refl
      (perform_all-IsRegistered P cs new_tendermint p new_tendermint-IsRegistered) b
