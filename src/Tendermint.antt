-- ===== src/Tendermint.antt =====
-- blockchain/tendermint.go: validators, their votes by height and round, and the quorum. The order
-- in which the runtime visits a map is the order of its list.
pub mod Keys
pub mod Powers
pub mod Register
pub mod Quorum
use neo_coin.Base.{
  ℕ, ◌+◌, ◌/◌, ◌%◌, ◌^◌, Bool, true, false, not, ◌&&◌, ltb, leb, ◌==◌, if◌then◌else◌, Option, none,
  some, List, [], ◌∷◌, length, get_elem?,
}
use neo_coin.Base.Words.{add64, mul64}
use neo_coin.Base.Bytes.{Bytes, bytes_eq}
use neo_coin.Base.Dict.{Dict, ℕ_key, bytes_key, lookup, insert}
use neo_coin.Platform.{Platform}
use neo_coin.Address.{generate_address}

pub record TmValidator : Type 0 where
  pub address : Bytes
  pub pub_key : Bytes
  pub stake : ℕ
  pub power : ℕ
  pub online : Bool
  pub jailed : Bool

abbrev pub Votes : Type 0
Votes = Dict Bytes Bytes

-- Of `TMState` the fields `Step` and `LockedRound` are never read or written.
pub record Tendermint : Type 0 where
  pub vals : Dict Bytes TmValidator
  pub height : ℕ
  pub round : ℕ
  pub locked : Bool
  pub votes : Dict ℕ (Dict ℕ Votes)

abbrev pub new_tendermint : Tendermint
new_tendermint = record { vals = []; height = 1; round = 0; locked = false; votes = [] }

abbrev pub is_active : TmValidator → Bool
is_active v = v.online && not v.jailed

abbrev pub new_validator : Bytes → Bytes → ℕ → TmValidator
new_validator addr pub_key stake = record {
  address = addr;
  pub_key = pub_key;
  stake = stake;
  power = stake;
  online = true;
  jailed = false;
}

abbrev pub add_if_new : Option TmValidator → Bytes → TmValidator → Tendermint → Tendermint
add_if_new (some known) addr v t = t
add_if_new none addr v t = record t { vals = insert addr v t.vals }

-- `AddValidator`.
unfoldable pub add_validator : Platform → Bytes → ℕ → Tendermint → Tendermint
add_validator P pub_key stake t =
    let addr = generate_address P pub_key in
    add_if_new (lookup addr t.vals) addr (new_validator addr pub_key stake) t

abbrev active : Dict Bytes TmValidator → List TmValidator
active [] = []
active ((k, v) ∷ vals) = let rest = active vals in if is_active v then v ∷ rest else rest

abbrev place_by_stake : TmValidator → List TmValidator → List TmValidator
place_by_stake v [] = v ∷ []
place_by_stake v (w ∷ ws) = if ltb v.stake w.stake then w ∷ place_by_stake v ws else v ∷ w ∷ ws

abbrev by_stake : List TmValidator → List TmValidator
by_stake [] = []
by_stake (v ∷ vs) = place_by_stake v (by_stake vs)

-- `sortedVals`; the order of equal stakes is that of the visit.
unfoldable pub sorted_vals : Tendermint → List TmValidator
sorted_vals t = by_stake (active t.vals)

abbrev address_at : Option TmValidator → Bytes
address_at none = []
address_at (some v) = v.address

-- `GetProposer`; `none` is the panic of a negative index, from 2 ^ 63 on.
unfoldable pub get_proposer : ℕ → ℕ → Tendermint → Option Bytes
unfolding sorted_vals
get_proposer height round t =
    let list = sorted_vals t in
    if length list == 0
    then some []
    else if ltb (add64 height round) (2 ^ 63)
    then some (address_at (get_elem? list (add64 height round % length list)))
    else none

-- The loop of `quorum`.
unfoldable pub total_from : ℕ → Dict Bytes TmValidator → ℕ
total_from total [] = total
total_from total ((k, v) ∷ vals) =
    total_from (if is_active v then add64 total v.power else total) vals

-- `quorum`, of the powers; its test for 0 changes nothing.
unfoldable pub quorum : Tendermint → ℕ
unfolding total_from
quorum t = let total = total_from 0 t.vals in if total == 0 then 0 else mul64 total 2 / 3

abbrev pub round_or_none : Option (Dict ℕ Votes) → Dict ℕ Votes
round_or_none none = []
round_or_none (some r) = r

abbrev pub tm_votes_or_none : Option Votes → Votes
tm_votes_or_none none = []
tm_votes_or_none (some vs) = vs

-- `t.votes[height][round]`, empty where a map is missing.
abbrev pub votes_at : ℕ → ℕ → Dict ℕ (Dict ℕ Votes) → Votes
votes_at height round votes = tm_votes_or_none (lookup round (round_or_none (lookup height votes)))

-- `t.votes[h][r][addr] = blockHash`, with the maps made where they are missing.
abbrev pub set_vote : ℕ → ℕ → Bytes → Bytes → Dict ℕ (Dict ℕ Votes) → Dict ℕ (Dict ℕ Votes)
set_vote h r addr block_hash votes =
    insert h
      (insert r (insert addr block_hash (votes_at h r votes)) (round_or_none (lookup h votes)))
      votes

unfoldable pub count_equal : Bytes → Votes → ℕ
count_equal block_hash [] = 0
count_equal block_hash ((k, h) ∷ vs) =
    (if bytes_eq h block_hash then 1 else 0) + count_equal block_hash vs

-- `countVotes`: how many validators voted for the block.
unfoldable pub count_votes : ℕ → ℕ → Bytes → Tendermint → ℕ
unfolding count_equal
count_votes height round block_hash t = count_equal block_hash (votes_at height round t.votes)

abbrev pub vote_of : Option TmValidator → Bytes → Bytes → Tendermint → Tendermint × Bool
vote_of none addr block_hash t = (t, false)
vote_of (some v) addr block_hash t =
    if not (is_active v)
    then (t, false)
    else (let voted = record t { votes = set_vote t.height t.round addr block_hash t.votes } in
        (voted, leb (quorum voted) (count_votes t.height t.round block_hash voted)))

-- `Vote`: whether the block has its quorum.
unfoldable pub tm_vote : Bytes → Bytes → Tendermint → Tendermint × Bool
unfolding quorum count_votes
tm_vote addr block_hash t = vote_of (lookup addr t.vals) addr block_hash t

-- `AdvanceRound` and `AdvanceHeight`.
unfoldable pub advance_round : Tendermint → Tendermint
advance_round t = record t { round = add64 t.round 1; locked = false }

unfoldable pub advance_height : Tendermint → Tendermint
advance_height t = record t { height = add64 t.height 1; round = 0 }

-- The calls that change the state.
pub data Call : Type 0 where
  enroll : Bytes → ℕ → Call
  cast : Bytes → Bytes → Call
  next_round next_height : Call

module _ (P : Platform) where
  unfoldable pub perform : Call → Tendermint → Tendermint
  perform (enroll pub_key stake) t = add_validator P pub_key stake t
  perform (cast addr block_hash) t = (tm_vote addr block_hash t).0
  perform next_round t = advance_round t
  perform next_height t = advance_height t

  unfoldable pub perform_all : List Call → Tendermint → Tendermint
  unfolding perform
  perform_all [] t = t
  perform_all (c ∷ cs) t = perform_all cs (perform c t)
