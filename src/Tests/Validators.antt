-- ===== src/Tests/Validators.antt =====
-- Three validators with the stakes that TMFromEnv gives.
use neo_coin.Base.{ℕ, ◌≡◌, ◌<◌, ◌^◌, refl, arith, true, false, some, List, [], ◌∷◌}
use neo_coin.Base.Bytes.{Bytes, ascii, bytes_eq}
use neo_coin.Base.Words.{add64, mul64}
use neo_coin.Base.Dict.{lookup, insert}
use neo_coin.Address.{generate_address}
use neo_coin.Tendermint.{
  TmValidator, Tendermint, new_tendermint, new_validator, add_validator, sorted_vals, get_proposer,
  quorum, count_votes, tm_vote, advance_round, Call, enroll, cast, next_round, perform_all,
}
use neo_coin.Tendermint.Powers.{power_sum}
use neo_coin.Tendermint.Quorum.{tm_vote-no_quorum}
use neo_coin.Tests.World.{toy}

abbrev address : ℕ → Bytes
address n = generate_address toy (n ∷ [])

abbrev block_hash : Bytes
block_hash = ascii "h"

-- Two of three validators vote for the block, in the second round.
abbrev calls : List Call
calls =
    enroll (1 ∷ []) 1000
    ∷ enroll (2 ∷ []) 1000
    ∷ enroll (3 ∷ []) 1000
    ∷ next_round
    ∷ cast (address 1) block_hash
    ∷ cast (address 2) block_hash
    ∷ []

powers_are_3000 : power_sum (perform_all toy calls new_tendermint).vals ≡ 3000
unfolding perform_all tm_vote lookup advance_round add_validator insert bytes_eq generate_address
    neo_coin.Base.Bytes.hex_encode add64 power_sum count_votes quorum
powers_are_3000 = refl

calls-powers : power_sum (perform_all toy calls new_tendermint).vals < 2 ^ 63
calls-powers = rw powers_are_3000 (omega arith)

tm_vote-no_quorum_example :
    (tm_vote (address 3) block_hash (perform_all toy calls new_tendermint)).1 ≡ false
tm_vote-no_quorum_example =
    tm_vote-no_quorum toy calls (address 3) block_hash
      (omega arith, (omega arith, (omega arith, (tt, (tt, (tt, tt)))))) calls-powers

-- All three have voted, and the quorum is 2000.
three_votes :
    count_votes 1 1 block_hash
      (tm_vote (address 3) block_hash (perform_all toy calls new_tendermint)).0
    ≡ 3
unfolding perform_all tm_vote lookup advance_round add_validator insert bytes_eq generate_address
    neo_coin.Base.Bytes.hex_encode add64 count_votes
three_votes = refl

quorum_is_2000 : quorum (perform_all toy calls new_tendermint) ≡ 2000
unfolding perform_all tm_vote lookup advance_round add_validator insert bytes_eq generate_address
    neo_coin.Base.Bytes.hex_encode add64 quorum mul64
quorum_is_2000 = refl

abbrev validator : ℕ → TmValidator
validator n = new_validator (n ∷ []) (n ∷ []) 1000

abbrev visited : List ℕ → Tendermint
visited [] = new_tendermint
visited (n ∷ ns) = let rest = visited ns in record rest { vals = (n ∷ [], validator n) ∷ rest.vals }

-- Of equal stakes the one that the runtime visits first is the proposer.
visit_decides :
    (get_proposer 1 1 (visited (1 ∷ 2 ∷ [])) ≡ some (1 ∷ []))
    × (get_proposer 1 1 (visited (2 ∷ 1 ∷ [])) ≡ some (2 ∷ []))
unfolding get_proposer sorted_vals add64
visit_decides = (refl, refl)
