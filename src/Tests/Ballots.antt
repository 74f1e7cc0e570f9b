-- ===== src/Tests/Ballots.antt =====
-- A treasury proposal from its creation to its execution.
use neo_coin.Base.{ℕ, ◌*◌, ◌≡◌, refl, Bool, true, false, ltb, none, some, List, [], ◌∷◌}
use neo_coin.Base.Bytes.{Bytes, ascii, bytes_eq}
use neo_coin.Base.Words.{add64}
use neo_coin.Base.Dict.{lookup, insert}
use neo_coin.Governance.{
  Governance, GovernanceError, Draft, Vote, Proposal, new_governance, create_proposal, has_voted,
  vote, carry_out, execute_proposal, add_to_treasury, Call, create, cast, deposit, perform,
  perform_all,
}
use neo_coin.Governance.Tally.{IsTallied}
use neo_coin.Governance.Calls.{perform_all-IsTallied}
use neo_coin.Governance.Once.{IsPaid, execute_proposal_once}

-- Three fifths, by cross-multiplication.
abbrev below_three_fifths : ℕ → ℕ → Bool
below_three_fifths a b = ltb (5 * a) (3 * b)

abbrev grant : Draft
grant = record {
  title = ascii "grant";
  description = [];
  kind = ascii "treasury";
  creator = ascii "a";
  amount = 5;
  target = ascii "b";
}

abbrev ballot : Bytes → Bool → ℕ → ℕ → Vote
ballot voter approve weight timestamp = record {
  voter = voter;
  approve = approve;
  weight = weight;
  timestamp = timestamp;
}

abbrev calls : List Call
calls =
    deposit 8
    ∷ create (ascii "p") grant 10 20
    ∷ cast (ascii "p") (ballot (ascii "a") true 700 12)
    ∷ cast (ascii "p") (ballot (ascii "b") false 400 13)
    ∷ cast (ascii "p") (ballot (ascii "a") true 700 14)
    ∷ []

abbrev before : Governance
unfolding perform_all perform create_proposal add_to_treasury vote has_voted lookup insert add64
    bytes_eq
before = perform_all below_three_fifths calls new_governance

perform_all-IsTallied_example : IsTallied (perform_all below_three_fifths calls new_governance)
perform_all-IsTallied_example = perform_all-IsTallied below_three_fifths calls

abbrev after : Governance
unfolding perform_all perform create_proposal add_to_treasury vote has_voted lookup insert add64
    bytes_eq execute_proposal carry_out
after = (execute_proposal below_three_fifths (ascii "p") 20 before).0

paid_out : after.dao_treasury ≡ 3
unfolding perform_all perform create_proposal add_to_treasury vote has_voted lookup insert add64
    bytes_eq execute_proposal carry_out
paid_out = refl

execute_proposal_once_example :
    ((p : Proposal) × IsPaid below_three_fifths (ascii "p") 20 before after p)
    × (execute_proposal below_three_fifths
          (ascii "p")
          30
          (perform_all below_three_fifths (deposit 9 ∷ []) after)
        ≡ (
          perform_all below_three_fifths (deposit 9 ∷ []) after,
          some GovernanceError.already_executed,
        ))
unfolding perform_all perform create_proposal add_to_treasury vote has_voted lookup insert add64
    bytes_eq execute_proposal carry_out
execute_proposal_once_example =
    execute_proposal_once below_three_fifths (ascii "p") 20 30 (deposit 9 ∷ []) before after refl tt

-- At the instant of the end both are allowed: a vote is counted after the execution.
late_vote_counts : (vote (ascii "p") (ballot (ascii "c") false 900 20) after).1 ≡ none
unfolding perform_all perform create_proposal add_to_treasury vote has_voted lookup insert add64
    bytes_eq execute_proposal carry_out
late_vote_counts = refl
