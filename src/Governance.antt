-- ===== src/Governance.antt =====
-- blockchain/governance.go: proposals, their votes and the treasury. The wall clock is an argument,
-- and so is the end of the voting period that `AddDate` gives. A failing call returns the state
-- with its error, since `ExecuteProposal` marks a proposal that it rejects. The comparison of the
-- float64 approval rate with the threshold is an argument, `rate_below`, of the votes for and of
-- all votes.
pub mod Tally
pub mod Calls
pub mod Once
use neo_coin.Base.{
  ℕ, ◌+◌, ◌-◌, Bool, true, false, ltb, ◌||◌, if◌then◌else◌, Option, none, some, List, [], ◌∷◌, ◌++◌,
}
use neo_coin.Base.Words.{add64}
use neo_coin.Base.Bytes.{Bytes, ascii, bytes_eq}
use neo_coin.Base.Dict.{Dict, bytes_key, lookup, insert}

pub data Status : Type 0 where
  active rejected executed passed : Status

-- `GovernanceProposal` without its `ID`, which is its key in the map.
pub record Proposal : Type 0 where
  pub title : Bytes
  pub description : Bytes
  pub kind : Bytes
  pub amount : ℕ
  pub target : Bytes
  pub creator : Bytes
  pub votes_for : ℕ
  pub votes_against : ℕ
  pub start_time : ℕ
  pub end_time : ℕ
  pub status : Status
  pub is_executed : Bool

pub record Vote : Type 0 where
  pub voter : Bytes
  pub approve : Bool
  pub weight : ℕ
  pub timestamp : ℕ

pub record Governance : Type 0 where
  pub proposals : Dict Bytes Proposal
  pub votes : Dict Bytes (List Vote)
  pub dao_treasury : ℕ
  pub min_quorum : ℕ

pub data GovernanceError : Type 0 where
  proposal_not_found voting_ended already_voted : GovernanceError
  already_executed voting_not_ended quorum_not_reached threshold_not_met : GovernanceError
  insufficient_treasury unknown_type : GovernanceError

-- The new state with the error, if there is one.
abbrev pub Outcome : Type 0
Outcome = Governance × Option GovernanceError

abbrev pub new_governance : Governance
new_governance = record { proposals = []; votes = []; dao_treasury = 0; min_quorum = 1000 }

-- What `CreateProposal` is given.
pub record Draft : Type 0 where
  pub title : Bytes
  pub description : Bytes
  pub kind : Bytes
  pub creator : Bytes
  pub amount : ℕ
  pub target : Bytes

abbrev pub proposal_of : Draft → ℕ → ℕ → Proposal
proposal_of d now end_time = record {
  title = d.title;
  description = d.description;
  kind = d.kind;
  amount = d.amount;
  target = d.target;
  creator = d.creator;
  votes_for = 0;
  votes_against = 0;
  start_time = now;
  end_time = end_time;
  status = Status.active;
  is_executed = false;
}

-- `CreateProposal`: the id is made of the clock, and a proposal with the same id is replaced.
unfoldable pub create_proposal : Bytes → Draft → ℕ → ℕ → Governance → Governance
create_proposal id d now end_time g = record g {
  proposals = insert id (proposal_of d now end_time) g.proposals;
  votes = insert id [] g.votes;
}

abbrev pub votes_or_none : Option (List Vote) → List Vote
votes_or_none none = []
votes_or_none (some vs) = vs

-- `g.votes[proposalID]`, which `GetVotes` returns too.
abbrev pub get_votes : Bytes → Governance → List Vote
get_votes id g = votes_or_none (lookup id g.votes)

unfoldable pub has_voted : Bytes → List Vote → Bool
has_voted voter [] = false
has_voted voter (v ∷ vs) = bytes_eq v.voter voter || has_voted voter vs

-- The tally of the proposal with a vote added.
abbrev pub count_vote : Vote → Proposal → Proposal
count_vote v p =
    if v.approve
    then record p { votes_for = add64 p.votes_for v.weight }
    else record p { votes_against = add64 p.votes_against v.weight }

abbrev pub record_vote : Bytes → Vote → Proposal → Governance → Governance
record_vote id v p g = record g {
  proposals = insert id (count_vote v p) g.proposals;
  votes = insert id (get_votes id g ++ v ∷ []) g.votes;
}

abbrev pub vote_on : Bytes → Vote → Option Proposal → Governance → Outcome
vote_on id v none g = (g, some GovernanceError.proposal_not_found)
vote_on id v (some p) g =
    if ltb p.end_time v.timestamp
    then (g, some GovernanceError.voting_ended)
    else if has_voted v.voter (get_votes id g)
    then (g, some GovernanceError.already_voted)
    else (record_vote id v p g, none)

-- `Vote`; the vote carries the time of the call.
unfoldable pub vote : Bytes → Vote → Governance → Outcome
unfolding has_voted
vote id v g = vote_on id v (lookup id g.proposals) g

abbrev pub mark : Bytes → Proposal → Governance → Governance
mark id p g = record g { proposals = insert id p g.proposals }

abbrev pub reject : Bytes → Proposal → GovernanceError → Governance → Outcome
reject id p e g = (mark id (record p { status = Status.rejected }) g, some e)

abbrev pub pass : Bytes → Proposal → Governance → Outcome
pass id p g = (mark id (record p { status = Status.passed; is_executed = true }) g, none)

-- The switch over the proposal's type.
unfoldable pub carry_out : Bytes → Proposal → Governance → Outcome
carry_out id p g =
    if bytes_eq p.kind (ascii "treasury")
    then if ltb g.dao_treasury p.amount
      then (g, some GovernanceError.insufficient_treasury)
      else pass id p (record g { dao_treasury = g.dao_treasury - p.amount })
    else if bytes_eq p.kind (ascii "parameter") || bytes_eq p.kind (ascii "upgrade")
    then pass id p g
    else (g, some GovernanceError.unknown_type)

module _ (rate_below : ℕ → ℕ → Bool) where
  abbrev pub execute_found : Bytes → ℕ → Option Proposal → Governance → Outcome
  execute_found id now none g = (g, some GovernanceError.proposal_not_found)
  execute_found id now (some p) g =
      let total_votes = add64 p.votes_for p.votes_against in
      if p.is_executed
      then (g, some GovernanceError.already_executed)
      else if ltb now p.end_time
      then (g, some GovernanceError.voting_not_ended)
      else if ltb total_votes g.min_quorum
      then reject id p GovernanceError.quorum_not_reached g
      else if rate_below p.votes_for total_votes
      then reject id p GovernanceError.threshold_not_met g
      else carry_out id p g

  -- `ExecuteProposal`.
  unfoldable pub execute_proposal : Bytes → ℕ → Governance → Outcome
  unfolding carry_out
  execute_proposal id now g = execute_found id now (lookup id g.proposals) g

-- `GetProposal`.
unfoldable pub get_proposal : Bytes → Governance → Option Proposal
get_proposal id g = lookup id g.proposals

-- `AddToTreasury`.
unfoldable pub add_to_treasury : ℕ → Governance → Governance
add_to_treasury amount g = record g { dao_treasury = add64 g.dao_treasury amount }

-- The calls that change the state, in the order in which the lock admits them.
pub data Call : Type 0 where
  create : Bytes → Draft → ℕ → ℕ → Call
  cast : Bytes → Vote → Call
  execute : Bytes → ℕ → Call
  deposit : ℕ → Call

module _ (rate_below : ℕ → ℕ → Bool) where
  unfoldable pub perform : Call → Governance → Governance
  perform (create id d now end_time) g = create_proposal id d now end_time g
  perform (cast id v) g = (vote id v g).0
  perform (execute id now) g = (execute_proposal rate_below id now g).0
  perform (deposit amount) g = add_to_treasury amount g

  unfoldable pub perform_all : List Call → Governance → Governance
  unfolding perform
  perform_all [] g = g
  perform_all (c ∷ cs) g = perform_all cs (perform c g)
