-- ===== src/Governance/Once.antt =====
-- A proposal that has been executed is never executed again.
use neo_coin.Base.{
  ℕ, ◌+◌, ◌-◌, ◌≤◌, ◌≡◌, ◌≢◌, refl, sym, ap, ◌∙◌, Bool, true, false, ltb, ◌||◌, if◌then◌else◌,
  Option, none, some, List, [], ◌∷◌, arith, Bool-cases, inl, inr,
}
use neo_coin.Base.Words.{add64}
use neo_coin.Base.Bytes.{Bytes, ascii, bytes_eq, bytes_eq_iff}
use neo_coin.Base.Dict.{bytes_key, lookup, insert, lookup-insert}
use neo_coin.Governance.Tally.{either}
use neo_coin.Governance.{
  Status, Proposal, Vote, Governance, GovernanceError, proposal_of, create_proposal, get_votes,
  has_voted, record_vote, mark, vote_on, count_vote, vote, carry_out, execute_found,
  execute_proposal, add_to_treasury, Call, create, cast, execute, deposit, perform, perform_all,
}

-- What the treasury pays for a proposal.
abbrev pub spent : Proposal → ℕ
spent p = if bytes_eq p.kind (ascii "treasury") then p.amount else 0

abbrev pub executed_of : Option Proposal → Bool
executed_of none = false
executed_of (some p) = p.is_executed

-- The calls that create no proposal with this id.
abbrev pub Spares : Bytes → List Call → Type 0
Spares id [] = Unit {0}
Spares id (create j d now end_time ∷ cs) = (j ≢ id) × Spares id cs
Spares id (cast j v ∷ cs) = Spares id cs
Spares id (execute j now ∷ cs) = Spares id cs
Spares id (deposit amount ∷ cs) = Spares id cs

abbrev IsExecuted : Bytes → Governance → Type 0
IsExecuted id g = executed_of (lookup id g.proposals) ≡ true

-- Writing a proposal that is executed if the old one was keeps the mark.
insert-IsExecuted :
    (id j : Bytes) (p : Proposal) (g h : Governance)
    → IsExecuted id g
    → h.proposals ≡ insert j p g.proposals
    → (j ≡ id → p.is_executed ≡ true)
    → IsExecuted id h
insert-IsExecuted id j p g h x e k =
    ap (λ d. executed_of (lookup id d)) e
    ∙ ap executed_of (lookup-insert j id p g.proposals)
    ∙ elim (Bool-cases (bytes_eq j id)) [
      | inl same ↦ rw same (k ((bytes_eq_iff j id).0 same))
      | inr other ↦ rw other x
    ]

-- What is found under an id that is executed is executed.
found_executed :
    (id j : Bytes) (p : Proposal) (g : Governance)
    → IsExecuted id g
    → lookup j g.proposals ≡ some p
    → j ≡ id
    → p.is_executed ≡ true
found_executed id j p g x e same =
    sym (ap executed_of e) ∙ ap (λ k. executed_of (lookup k g.proposals)) same ∙ x

vote_on-IsExecuted :
    (id j : Bytes) (v : Vote) (found : Option Proposal) (g : Governance)
    → lookup j g.proposals ≡ found
    → IsExecuted id g
    → IsExecuted id (vote_on j v found g).0
vote_on-IsExecuted id j v none g e x = x
vote_on-IsExecuted id j v (some p) g e x =
    either (IsExecuted id) (ltb p.end_time v.timestamp) _ _ (λ late. x)
      (λ still.
        either (IsExecuted id) (has_voted v.voter (get_votes j g)) _ _ (λ again. x)
          (λ first.
            insert-IsExecuted id j (count_vote v p) g (record_vote j v p g) x refl
              (λ same. ground (arith, found_executed id j p g x e same))))

carry_out-IsExecuted :
    (id j : Bytes) (p : Proposal) (g : Governance)
    → IsExecuted id g
    → IsExecuted id (carry_out j p g).0
unfolding carry_out
carry_out-IsExecuted id j p g x =
    let done = record p { status = Status.passed; is_executed = true } in
    either (IsExecuted id) (bytes_eq p.kind (ascii "treasury")) _ _
      (λ treasury.
        either (IsExecuted id) (ltb g.dao_treasury p.amount) _ _ (λ poor. x)
          (λ rich.
            insert-IsExecuted id j done g
              (mark j done (record g { dao_treasury = g.dao_treasury - p.amount })) x refl
              (λ same. refl)))
      (λ other.
        either (IsExecuted id)
          (bytes_eq p.kind (ascii "parameter") || bytes_eq p.kind (ascii "upgrade")) _ _
          (λ known. insert-IsExecuted id j done g (mark j done g) x refl (λ same. refl))
          (λ unknown. x))

reject-IsExecuted :
    (id j : Bytes) (p : Proposal) (g : Governance)
    → IsExecuted id g
    → lookup j g.proposals ≡ some p
    → IsExecuted id (mark j (record p { status = Status.rejected }) g)
reject-IsExecuted id j p g x e =
    let rejected = record p { status = Status.rejected } in
    insert-IsExecuted id j rejected g (mark j rejected g) x refl (found_executed id j p g x e)

module _ (rate_below : ℕ → ℕ → Bool) where
  execute_found-IsExecuted :
      (id j : Bytes) (now : ℕ) (found : Option Proposal) (g : Governance)
      → lookup j g.proposals ≡ found
      → IsExecuted id g
      → IsExecuted id (execute_found rate_below j now found g).0
  execute_found-IsExecuted id j now none g e x = x
  execute_found-IsExecuted id j now (some p) g e x =
      let total_votes = add64 p.votes_for p.votes_against in
      either (IsExecuted id) p.is_executed _ _ (λ done. x)
        (λ a.
          either (IsExecuted id) (ltb now p.end_time) _ _ (λ early. x)
            (λ b.
              either (IsExecuted id) (ltb total_votes g.min_quorum) _ _
                (λ few. reject-IsExecuted id j p g x e)
                (λ c.
                  either (IsExecuted id) (rate_below p.votes_for total_votes) _ _
                    (λ low. reject-IsExecuted id j p g x e)
                    (λ d. carry_out-IsExecuted id j p g x))))

  all-IsExecuted :
      (id : Bytes) (cs : List Call) (g : Governance)
      → Spares id cs
      → IsExecuted id g
      → IsExecuted id (perform_all rate_below cs g)
  unfolding perform_all perform create_proposal vote execute_proposal add_to_treasury
  all-IsExecuted id [] g k x = x
  all-IsExecuted id (create j d now end_time ∷ cs) g k x =
      all-IsExecuted id cs (create_proposal j d now end_time g) k.1 (
        insert-IsExecuted id j (proposal_of d now end_time) g (create_proposal j d now end_time g) x
          refl (λ same. absurd (k.0 same)))
  all-IsExecuted id (cast j v ∷ cs) g k x =
      all-IsExecuted id cs (vote j v g).0 k
        (vote_on-IsExecuted id j v (lookup j g.proposals) g refl x)
  all-IsExecuted id (execute j now ∷ cs) g k x =
      all-IsExecuted id cs (execute_proposal rate_below j now g).0 k
        (execute_found-IsExecuted id j now (lookup j g.proposals) g refl x)
  all-IsExecuted id (deposit amount ∷ cs) g k x =
      all-IsExecuted id cs (add_to_treasury amount g) k x

  refuses_executed :
      (id : Bytes) (later : ℕ) (g : Governance) (found : Option Proposal)
      → executed_of found ≡ true
      → execute_found rate_below id later found g ≡ (g, some GovernanceError.already_executed)
  refuses_executed id later g none x = cc
  refuses_executed id later g (some p) x = ground arith

  -- What a successful execution has tested, and what it pays.
  pub record IsPaid (id : Bytes) (now : ℕ) (g g' : Governance) (p : Proposal) : Type 0 where
    pub found : lookup id g.proposals ≡ some p
    pub first : p.is_executed ≡ false
    pub ended : p.end_time ≤ now
    pub quorum : g.min_quorum ≤ add64 p.votes_for p.votes_against
    pub approved : rate_below p.votes_for (add64 p.votes_for p.votes_against) ≡ false
    pub paid : g'.dao_treasury + spent p ≡ g.dao_treasury

  carry_out-paid :
      (id : Bytes) (p : Proposal) (g g' : Governance)
      → carry_out id p g ≡ (g', none)
      → (g'.dao_treasury + spent p ≡ g.dao_treasury) × IsExecuted id g'
  unfolding carry_out
  carry_out-paid id p g g' h =
      let done = record p { status = Status.passed; is_executed = true } in
      (
        ground arith,
        ground (arith, ap executed_of (lookup-insert id id done g.proposals), bytes_eq_iff id id),
      )

  execute_found-IsPaid :
      (id : Bytes) (now : ℕ) (found : Option Proposal) (g g' : Governance)
      → lookup id g.proposals ≡ found
      → execute_found rate_below id now found g ≡ (g', none)
      → ((p : Proposal) × IsPaid id now g g' p) × IsExecuted id g'
  execute_found-IsPaid id now none g g' e h = absurd (ground arith)
  execute_found-IsPaid id now (some p) g g' e h =
      let done : carry_out id p g ≡ (g', none) = ground arith in
      let (paid, x) = carry_out-paid id p g g' done in
      (
        (
          p,
          record {
            found = e;
            first = ground arith;
            ended = ground arith;
            quorum = ground arith;
            approved = ground arith;
            paid = paid;
          },
        ),
        x,
      )

  -- A successful execution found a proposal that was not executed, whose voting has ended, with the
  -- quorum and the approval that the rule asks, and takes exactly its amount from the treasury, or
  -- nothing unless it is of the type "treasury". After any further calls that create no proposal
  -- with the same id a second execution fails and changes nothing.
  pub execute_proposal_once :
      (id : Bytes) (now later : ℕ) (cs : List Call) (g g' : Governance)
      → execute_proposal rate_below id now g ≡ (g', none)
      → Spares id cs
      → ((p : Proposal) × IsPaid id now g g' p)
        × (execute_proposal rate_below id later (perform_all rate_below cs g')
            ≡ (perform_all rate_below cs g', some GovernanceError.already_executed))
  unfolding execute_proposal
  execute_proposal_once id now later cs g g' h k =
      let (p, x) = execute_found-IsPaid id now (lookup id g.proposals) g g' refl h in
      let end = perform_all rate_below cs g' in
      (p, refuses_executed id later end (lookup id end.proposals) (all-IsExecuted id cs g' k x))
