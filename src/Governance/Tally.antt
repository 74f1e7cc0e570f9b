-- ===== src/Governance/Tally.antt =====
-- The tallies of the proposals are the weights of their recorded votes, each voter once.
use neo_coin.Base.{
  ℕ, ◌+◌, ◌%◌, ◌^◌, ◌≡◌, refl, sym, ap, ◌∙◌, ◌-◌, ltb, Bool, true, false, ◌||◌, if◌then◌else◌,
  Option, none, some, List, [], ◌∷◌, ◌++◌, arith, Bool-cases, inl, inr,
}
use mathlib.Core.Path.{subst}
use neo_coin.Base.Words.{add64}
use neo_coin.Base.Bytes.{Bytes, ascii, bytes_eq, bytes_eq_iff}
use neo_coin.Base.Dict.{bytes_key, lookup, insert, lookup-insert}
use neo_coin.Governance.{
  Status, Proposal, Vote, Governance, Outcome, Draft, proposal_of, create_proposal, get_votes,
  votes_or_none, has_voted, count_vote, record_vote, vote_on, mark, carry_out,
}

-- The weights on one side, without a bound.
unfoldable pub weight_of : Bool → List Vote → ℕ
weight_of side [] = 0
weight_of true (v ∷ vs) = (if v.approve then v.weight else 0) + weight_of true vs
weight_of false (v ∷ vs) = (if v.approve then 0 else v.weight) + weight_of false vs

-- No voter stands twice in the list.
abbrev pub Once : List Vote → Type 0
Once [] = Unit {0}
Once (v ∷ vs) = (has_voted v.voter vs ≡ false) × Once vs

-- A tally is kept in a `uint64`, so it is the sum modulo 2 ^ 64.
pub record Tallied (p : Proposal) (vs : List Vote) : Type 0 where
  pub for_votes : p.votes_for ≡ weight_of true vs % 2 ^ 64
  pub against_votes : p.votes_against ≡ weight_of false vs % 2 ^ 64
  pub once : Once vs

abbrev pub IsTallied : Governance → Type 0
IsTallied g =
    (id : Bytes) (p : Proposal) → lookup id g.proposals ≡ some p → Tallied p (get_votes id g)

-- A predicate of the state on either branch of a guard.
pub either :
    (P : Governance → Type 0) (b : Bool) (x y : Outcome)
    → (b ≡ true → P x.0)
    → (b ≡ false → P y.0)
    → P (if b then x else y).0
either P true x y h k = h refl
either P false x y h k = k refl

weight_of-append :
    (side : Bool) (vs : List Vote) (v : Vote)
    → weight_of side (vs ++ v ∷ []) ≡ weight_of side vs + weight_of side (v ∷ [])
unfolding weight_of
weight_of-append true [] v = ground arith
weight_of-append false [] v = ground arith
weight_of-append true (w ∷ vs) v = omega (arith, weight_of-append true vs v)
weight_of-append false (w ∷ vs) v = omega (arith, weight_of-append false vs v)

has_voted-append :
    (voter : Bytes) (vs : List Vote) (v : Vote)
    → has_voted voter (vs ++ v ∷ []) ≡ (has_voted voter vs || bytes_eq v.voter voter)
unfolding has_voted
has_voted-append voter [] v = ground arith
has_voted-append voter (w ∷ vs) v = ground (arith, has_voted-append voter vs v)

Once-append :
    (vs : List Vote) (v : Vote) → Once vs → has_voted v.voter vs ≡ false → Once (vs ++ v ∷ [])
unfolding has_voted
Once-append [] v o h = (refl, tt)
Once-append (w ∷ vs) v o h = (
  ground (
    arith,
    has_voted-append w.voter vs v,
    bytes_eq_iff w.voter v.voter,
    bytes_eq_iff v.voter w.voter,
  ),
  Once-append vs v o.1 (ground arith),
)

count_vote-Tallied :
    (v : Vote) (p : Proposal) (vs : List Vote)
    → Tallied p vs
    → has_voted v.voter vs ≡ false
    → Tallied (count_vote v p) (vs ++ v ∷ [])
unfolding add64 weight_of
count_vote-Tallied v p vs t h = record {
  for_votes = ground (arith, weight_of-append true vs v, t.for_votes);
  against_votes = ground (arith, weight_of-append false vs v, t.against_votes);
  once = Once-append vs v t.once h;
}

-- A proposal is replaced, and the votes for it are those that it was counted from.
replaced-IsTallied :
    (id : Bytes) (p : Proposal) (vs : List Vote) (g h : Governance)
    → IsTallied g
    → Tallied p vs
    → h.proposals ≡ insert id p g.proposals
    → ((j : Bytes) → get_votes j h ≡ (if bytes_eq id j then vs else get_votes j g))
    → IsTallied h
replaced-IsTallied id p vs g h t n e f j q found =
    let at : lookup j h.proposals ≡ (if bytes_eq id j then some p else lookup j g.proposals) =
      ap (lookup j) e ∙ lookup-insert id j p g.proposals in
    elim (Bool-cases (bytes_eq id j)) [
      | inl same ↦
          let e1 : p ≡ q =
            some_inj
              (sym (ap (λ b. if b then some p else lookup j g.proposals) same) ∙ sym at ∙ found) in
          subst (λ ws. Tallied q ws) (sym (f j ∙ ap (λ b. if b then vs else get_votes j g) same))
            (subst (λ r. Tallied r vs) e1 n)
      | inr other ↦
          subst (λ ws. Tallied q ws) (sym (f j ∙ ap (λ b. if b then vs else get_votes j g) other))
            (t j q
              (sym (ap (λ b. if b then some p else lookup j g.proposals) other) ∙ sym at ∙ found))
    ]
  where
    some_inj : {a b : Proposal} → some a ≡ some b → a ≡ b
    some_inj h = cc

pub mark-IsTallied :
    (id : Bytes) (p : Proposal) (g : Governance)
    → IsTallied g
    → Tallied p (get_votes id g)
    → IsTallied (mark id p g)
mark-IsTallied id p g t n =
    replaced-IsTallied id p (get_votes id g) g (mark id p g) t n refl
      (λ j. ground (arith, bytes_eq_iff id j))

record_vote-IsTallied :
    (id : Bytes) (v : Vote) (p : Proposal) (g : Governance)
    → IsTallied g
    → Tallied p (get_votes id g)
    → has_voted v.voter (get_votes id g) ≡ false
    → IsTallied (record_vote id v p g)
record_vote-IsTallied id v p g t n h =
    replaced-IsTallied id (count_vote v p) (get_votes id g ++ v ∷ []) g (record_vote id v p g) t
      (count_vote-Tallied v p (get_votes id g) n h) refl
      (λ j. ap votes_or_none (lookup-insert id j (get_votes id g ++ v ∷ []) g.votes) ∙ ground arith)

pub create-IsTallied :
    (id : Bytes) (d : Draft) (now end_time : ℕ) (g : Governance)
    → IsTallied g
    → IsTallied (create_proposal id d now end_time g)
unfolding create_proposal weight_of
create-IsTallied id d now end_time g t =
    replaced-IsTallied id (proposal_of d now end_time) [] g (create_proposal id d now end_time g) t
      (record { for_votes = omega arith; against_votes = omega arith; once = tt }) refl
      (λ j. ap votes_or_none (lookup-insert id j [] g.votes) ∙ ground arith)

pub vote_on-IsTallied :
    (id : Bytes) (v : Vote) (found : Option Proposal) (g : Governance)
    → lookup id g.proposals ≡ found
    → IsTallied g
    → IsTallied (vote_on id v found g).0
vote_on-IsTallied id v none g e t = t
vote_on-IsTallied id v (some p) g e t =
    either IsTallied (ltb p.end_time v.timestamp) _ _ (λ late. t)
      (λ still.
        either IsTallied (has_voted v.voter (get_votes id g)) _ _ (λ again. t)
          (λ first. record_vote-IsTallied id v p g t (t id p e) first))

pub carry_out-IsTallied :
    (id : Bytes) (p : Proposal) (g : Governance)
    → lookup id g.proposals ≡ some p
    → IsTallied g
    → IsTallied (carry_out id p g).0
unfolding carry_out
carry_out-IsTallied id p g e t =
    let n = t id p e in
    let done = record p { status = Status.passed; is_executed = true } in
    let kept : Tallied done (get_votes id g) = record {
      for_votes = n.for_votes;
      against_votes = n.against_votes;
      once = n.once;
    } in
    either IsTallied (bytes_eq p.kind (ascii "treasury")) _ _
      (λ treasury.
        either IsTallied (ltb g.dao_treasury p.amount) _ _ (λ poor. t)
          (λ rich.
            mark-IsTallied id done (record g { dao_treasury = g.dao_treasury - p.amount }) t kept))
      (λ other.
        either IsTallied (bytes_eq p.kind (ascii "parameter") || bytes_eq p.kind (ascii "upgrade"))
          _ _ (λ known. mark-IsTallied id done g t kept) (λ unknown. t))
