-- ===== src/Governance/Calls.antt =====
-- The tallies through every call, and so through every history of calls.
use neo_coin.Base.{ℕ, ◌≡◌, refl, Bool, ltb, Option, none, some, List, [], ◌∷◌}
use neo_coin.Base.Words.{add64}
use neo_coin.Base.Bytes.{Bytes}
use neo_coin.Base.Dict.{bytes_key, lookup}
use neo_coin.Governance.{
  Status, Proposal, Governance, new_governance, mark, vote, execute_found, execute_proposal,
  add_to_treasury, Call, create, cast, execute, deposit, perform, perform_all,
}
use neo_coin.Governance.Tally.{
  IsTallied, either, create-IsTallied, vote_on-IsTallied, mark-IsTallied, carry_out-IsTallied,
}

reject-IsTallied :
    (id : Bytes) (p : Proposal) (g : Governance)
    → lookup id g.proposals ≡ some p
    → IsTallied g
    → IsTallied (mark id (record p { status = Status.rejected }) g)
reject-IsTallied id p g e t =
    let n = t id p e in
    mark-IsTallied id (record p { status = Status.rejected }) g t
      (record { for_votes = n.for_votes; against_votes = n.against_votes; once = n.once })

module _ (rate_below : ℕ → ℕ → Bool) where
  execute_found-IsTallied :
      (id : Bytes) (now : ℕ) (found : Option Proposal) (g : Governance)
      → lookup id g.proposals ≡ found
      → IsTallied g
      → IsTallied (execute_found rate_below id now found g).0
  execute_found-IsTallied id now none g e t = t
  execute_found-IsTallied id now (some p) g e t =
      let total_votes = add64 p.votes_for p.votes_against in
      either IsTallied p.is_executed _ _ (λ done. t)
        (λ a.
          either IsTallied (ltb now p.end_time) _ _ (λ early. t)
            (λ b.
              either IsTallied (ltb total_votes g.min_quorum) _ _
                (λ few. reject-IsTallied id p g e t)
                (λ c.
                  either IsTallied (rate_below p.votes_for total_votes) _ _
                    (λ low. reject-IsTallied id p g e t) (λ d. carry_out-IsTallied id p g e t))))

  perform-IsTallied : (c : Call) (g : Governance) → IsTallied g → IsTallied (perform rate_below c g)
  unfolding perform vote execute_proposal add_to_treasury
  perform-IsTallied (create id d now end_time) g t = create-IsTallied id d now end_time g t
  perform-IsTallied (cast id v) g t = vote_on-IsTallied id v (lookup id g.proposals) g refl t
  perform-IsTallied (execute id now) g t =
      execute_found-IsTallied id now (lookup id g.proposals) g refl t
  perform-IsTallied (deposit amount) g t = t

  all-IsTallied :
      (cs : List Call) (g : Governance) → IsTallied g → IsTallied (perform_all rate_below cs g)
  unfolding perform_all
  all-IsTallied [] g t = t
  all-IsTallied (c ∷ cs) g t = all-IsTallied cs (perform rate_below c g) (perform-IsTallied c g t)

  -- After any sequence of calls the tallies of each proposal are the weights of the votes recorded
  -- for it, modulo 2 ^ 64, and no voter stands twice among them.
  pub perform_all-IsTallied :
      (cs : List Call) → IsTallied (perform_all rate_below cs new_governance)
  unfolding lookup
  perform_all-IsTallied cs = all-IsTallied cs new_governance (λ id p e. cc)
