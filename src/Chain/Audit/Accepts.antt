-- ===== src/Chain/Audit/Accepts.antt =====
-- What the audit accepts is what a reorganisation would accept, with the tests of each block on its
-- own.
use neo_coin.Base.{
  ℕ, ◌+◌, ◌<◌, ◌≡◌, ◌↔◌, refl, sym, ap, ◌∙◌, arith, false, ◌==◌, Option, none, List, [], length,
  Bool-cases, inl, inr,
}
use neo_coin.Base.Int.{ℤ}
use neo_coin.Base.Result.{Result, ok, err, ◌>>=◌, >>=-eq-ok}
use neo_coin.Types.{Error, Block, ConsensusParams}
use neo_coin.Platform.{Platform}
use neo_coin.Ledger.{State, Outcome, apply_blocks}
use neo_coin.Chain.{Blockchain}
use neo_coin.Chain.Path.{validate_from, validate_path, Candidate}
use neo_coin.Chain.PathLaws.{total_work, validate_from-Extends}
use neo_coin.Chain.Audit.{audit_from, recompute_state, audited, audit_chain}
use neo_coin.Chain.Audit.Headers.{AreBytes}
use neo_coin.Chain.Audit.Loop.{AllAudited, audit_from-validates, validates-audit_from}

module _ (P : Platform) where
  audited-parts :
      (r : Result Error (Unit {0})) (bc bc' : Blockchain)
      → audited P r bc ≡ (bc', none)
      → (r ≡ ok tt) × (recompute_state P bc ≡ (bc', none))
  audited-parts (ok tt) bc bc' h = (refl, h)
  audited-parts (err e) bc bc' h = absurd (ground arith)

  audit_chain-parts :
      (now : ℤ) (bc bc' : Blockchain)
      → audit_chain P now bc ≡ (bc', none)
      → (audit_from P bc.consensus now bc.blocks 0 none bc.blocks ≡ ok tt)
        × (recompute_state P bc ≡ (bc', none))
  unfolding audit_chain
  audit_chain-parts now bc bc' h = elim (Bool-cases (length bc.blocks == 0)) [
    | inl empty ↦ absurd (ground arith)
    | inr filled ↦
        audited-parts (audit_from P bc.consensus now bc.blocks 0 none bc.blocks) bc bc'
          (ground arith)
  ]

  audit_chain_of_parts :
      (now : ℤ) (bc : Blockchain)
      → 0 < length bc.blocks
      → audit_from P bc.consensus now bc.blocks 0 none bc.blocks ≡ ok tt
      → audit_chain P now bc ≡ recompute_state P bc
  unfolding audit_chain
  audit_chain_of_parts now bc some_block h =
      let filled : (length bc.blocks == 0) ≡ false = ground arith in
      rw filled (ap (λ r. audited P r bc) h)

  recompute-parts :
      (bc bc' : Blockchain)
      → recompute_state P bc ≡ (bc', none)
      → (apply_blocks P bc.consensus [] bc.blocks ≡ (bc'.state, none))
        × (bc' ≡ record bc { state = bc'.state })
  unfolding recompute_state
  recompute-parts bc bc' h =
      let replayed : Outcome = apply_blocks P bc.consensus [] bc.blocks in
      let same : record bc { state = replayed.0 } ≡ bc' =
        ap (λ (o : Blockchain × Option Error). o.0) h in
      let state : replayed.0 ≡ bc'.state = ap (λ (c : Blockchain). c.state) same in
      let error : replayed.1 ≡ none = ap (λ (o : Blockchain × Option Error). o.1) h in
      (λ i. (state i, error i), sym same ∙ ap (λ (x : State). record bc { state = x }) state)

  -- The audit of a chain with a block, with its state replayed to `s` and its work `w`.
  pub record IsSound (now : ℤ) (bc : Blockchain) (s : State) (w : ℕ) : Type 0 where
    pub valid : validate_path P bc.consensus now bc.blocks ≡ ok (bc.blocks, s, w)
    pub own : AllAudited P bc.consensus bc.blocks

  validate_path_of_from :
      (p : ConsensusParams) (now : ℤ) (path : List Block) (s : State) (w : ℕ)
      → validate_from P p now path 0 none path [] 0 ≡ ok (s, w)
      → validate_path P p now path ≡ ok (path, s, w)
  unfolding validate_path
  validate_path_of_from p now path s w h = ap (λ r. r >>= (λ c. ok (path, c.0, c.1))) h

  validate_from_of_path :
      (p : ConsensusParams) (now : ℤ) (path : List Block) (s : State) (w : ℕ)
      → validate_path P p now path ≡ ok (path, s, w)
      → validate_from P p now path 0 none path [] 0 ≡ ok (s, w)
  unfolding validate_path
  validate_from_of_path p now path s w h =
      let (r, valid, same) = >>=-eq-ok (validate_from P p now path 0 none path [] 0) _ h in
      let parts : ◌≡◌ {A = Candidate} (path, r.0, r.1) (path, s, w) = cc same in
      valid ∙ ap (λ (c : Candidate). ok (c.1, c.2)) parts

  recomputed :
      (now : ℤ) (bc : Blockchain) (s : State) (w : ℕ)
      → validate_path P bc.consensus now bc.blocks ≡ ok (bc.blocks, s, w)
      → recompute_state P bc ≡ (record bc { state = s }, none)
  unfolding recompute_state
  recomputed now bc s w h =
      let whole =
        validate_from-Extends P bc.consensus now bc.blocks 0 none bc.blocks [] 0
          (validate_from_of_path bc.consensus now bc.blocks s w h) in
      ap (λ (o : Outcome). (record bc { state = o.0 }, o.1)) whole.replayed

  -- For a chain with a block and with byte strings for hashes: the audit succeeds and leaves the
  -- state `s` exactly when `computeCanonicalForTipLocked` would accept the chain with this state,
  -- and each block passes the tests of difficulty range, proof of work and transactions.
  pub audit_chain_iff :
      (now : ℤ) (bc : Blockchain) (s : State)
      → 0 < length bc.blocks
      → AreBytes bc.blocks
      → (audit_chain P now bc ≡ (record bc { state = s }, none)) ↔ ((w : ℕ) × IsSound now bc s w)
  audit_chain_iff now bc s some_block bytes = (forth, back)
    where
      forth : audit_chain P now bc ≡ (record bc { state = s }, none) → (w : ℕ) × IsSound now bc s w
      forth h =
          let (done, replay) = audit_chain-parts now bc (record bc { state = s }) h in
          let (applied, same) = recompute-parts bc (record bc { state = s }) replay in
          let (valid, own) =
            audit_from-validates P bc.consensus now bc.blocks 0 none bc.blocks [] s 0 done
              applied in
          (
            0 + total_work bc.blocks,
            record {
              valid =
                  validate_path_of_from bc.consensus now bc.blocks s (0 + total_work bc.blocks)
                    valid;
              own = own;
            },
          )

      back : (w : ℕ) × IsSound now bc s w → audit_chain P now bc ≡ (record bc { state = s }, none)
      back (w, sound) =
          let done =
            validates-audit_from P bc.consensus now bc.blocks 0 none bc.blocks [] s 0 w tt bytes
              sound.own (validate_from_of_path bc.consensus now bc.blocks s w sound.valid) in
          audit_chain_of_parts now bc some_block done ∙ recomputed now bc s w sound.valid
