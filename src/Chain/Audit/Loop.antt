-- ===== src/Chain/Audit/Loop.antt =====
-- `AuditChain` of blockchain/chain.go: the loop over the blocks, against the validation of a
-- candidate chain.
use neo_coin.Base.{
  ℕ, suc, ◌+◌, ◌≡◌, refl, ap, ◌∙◌, arith, false, ◌==◌, Option, none, some, List, [], ◌∷◌,
}
use neo_coin.Base.Int.{ℤ}
use neo_coin.Base.Result.{ok, ◌>>=◌, ◌>>◌, >>=-eq-ok}
use neo_coin.Types.{Block, ConsensusParams}
use neo_coin.Platform.{Platform}
use neo_coin.Difficulty.{work_for_difficulty_bits}
use neo_coin.Ledger.{State, Outcome, and_then, apply_block_to_state, apply_blocks}
use neo_coin.Chain.Path.{check_header, of_outcome, validate_from}
use neo_coin.Chain.PathLaws.{total_work, validate_from-cons}
use neo_coin.Chain.Audit.{audit_header, audit_block, audit_from}
use neo_coin.Chain.Audit.Headers.{
  AreBytes, IsPrevBytes, audit_header-check_header, check_header-audit_header,
}

same_end :
    (s s' : State) (work : ℕ)
    → ◌≡◌ {A = Outcome} (s, none) (s', none)
    → ◌≡◌ {A = State × ℕ} (s, work) (s', work + 0)
same_end s s' work h = let e : s ≡ s' = cc in rw e (ap (λ w. (s', w)) (omega arith))

module _ (P : Platform) (p : ConsensusParams) where
  audit_block-bits : (b : Block) → audit_block P p b ≡ ok tt → (b.difficulty_bits == 0) ≡ false
  unfolding audit_block
  audit_block-bits b h = ground arith

  -- Every block passes the tests of a block on its own.
  abbrev pub AllAudited : List Block → Type 0
  AllAudited [] = Unit {0}
  AllAudited (b ∷ bs) = (audit_block P p b ≡ ok tt) × AllAudited bs

  and_then-split :
      (s : State) (b : Block) (bs : List Block) (s' : State)
      → apply_blocks P p s (b ∷ bs) ≡ (s', none)
      → (s1 : State) × (apply_block_to_state P p s b ≡ (s1, none))
        × (apply_blocks P p s1 bs ≡ (s', none))
  unfolding apply_blocks
  and_then-split s b bs s' h = first (apply_block_to_state P p s b) refl h
    where
      first :
          (o : Outcome)
          → apply_block_to_state P p s b ≡ o
          → and_then o (λ s2. apply_blocks P p s2 bs) ≡ (s', none)
          → (s1 : State) × (apply_block_to_state P p s b ≡ (s1, none))
            × (apply_blocks P p s1 bs ≡ (s', none))
      first (s1, none) e h = (s1, e, h)
      first (s1, some x) e h = absurd (ground arith)

  module _ (now : ℤ) (path : List Block) where
    validate_from-step :
        (i : ℕ) (prev : Option Block) (b : Block) (bs : List Block) (s s1 : State) (work : ℕ)
        → check_header p now path i prev b ≡ ok tt
        → apply_block_to_state P p s b ≡ (s1, none)
        → validate_from P p now path i prev (b ∷ bs) s work
          ≡ validate_from P p now path
              (suc i)
              (some b)
              bs
              s1
              (work + work_for_difficulty_bits b.difficulty_bits)
    unfolding validate_from
    validate_from-step i prev b bs s s1 work h a =
        ap
          (λ r.
            r
            >> (of_outcome (apply_block_to_state P p s b) >>= (λ s'.
                validate_from P p now path (suc i) (some b) bs s'
                  (work + work_for_difficulty_bits b.difficulty_bits))))
          h
        ∙ ap
            (λ o. of_outcome o >>= (λ s'.
              validate_from P p now path (suc i) (some b) bs s'
                (work + work_for_difficulty_bits b.difficulty_bits)))
            a

    audit_from-parts :
        (i : ℕ) (prev : Option Block) (b : Block) (bs : List Block)
        → audit_from P p now path i prev (b ∷ bs) ≡ ok tt
        → (audit_header p now path i prev b ≡ ok tt)
          × (audit_block P p b ≡ ok tt)
          × (audit_from P p now path (suc i) (some b) bs ≡ ok tt)
    unfolding audit_from
    audit_from-parts i prev b bs h =
        let (u, header, more) = >>=-eq-ok (audit_header p now path i prev b) _ h in
        let (v, own, rest) = >>=-eq-ok (audit_block P p b) _ more in (header, own, rest)

    audit_from-step :
        (i : ℕ) (prev : Option Block) (b : Block) (bs : List Block)
        → audit_header p now path i prev b ≡ ok tt
        → audit_block P p b ≡ ok tt
        → audit_from P p now path (suc i) (some b) bs ≡ ok tt
        → audit_from P p now path i prev (b ∷ bs) ≡ ok tt
    unfolding audit_from
    audit_from-step i prev b bs h o r =
        ap (λ x. x >> (audit_block P p b >> audit_from P p now path (suc i) (some b) bs)) h
        ∙ ap (λ x. x >> audit_from P p now path (suc i) (some b) bs) o
        ∙ r

    pub audit_from-validates :
        (i : ℕ) (prev : Option Block) (bs : List Block) (s s' : State) (work : ℕ)
        → audit_from P p now path i prev bs ≡ ok tt
        → apply_blocks P p s bs ≡ (s', none)
        → (validate_from P p now path i prev bs s work ≡ ok (s', work + total_work bs))
          × AllAudited bs
    audit_from-validates i prev [] s s' work h a = (
      unfold validate_from in
          unfold apply_blocks in ap (λ (r : State × ℕ). ok r) (same_end s s' work a),
      tt,
    )
    audit_from-validates i prev (b ∷ bs) s s' work h a =
        let (header, own, rest) = audit_from-parts i prev b bs h in
        let (s1, applied, left) = and_then-split s b bs s' a in
        let (done, all) =
          audit_from-validates (suc i) (some b) bs s1 s'
            (work + work_for_difficulty_bits b.difficulty_bits) rest left in
        (
          validate_from-step i prev b bs s s1 work
                (audit_header-check_header p now path i prev b header (audit_block-bits b own))
                applied
              ∙ done
              ∙ ap (λ w. ok (s', w)) (omega arith),
          (own, all),
        )

    pub validates-audit_from :
        (i : ℕ) (prev : Option Block) (bs : List Block) (s s' : State) (work w : ℕ)
        → IsPrevBytes prev
        → AreBytes bs
        → AllAudited bs
        → validate_from P p now path i prev bs s work ≡ ok (s', w)
        → audit_from P p now path i prev bs ≡ ok tt
    validates-audit_from i prev [] s s' work w u v all h = unfold audit_from in refl
    validates-audit_from i prev (b ∷ bs) s s' work w u v all h =
        let (s1, header, applied, more) = validate_from-cons P p now path i prev b bs s work h in
        audit_from-step i prev b bs (check_header-audit_header p now path i prev b v.0 u header)
          all.0
          (validates-audit_from (suc i) (some b) bs s1 s'
            (work + work_for_difficulty_bits b.difficulty_bits) w v.1 v.2 all.1 more)
