-- ===== src/Chain/PathLaws.antt =====
-- What a validated candidate satisfies: its blocks are linked, its state is their replay from the
-- empty state, its work is their sum, and it ends at the tip.
use mathlib.Core.List.{reverse, reverse-reverse}
use mathlib.Core.Path.{subst}
use neo_coin.Base.{
  ℕ, suc, ◌+◌, ◌≡◌, refl, ap, sym, ◌∙◌, arith, Option, none, some, List, [], ◌∷◌, length,
}
use neo_coin.Base.Int.{ℤ}
use neo_coin.Base.Bytes.{Bytes, bytes_eq_iff, hex_encode}
use neo_coin.Base.Dict.{Dict, bytes_key, lookup}
use neo_coin.Base.Result.{Result, ok, err, >>=-eq-ok}
use neo_coin.Types.{Error, Block, ConsensusParams}
use neo_coin.Platform.{Platform}
use neo_coin.Difficulty.{work_for_difficulty_bits}
use neo_coin.Header.{block_version_for_height}
use neo_coin.Ledger.{State, Outcome, and_then, apply_block_to_state, apply_blocks}
use neo_coin.Chain.Walk.{ancestors, ancestors-head}
use neo_coin.Chain.Path.{
  Candidate, check_genesis, check_link, check_header, of_outcome, validate_from, validate_path,
  validate_walk, compute_canonical,
}

abbrev pub total_work : List Block → ℕ
total_work [] = 0
total_work (b ∷ bs) = work_for_difficulty_bits b.difficulty_bits + total_work bs

-- A block behind its predecessor, or the genesis.
abbrev pub IsNext : ConsensusParams → Option Block → Block → Type 0
IsNext p none b = (b.height ≡ 0) × (b.prev_hash ≡ []) × (b.version ≡ block_version_for_height p 0)
IsNext p (some prev) b =
    (b.height ≡ prev.height + 1)
    × (hex_encode b.prev_hash ≡ hex_encode prev.hash)
    × (b.version ≡ block_version_for_height p b.height)

abbrev pub Linked : ConsensusParams → Option Block → List Block → Type 0
Linked p prev [] = Unit {0}
Linked p prev (b ∷ bs) = IsNext p prev b × Linked p (some b) bs

check_genesis-IsNext :
    (p : ConsensusParams) (b : Block) → check_genesis p b ≡ ok tt → IsNext p none b
unfolding check_genesis
check_genesis-IsNext p b e = (ground arith, empty b.prev_hash (ground arith), ground arith)
  where
    empty : (xs : Bytes) → length xs ≡ 0 → xs ≡ []
    empty [] h = refl
    empty (x ∷ xs) h = absurd (omega arith)

check_link-IsNext :
    (p : ConsensusParams) (now : ℤ) (path : List Block) (i : ℕ) (prev b : Block)
    → check_link p now path i prev b ≡ ok tt
    → IsNext p (some prev) b
unfolding check_link
check_link-IsNext p now path i prev b e =
    (ground arith, (bytes_eq_iff _ _).0 (ground arith), ground arith)

check_header-IsNext :
    (p : ConsensusParams) (now : ℤ) (path : List Block) (i : ℕ) (prev : Option Block) (b : Block)
    → check_header p now path i prev b ≡ ok tt
    → IsNext p prev b
check_header-IsNext p now path i none b e = check_genesis-IsNext p b e
check_header-IsNext p now path i (some prev) b e = check_link-IsNext p now path i prev b e

of_outcome-ok : (o : Outcome) {s : State} → of_outcome o ≡ ok s → o ≡ (s, none)
of_outcome-ok (s, none) e = ground arith
of_outcome-ok (s, some x) e = cc

module _ (P : Platform) (p : ConsensusParams) where
  -- A canonical chain and what is kept of it.
  pub record IsReplay (path : List Block) (s : State) (work : ℕ) : Type 0 where
    pub replayed : apply_blocks P p [] path ≡ (s, none)
    pub worked : work ≡ total_work path
    pub linked : Linked p none path

  pub record Extends (prev : Option Block) (bs : List Block) (s s' : State) (work work' : ℕ)
      : Type 0 where
    pub replayed : apply_blocks P p s bs ≡ (s', none)
    pub worked : work' ≡ work + total_work bs
    pub linked : Linked p prev bs

  pub apply_blocks-step :
      (s : State) (b : Block) (bs : List Block) {s1 : State}
      → apply_block_to_state P p s b ≡ (s1, none)
      → apply_blocks P p s (b ∷ bs) ≡ apply_blocks P p s1 bs
  unfolding apply_blocks
  apply_blocks-step s b bs e = ap (λ o. and_then o (λ s2. apply_blocks P p s2 bs)) e

  -- The path and what belongs to it.
  pub record IsCanonical (tree : Dict Bytes Block) (tip : Bytes) (path : List Block) (s : State)
      (work : ℕ) : Type 0 where
    pub replay : IsReplay path s work
    pub tip_block : Block
    pub found : lookup tip tree ≡ some tip_block
    pub below : List Block
    pub ends : reverse path ≡ tip_block ∷ below

  module _ (now : ℤ) where
    validate_from-nil :
        (path : List Block) (i : ℕ) (prev : Option Block) (s : State) (work : ℕ) {s' : State}
        {w : ℕ}
        → validate_from P p now path i prev [] s work ≡ ok (s', w)
        → (s ≡ s') × (work ≡ w)
    unfolding validate_from
    validate_from-nil path i prev s work e = (cc, cc)

    pub validate_from-cons :
        (path : List Block) (i : ℕ) (prev : Option Block) (b : Block) (bs : List Block) (s : State)
        (work : ℕ) {r : State × ℕ}
        → validate_from P p now path i prev (b ∷ bs) s work ≡ ok r
        → (s1 : State) × (check_header p now path i prev b ≡ ok tt)
          × (apply_block_to_state P p s b ≡ (s1, none))
          × (validate_from P p now path
                (suc i)
                (some b)
                bs
                s1
                (work + work_for_difficulty_bits b.difficulty_bits)
              ≡ ok r)
    unfolding validate_from
    validate_from-cons path i prev b bs s work e =
        let (u, header, rest) = >>=-eq-ok (check_header p now path i prev b) _ e in
        let (s1, applied, more) = >>=-eq-ok (of_outcome (apply_block_to_state P p s b)) _ rest in
        (s1, header, of_outcome-ok (apply_block_to_state P p s b) applied, more)

    pub validate_from-Extends :
        (path : List Block) (i : ℕ) (prev : Option Block) (bs : List Block) (s : State) (work : ℕ)
        {s' : State} {w : ℕ}
        → validate_from P p now path i prev bs s work ≡ ok (s', w)
        → Extends prev bs s s' work w
    validate_from-Extends path i prev [] s work e =
        let (same, sum) = validate_from-nil path i prev s work e in
        record {
          replayed = unfold apply_blocks in ap (λ (x : State). (x, none)) same;
          worked = omega (arith, sum);
          linked = tt;
        }
    validate_from-Extends path i prev (b ∷ bs) s work e =
        let (s1, header, applied, more) = validate_from-cons path i prev b bs s work e in
        let rest =
          validate_from-Extends path (suc i) (some b) bs s1
            (work + work_for_difficulty_bits b.difficulty_bits) more in
        record {
          replayed = apply_blocks-step s b bs applied ∙ rest.replayed;
          worked = omega (arith, rest.worked);
          linked = (check_header-IsNext p now path i prev b header, rest.linked);
        }

    -- A path that validates is its result's, and its loop ended well.
    pub validate_path-valid :
        (path : List Block) {path' : List Block} {s : State} {w : ℕ}
        → validate_path P p now path ≡ ok (path', s, w)
        → validate_from P p now path' 0 none path' [] 0 ≡ ok (s, w)
    unfolding validate_path
    validate_path-valid path {path'} {s} {w} e =
        let (r, valid, same) = >>=-eq-ok (validate_from P p now path 0 none path [] 0) _ e in
        let parts : ◌≡◌ {A = Candidate} (path, r.0, r.1) (path', s, w) = cc same in
        subst (λ (c : Candidate). validate_from P p now c.0 0 none c.0 [] 0 ≡ ok (c.1, c.2)) parts
          valid

    validate_path-IsReplay :
        (path : List Block) {path' : List Block} {s : State} {w : ℕ}
        → validate_path P p now path ≡ ok (path', s, w)
        → (path ≡ path') × IsReplay path' s w
    unfolding validate_path
    validate_path-IsReplay path {path'} {s} {w} e =
        let (r, valid, same) = >>=-eq-ok (validate_from P p now path 0 none path [] 0) _ e in
        let whole = validate_from-Extends path 0 none path [] 0 valid in
        let built : IsReplay path r.0 r.1 = record {
          replayed = whole.replayed;
          worked = omega (arith, whole.worked);
          linked = whole.linked;
        } in
        let parts : ◌≡◌ {A = Candidate} (path, r.0, r.1) (path', s, w) = cc same in
        (
          ap (λ (c : Candidate). c.0) parts,
          subst (λ (c : Candidate). IsReplay c.0 c.1 c.2) parts built,
        )

    pub validate_walk-parts :
        (o : Option (Result Error (List Block))) {c : Candidate}
        → validate_walk P p now o ≡ ok c
        → (rev : List Block) × (o ≡ some (ok rev)) × (validate_path P p now (reverse rev) ≡ ok c)
    validate_walk-parts none e = cc
    validate_walk-parts (some (ok rev)) e = (rev, refl, e)
    validate_walk-parts (some (err x)) e = cc

    -- A candidate that validates: its blocks are linked from a genesis to the tip's block, its
    -- state is their replay from the empty state and its work is the sum of theirs.
    pub compute_canonical-IsCanonical :
        (tree : Dict Bytes Block) (tip : Bytes) {path : List Block} {s : State} {w : ℕ}
        → compute_canonical P p now tree tip ≡ ok (path, s, w)
        → IsCanonical tree tip path s w
    unfolding compute_canonical
    compute_canonical-IsCanonical tree tip {path} e =
        let (rev, walked, valid) =
          validate_walk-parts (ancestors (suc (length tree)) tree [] tip) e in
        let (b, rest, found, shape) = ancestors-head (length tree) tree tip walked in
        let (same, replay) = validate_path-IsReplay (reverse rev) valid in
        record {
          replay = replay;
          tip_block = b;
          found = found;
          below = rest;
          ends = ap reverse (sym same) ∙ reverse-reverse rev ∙ shape;
        }
