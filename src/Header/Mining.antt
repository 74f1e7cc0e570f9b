-- ===== src/Header/Mining.antt =====
-- Mining and validation agree, and the search ends when there is a nonce to find.
use neo_coin.Base.{
  ℕ, zero, suc, ◌+◌, ◌≤◌, ◌<◌, ◌^◌, ◌≡◌, ◌≢◌, refl, ap, sym, ◌∙◌, arith, true, false, not, ◌&&◌,
  ◌==◌, [], length, some, Bool-cases, inl, inr,
}
use mathlib.Core.Path.{subst}
use neo_coin.Base.Words.{add64, add64_fits}
use neo_coin.Base.Bytes.{Bytes, bytes_eq, bytes_eq_iff}
use neo_coin.Base.Result.{Result, ok, err, Result-cases}
use neo_coin.Types.{Error, Block, ConsensusParams}
use neo_coin.Platform.{Platform}
use neo_coin.Header.{header_bytes, meets_target, run_loop, pow_run, pow_validate}

module _ (P : Platform) (p : ConsensusParams) where
  -- The block that `Run` returns its nonce and hash for.
  abbrev pub sealed_by : Block → ℕ → Bytes → Block
  sealed_by b n h = record b { nonce = n; hash = h }

  -- The header does not depend on the nonce and the hash that are stored in the block.
  header_bytes-sealed_by :
      (b : Block) (n : ℕ) (h : Bytes)
      → b.hash ≡ []
      → length h ≡ 32
      → header_bytes P p (sealed_by b n h) n ≡ header_bytes P p b n
  unfolding header_bytes
  header_bytes-sealed_by b n h empty sized =
      let none_stored : (not (length b.hash == 0) && not (length b.hash == 32)) ≡ false =
        ground (arith, ap length empty) in
      let whole : (not (length h == 0) && not (length h == 32)) ≡ false = ground (arith, sized) in
      rw (whole, none_stored)

  -- The header of a nonce, as far as the search looks at it.
  pub record Solves (b : Block) (n : ℕ) (h : Bytes) : Type 0 where
    pub header : Bytes
    pub encoded : header_bytes P p b n ≡ ok header
    pub hashed : h ≡ P.sha256 header
    pub meets : meets_target P p b h ≡ true

  run_loop_hit :
      (fuel : ℕ) (b : Block) (start : ℕ) {header : Bytes}
      → header_bytes P p b start ≡ ok header
      → meets_target P p b (P.sha256 header) ≡ true
      → run_loop P p (suc fuel) b start ≡ some (ok (start, P.sha256 header))
  unfolding run_loop
  run_loop_hit fuel b start encoded hit = rw (encoded, run_loop) (rw hit)

  run_loop_miss :
      (fuel : ℕ) (b : Block) (start : ℕ) {header : Bytes}
      → header_bytes P p b start ≡ ok header
      → meets_target P p b (P.sha256 header) ≡ false
      → run_loop P p (suc fuel) b start ≡ run_loop P p fuel b (add64 start 1)
  unfolding run_loop
  run_loop_miss fuel b start encoded miss = rw (encoded, run_loop) (rw miss)

  run_loop_fails :
      (fuel : ℕ) (b : Block) (start : ℕ) {x : Error}
      → header_bytes P p b start ≡ err x
      → run_loop P p (suc fuel) b start ≡ some (err x)
  unfolding run_loop
  run_loop_fails fuel b start failed = rw (failed, run_loop)

  pub run_loop-Solves :
      (fuel : ℕ) (b : Block) (start : ℕ) {n : ℕ} {h : Bytes}
      → run_loop P p fuel b start ≡ some (ok (n, h))
      → Solves b n h
  run_loop-Solves zero b start e = unfold run_loop in cc
  run_loop-Solves (suc fuel) b start {n} {h} e = elim (Result-cases (header_bytes P p b start)) [
    | inl (header, encoded) ↦ elim (Bool-cases (meets_target P p b (P.sha256 header))) [
      | inl hit ↦
          let found = sym (run_loop_hit fuel b start encoded hit) ∙ e in
          let at_start : start ≡ n = cc found in
          let hash : P.sha256 header ≡ h = cc found in
          record {
            header = header;
            encoded = subst (λ k. header_bytes P p b k ≡ ok header) at_start encoded;
            hashed = sym hash;
            meets = subst (λ k. meets_target P p b k ≡ true) hash hit;
          }
      | inr miss ↦
          run_loop-Solves fuel b (add64 start 1) (sym (run_loop_miss fuel b start encoded miss) ∙ e)
    ]
    | inr (x, failed) ↦ absurd (ground (arith, run_loop_fails fuel b start failed, e))
  ]

  meets_target-sealed_by :
      (b : Block) (n : ℕ) (h x : Bytes)
      → meets_target P p (sealed_by b n h) x ≡ meets_target P p b x
  unfolding meets_target
  meets_target-sealed_by b n h x = refl

  Solves-pow_validate :
      (b : Block) (n : ℕ) (h : Bytes)
      → b.hash ≡ []
      → Solves b n h
      → pow_validate P p (sealed_by b n h) ≡ ok true
  unfolding pow_validate
  Solves-pow_validate b n h empty s =
      let sized : length h ≡ 32 = ap length s.hashed ∙ P.length-sha256 s.header in
      let same = header_bytes-sealed_by b n h empty sized ∙ s.encoded in
      let stored : bytes_eq h (P.sha256 s.header) ≡ true =
        (bytes_eq_iff h (P.sha256 s.header)).1 s.hashed in
      let meets =
        meets_target-sealed_by b n h (P.sha256 s.header)
        ∙ ap (meets_target P p b) (sym s.hashed)
        ∙ s.meets in
      rw (same, stored, meets) (ground arith)

  -- When the search for a block without a stored hash returns a nonce and a hash, the block that
  -- carries both passes the proof-of-work check.
  pub pow_run-pow_validate :
      (fuel : ℕ) (b : Block) {n : ℕ} {h : Bytes}
      → b.hash ≡ []
      → pow_run P p fuel b ≡ some (ok (n, h))
      → pow_validate P p (sealed_by b n h) ≡ ok true
  unfolding pow_run
  pow_run-pow_validate fuel b {n} {h} empty e =
      Solves-pow_validate b n h empty (run_loop-Solves fuel b 0 e)

  misses_hit :
      (b : Block) (start k : ℕ) {header header' : Bytes}
      → header_bytes P p b k ≡ ok header
      → header_bytes P p b start ≡ ok header'
      → meets_target P p b (P.sha256 header) ≡ true
      → meets_target P p b (P.sha256 header') ≡ false
      → start ≢ k
  misses_hit b start k encoded encoded' hit miss same = cc (ap (header_bytes P p b) same)

  run_loop_returns :
      (fuel : ℕ) (b : Block) (start k : ℕ) {header : Bytes}
      → start ≤ k
      → k < start + fuel
      → k < 2 ^ 64
      → header_bytes P p b k ≡ ok header
      → meets_target P p b (P.sha256 header) ≡ true
      → (r : Result Error (ℕ × Bytes)) × (run_loop P p fuel b start ≡ some r)
  run_loop_returns zero b start k lo hi word encoded hit = absurd (omega arith)
  run_loop_returns (suc fuel) b start k lo hi word encoded hit =
      elim (Result-cases (header_bytes P p b start)) [
        | inl (header', encoded') ↦ elim (Bool-cases (meets_target P p b (P.sha256 header'))) [
          | inl hit' ↦ (ok (start, P.sha256 header'), run_loop_hit fuel b start encoded' hit')
          | inr miss ↦
              let later : start ≢ k = λ same. misses_hit b start k encoded encoded' hit miss same in
              let next = add64_fits start 1 (omega arith) in
              let (r, e) =
                run_loop_returns fuel b (add64 start 1) k (omega (arith, next))
                  (omega (arith, next)) word encoded hit in
              (r, run_loop_miss fuel b start encoded' miss ∙ e)
        ]
        | inr (x, failed) ↦ (err x, run_loop_fails fuel b start failed)
      ]

  -- If a nonce below the fuel has a header whose hash meets the target, the search returns.
  pub pow_run_returns :
      (fuel : ℕ) (b : Block) (k : ℕ) {header : Bytes}
      → k < fuel
      → k < 2 ^ 64
      → header_bytes P p b k ≡ ok header
      → meets_target P p b (P.sha256 header) ≡ true
      → (r : Result Error (ℕ × Bytes)) × (pow_run P p fuel b ≡ some r)
  unfolding pow_run
  pow_run_returns fuel b k lt word encoded hit =
      run_loop_returns fuel b 0 k (omega arith) (omega arith) word encoded hit
