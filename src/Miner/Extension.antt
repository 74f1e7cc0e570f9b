-- ===== src/Miner/Extension.antt =====
-- What `MineTransfers` of blockchain/chain.go returns: a block that every node can check, on top of
-- a chain that stays valid.
use mathlib.Core.Path.{subst}
use mathlib.Core.List.{get_last?}
use neo_coin.Base.{
  ℕ, ◌+◌, ◌^◌, ◌<◌, ◌≡◌, refl, ap, sym, ◌∙◌, arith, Bool, true, false, ◌==◌, Option, none, some,
  List, [], ◌∷◌, ◌++◌, length, inl, inr,
}
use neo_coin.Base.Int.{ℤ}
use neo_coin.Base.Words.{add64, add64_fits}
use neo_coin.Base.Bytes.{Bytes}
use neo_coin.Base.Result.{Result, ok, err, Result-cases}
use neo_coin.Types.{Error, Transaction, Block}
use neo_coin.Platform.{Platform}
use neo_coin.Ledger.{State, Outcome, apply_block_to_state}
use neo_coin.Difficulty.{next_difficulty_bits}
use neo_coin.Header.{pow_run, pow_validate}
use neo_coin.Header.Mining.{run_loop-Solves, pow_run-pow_validate}
use neo_coin.Chain.{Blockchain}
use neo_coin.Chain.PathLaws.{IsNext}
use neo_coin.Chain.AddLaws.{IsValid}
use neo_coin.Miner.Mine.{
  Mined, not_mined, check_mined, block_template, append_block, add_to_index, seal, settle_block,
  settle_search, mine_template, mine_on, mine_transfers, mined_coinbase,
}
use neo_coin.Miner.MineLaws.{append_block-IsValid}

module _ (P : Platform) (bc : Blockchain) where
  pub record IsSettled (b b' : Block) (o : Outcome) (m : Mined) : Type 0 where
    pub state : State
    pub applied : o ≡ (state, none)
    pub same : b' ≡ b
    pub chain_is : m.chain ≡ append_block P bc b state

  settle_block-IsSettled :
      (written : Bool) (b : Block) (o : Outcome) {b' : Block}
      → (settle_block P written bc b o).answer ≡ ok b'
      → IsSettled b b' o (settle_block P written bc b o)
  settle_block-IsSettled written b (s, some e) h = cc
  settle_block-IsSettled true b (s, none) h = record {
    state = s;
    applied = refl;
    same = cc;
    chain_is = refl;
  }
  settle_block-IsSettled false b (s, none) h = cc

  -- A search that ends in a block has found a nonce and a hash, and the block that carries them is
  -- settled.
  pub record IsFound (b b' : Block) (o : Option (Result Error (ℕ × Bytes))) (m : Mined)
      : Type 0 where
    pub found : ℕ × Bytes
    pub returned : o ≡ some (ok found)
    pub settled :
        IsSettled
          (seal P b found)
          b'
          (apply_block_to_state P bc.consensus bc.state (seal P b found))
          m

  settle_search-IsFound :
      (written : Bool) (b : Block) (o : Option (Result Error (ℕ × Bytes))) {m : Mined} {b' : Block}
      → settle_search P written bc b o ≡ some m
      → m.answer ≡ ok b'
      → IsFound b b' o m
  settle_search-IsFound written b none e h = cc
  settle_search-IsFound written b (some (err x)) {m} {b'} e h =
      let same : not_mined bc x ≡ m = cc in
      let wrong : err x ≡ ok b' = ap (λ y. y.answer) same ∙ h in cc
  settle_search-IsFound written b (some (ok found)) {m} {b'} e h =
      let o = apply_block_to_state P bc.consensus bc.state (seal P b found) in
      let same : settle_block P written bc (seal P b found) o ≡ m = cc in
      record {
        found = found;
        returned = refl;
        settled =
            subst (IsSettled (seal P b found) b' o) same
              (settle_block-IsSettled written (seal P b found) o (ap (λ y. y.answer) same ∙ h));
      }

  mine_template-IsFound :
      (fuel : ℕ) (written : Bool) (now : ℤ) (latest : Block) (transfers : List Transaction)
      (fees : ℕ) (bits : Option ℕ) {m : Mined} {b' : Block}
      → mine_template P fuel written now bc latest transfers fees bits ≡ some m
      → m.answer ≡ ok b'
      → (n : ℕ) × IsFound
          (block_template now bc latest transfers fees n)
          b'
          (pow_run P bc.consensus fuel (block_template now bc latest transfers fees n))
          m
  mine_template-IsFound fuel written now latest transfers fees none {m} {b'} e h =
      let same : not_mined bc Error.difficulty_calc_failed ≡ m = cc in
      let wrong : err Error.difficulty_calc_failed ≡ ok b' = ap (λ y. y.answer) same ∙ h in cc
  mine_template-IsFound fuel written now latest transfers fees (some n) e h = (
    n,
    settle_search-IsFound written (block_template now bc latest transfers fees n)
        (pow_run P bc.consensus fuel (block_template now bc latest transfers fees n)) e h,
  )

  found_hash-length :
      (fuel : ℕ) (b : Block) {x : ℕ × Bytes}
      → pow_run P bc.consensus fuel b ≡ some (ok x)
      → (length x.1 == 0) ≡ false
  unfolding pow_run
  found_hash-length fuel b {x} e =
      let solved = run_loop-Solves P bc.consensus fuel b 0 e in
      ground (arith, ap length solved.hashed, P.length-sha256 solved.header)

  -- What a mined block and the chain that holds it satisfy.
  pub record IsMined (transfers : List Transaction) (b : Block) (m : Mined) : Type 0 where
    pub valid : IsValid P m.chain
    pub appended : m.chain.blocks ≡ bc.blocks ++ b ∷ []
    pub sealed : pow_validate P bc.consensus b ≡ ok true
    pub coinbase : Transaction
    pub body : b.transactions ≡ coinbase ∷ transfers

  module _ (h : IsValid P bc) (latest : Block) (last : get_last? bc.blocks ≡ some latest)
      (height_fits : latest.height + 1 < 2 ^ 64) where
    template-IsNext :
        (now : ℤ) (transfers : List Transaction) (fees n : ℕ) (found : ℕ × Bytes)
        → IsNext bc.consensus
            (some latest)
            (seal P (block_template now bc latest transfers fees n) found)
    unfolding block_template
    template-IsNext now transfers fees n found =
        (add64_fits latest.height 1 height_fits, refl, refl)

    IsFound-IsMined :
        (fuel : ℕ) (now : ℤ) (transfers : List Transaction) (fees n : ℕ) {b : Block} {m : Mined}
        → IsFound
            (block_template now bc latest transfers fees n)
            b
            (pow_run P bc.consensus fuel (block_template now bc latest transfers fees n))
            m
        → IsMined transfers b m
    unfolding append_block add_to_index block_template
    IsFound-IsMined fuel now transfers fees n {b} {m} found =
        let settled = found.settled in
        let template = block_template now bc latest transfers fees n in
        let mined = seal P template found.found in
        let hashed : (length mined.hash == 0) ≡ false =
          found_hash-length fuel template found.returned in
        let whole : IsMined transfers mined m = record {
          valid = subst (IsValid P) (sym settled.chain_is) (
              append_block-IsValid P bc latest mined settled.state h last
                (template-IsNext now transfers fees n found.found) hashed settled.applied);
          appended = ap (λ c. c.blocks) settled.chain_is;
          sealed = pow_run-pow_validate P bc.consensus fuel template refl found.returned;
          coinbase = mined_coinbase bc (add64 latest.height 1) fees;
          body = refl;
        } in
        subst (λ x. IsMined transfers x m) (sym settled.same) whole

    mine_on-IsMined :
        (fuel : ℕ) (written : Bool) (now : ℤ) (transfers : List Transaction) {m : Mined} {b : Block}
        → mine_on P fuel written now bc transfers latest ≡ some m
        → m.answer ≡ ok b
        → IsMined transfers b m
    mine_on-IsMined fuel written now transfers {m} {b} e answer =
        elim (Result-cases (check_mined P bc (add64 latest.height 1) transfers 0)) [
          | inr (x, failed) ↦
              let same : not_mined bc x ≡ m = ground (arith, failed, e) in
              let wrong : err x ≡ ok b = ap (λ y. y.answer) same ∙ answer in cc
          | inl (fees, passed) ↦
              let template : mine_template P fuel written now bc latest transfers fees
                    (next_difficulty_bits bc.consensus bc.blocks)
                  ≡ some m =
                rw (passed, mine_on) at e in
              let (n, found) =
                mine_template-IsFound fuel written now latest transfers fees
                  (next_difficulty_bits bc.consensus bc.blocks) template answer in
              IsFound-IsMined fuel now transfers fees n found
        ]

-- When `MineTransfers` returns a block on a valid chain whose next height fits 64 bits: the chain is
-- valid again and ends in that block, the block's body is a coinbase and the given transfers, and it
-- passes the proof-of-work check.
pub mine_transfers-IsMined :
    (P : Platform) (fuel : ℕ) (written : Bool) (now : ℤ) (bc : Blockchain)
    (transfers : List Transaction) (latest : Block) {m : Mined} {b : Block}
    → IsValid P bc
    → get_last? bc.blocks ≡ some latest
    → latest.height + 1 < 2 ^ 64
    → mine_transfers P fuel written now bc transfers ≡ some m
    → m.answer ≡ ok b
    → IsMined P bc transfers b m
unfolding mine_transfers
mine_transfers-IsMined P fuel written now bc transfers latest {m} h last fits e answer =
    let on : mine_on P fuel written now bc transfers latest ≡ some m =
      rw (last, mine_transfers) at e in
    mine_on-IsMined P bc h latest last fits fuel written now transfers on answer
