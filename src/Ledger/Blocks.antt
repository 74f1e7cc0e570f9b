-- ===== src/Ledger/Blocks.antt =====
-- A block's effect on the supply.
use neo_coin.Base.{
  inl, inr, ℕ, suc, ◌+◌, ◌<◌, ◌^◌, ◌≡◌, refl, ap, ◌∙◌, arith, true, not, ◌==◌, List, [], ◌∷◌, none,
  if◌then◌else◌,
}
use mathlib.Core.Path.{subst}
use neo_coin.Base.Words.{add64, add64_fits}
use neo_coin.Base.Bytes.{bytes_eq_iff}
use neo_coin.Base.Result.{ok, >>=-eq-ok, Result-cases, fail_if}
use neo_coin.Types.{
  Error, Transaction, TransactionType, Block, ConsensusParams, is_transfer, is_coinbase,
}
use neo_coin.Platform.{Platform}
use neo_coin.Policy.{block_reward, miner_fee_amount}
use neo_coin.Tx.{verify_for_consensus}
use neo_coin.Ledger.{
  State, apply_coinbase, apply_transfer, apply_type, apply_txs, fee_sum, check_block,
  check_economics, check_transactions, check_size, apply_block_to_state,
}
use neo_coin.Ledger.Accounts.{supply, balance-le-supply}
use neo_coin.Ledger.Supply.{supply-credit, supply-move_funds, apply_transfer-parts}

-- What a transaction creates and what it destroys.
abbrev pub minted_by : TransactionType → Transaction → ℕ
minted_by TransactionType.coinbase t = t.amount
minted_by TransactionType.transfer t = 0
minted_by (TransactionType.other k) t = 0

abbrev pub burned_by : TransactionType → Transaction → ℕ
burned_by TransactionType.coinbase t = 0
burned_by TransactionType.transfer t = t.fee
burned_by (TransactionType.other k) t = 0

abbrev pub minted : List Transaction → ℕ
minted [] = 0
minted (t ∷ ts) = minted_by t.tx_type t + minted ts

abbrev pub burned : List Transaction → ℕ
burned [] = 0
burned (t ∷ ts) = burned_by t.tx_type t + burned ts

-- The debit of every transaction fits 64 bits.
abbrev pub DebitsFit : List Transaction → Type 0
DebitsFit [] = Unit {0}
DebitsFit (t ∷ ts) = (t.amount + t.fee < 2 ^ 64) × DebitsFit ts

module _ (P : Platform) (p : ConsensusParams) where
  supply-apply_coinbase :
      (height i : ℕ) (t : Transaction) (s : State) {s' : State}
      → apply_coinbase P p height i t s ≡ ok s'
      → supply s + t.amount < 2 ^ 64
      → supply s' ≡ supply s + t.amount
  unfolding apply_coinbase
  supply-apply_coinbase height i t s e fits =
      let (u, first, rest) = >>=-eq-ok (fail_if (not (i == 0)) Error.coinbase_not_first) _ e in
      let (v, verified, last) = >>=-eq-ok (verify_for_consensus P t p height) _ rest in
      grind (arith, supply-credit t.to_address t.amount s, balance-le-supply s t.to_address)

  supply-apply_transfer :
      (height : ℕ) (t : Transaction) (s : State) {s' : State}
      → apply_transfer P p height t s ≡ ok s'
      → t.amount + t.fee < 2 ^ 64
      → supply s < 2 ^ 64
      → supply s' + t.fee ≡ supply s
  supply-apply_transfer height t s e small fits =
      let (from, found, verified, nonce, funds, same) = apply_transfer-parts P p height t s e in
      let total = add64_fits t.amount t.fee small in
      rw same (supply-move_funds from t s fits small (omega (arith, total)))

  supply-apply_type :
      (k : TransactionType) (height i : ℕ) (t : Transaction) (s : State) {s' : State}
      → apply_type P p k height i t s ≡ ok s'
      → t.amount + t.fee < 2 ^ 64
      → supply s + minted_by k t < 2 ^ 64
      → supply s' + burned_by k t ≡ supply s + minted_by k t
  unfolding apply_type
  supply-apply_type TransactionType.coinbase height i t s e small fits =
      omega (arith, supply-apply_coinbase height i t s e fits)
  supply-apply_type TransactionType.transfer height i t s e small fits =
      omega (arith, supply-apply_transfer height t s e small (omega arith))
  supply-apply_type (TransactionType.other x) height i t s e small fits = cc

  pub apply_txs-nil :
      (height i : ℕ) (s : State) {s' : State} → apply_txs P p height i [] s ≡ (s', none) → s ≡ s'
  unfolding apply_txs
  apply_txs-nil height i s e = ap (λ o. o.0) e

  -- The loop goes on only from the state that a transaction leaves.
  pub apply_txs-cons :
      (height i : ℕ) (t : Transaction) (ts : List Transaction) (s : State) {s' : State}
      → apply_txs P p height i (t ∷ ts) s ≡ (s', none)
      → (s1 : State) × (apply_type P p t.tx_type height i t s ≡ ok s1)
        × (apply_txs P p height (suc i) ts s1 ≡ (s', none))
  unfolding apply_txs
  apply_txs-cons height i t ts s e = elim (Result-cases (apply_type P p t.tx_type height i t s)) [
    | inl (s1, done) ↦ (s1, done, rw (done, apply_txs) at e)
    | inr (x, failed) ↦ absurd (ground arith)
  ]

  supply-apply_txs :
      (height i : ℕ) (ts : List Transaction) (s : State) {s' : State}
      → apply_txs P p height i ts s ≡ (s', none)
      → DebitsFit ts
      → supply s + minted ts < 2 ^ 64
      → supply s' + burned ts ≡ supply s + minted ts
  supply-apply_txs height i [] s e small fits =
      omega (arith, ap supply (apply_txs-nil height i s e))
  supply-apply_txs height i (t ∷ ts) s e small fits =
      let (s1, done, rest) = apply_txs-cons height i t ts s e in
      let step = supply-apply_type t.tx_type height i t s done small.0 (omega arith) in
      omega (arith, step, supply-apply_txs height (suc i) ts s1 rest small.1 (omega (arith, step)))

  no_late_coinbase :
      (k : TransactionType) (height i : ℕ) (t : Transaction) (s : State) {s' : State}
      → apply_type P p k height (suc i) t s ≡ ok s'
      → minted_by k t ≡ 0
  unfolding apply_type
  no_late_coinbase TransactionType.coinbase height i t s e = absurd (ground arith)
  no_late_coinbase TransactionType.transfer height i t s e = refl
  no_late_coinbase (TransactionType.other x) height i t s e = refl

  -- Behind the first transaction an accepted list has no coinbase.
  minted-apply_txs :
      (height i : ℕ) (ts : List Transaction) (s : State) {s' : State}
      → apply_txs P p height (suc i) ts s ≡ (s', none)
      → minted ts ≡ 0
  minted-apply_txs height i [] s e = refl
  minted-apply_txs height i (t ∷ ts) s e =
      let (s1, done, rest) = apply_txs-cons height (suc i) t ts s e in
      omega (
        arith,
        no_late_coinbase t.tx_type height i t s done,
        minted-apply_txs height (suc i) ts s1 rest,
      )

  -- What an accepted block has passed before the loop, above the genesis.
  pub apply_block_to_state-parts :
      (s : State) (b : Block) {s' : State}
      → apply_block_to_state P p s b ≡ (s', none)
      → (check_block P p b ≡ ok tt) × (apply_txs P p b.height 0 b.transactions s ≡ (s', none))
  unfolding apply_block_to_state
  apply_block_to_state-parts s b e = elim (Result-cases (check_block P p b)) [
    | inl (u, passed) ↦ (passed, rw (passed, apply_block_to_state) at e)
    | inr (x, failed) ↦ absurd (ground arith)
  ]

  check_economics-parts :
      (b : Block) (cb : Transaction) (rest : List Transaction)
      → 0 < b.height
      → check_economics P p b cb rest ≡ ok tt
      → (cb.to_address ≡ b.miner_address)
        × (cb.amount
            ≡ add64
                (block_reward p.monetary_policy b.height)
                (miner_fee_amount p.monetary_policy (fee_sum 0 rest)))
  unfolding check_economics
  check_economics-parts b cb rest h e =
      (ground (arith, bytes_eq_iff cb.to_address b.miner_address), ground arith)

fee-burned :
    (k : TransactionType) (t : Transaction) (acc : ℕ)
    → acc + burned_by k t < 2 ^ 64
    → (if is_transfer k then add64 acc t.fee else acc) ≡ acc + burned_by k t
fee-burned TransactionType.coinbase t acc h = omega arith
fee-burned TransactionType.transfer t acc h = add64_fits acc t.fee h
fee-burned (TransactionType.other x) t acc h = omega arith

fee_sum-burned :
    (acc : ℕ) (ts : List Transaction) → acc + burned ts < 2 ^ 64 → fee_sum acc ts ≡ acc + burned ts
unfolding fee_sum
fee_sum-burned acc [] h = omega arith
fee_sum-burned acc (t ∷ ts) h =
    rw (fee-burned t.tx_type t acc (omega arith))
      (fee_sum-burned (acc + burned_by t.tx_type t) ts (omega arith) ∙ omega arith)

minted_by_coinbase :
    (k : TransactionType) (t : Transaction)
    → is_coinbase k ≡ true
    → (minted_by k t ≡ t.amount) × (burned_by k t ≡ 0)
minted_by_coinbase TransactionType.coinbase t h = (refl, refl)
minted_by_coinbase TransactionType.transfer t h = cc
minted_by_coinbase (TransactionType.other x) t h = cc

check_transactions-parts :
    (P : Platform) (p : ConsensusParams) (b : Block) (cb : Transaction) (rest : List Transaction)
    → check_transactions P p b (cb ∷ rest) ≡ ok tt
    → (is_coinbase cb.tx_type ≡ true) × (check_economics P p b cb rest ≡ ok tt)
check_transactions-parts P p b cb rest e = ground arith

check_block-parts :
    (P : Platform) (p : ConsensusParams) (b : Block)
    → check_block P p b ≡ ok tt
    → check_transactions P p b b.transactions ≡ ok tt
unfolding check_block
check_block-parts P p b e = let (u, sized, listed) = >>=-eq-ok (check_size P p b) _ e in listed

-- An accepted block above the genesis, none of whose debits wraps and whose subsidy and fee share
-- fit 64 bits with the supply, raises the supply by exactly the subsidy of its height and the
-- miner's share of its fees, less all its fees; and its coinbase pays the declared miner.
pub supply-apply_block_to_state :
    (P : Platform) (p : ConsensusParams) (s : State) (b : Block) (cb : Transaction)
    (rest : List Transaction) {s' : State}
    → apply_block_to_state P p s b ≡ (s', none)
    → b.transactions ≡ cb ∷ rest
    → 0 < b.height
    → DebitsFit (cb ∷ rest)
    → supply s
        + block_reward p.monetary_policy b.height
        + miner_fee_amount p.monetary_policy (fee_sum 0 rest)
      < 2 ^ 64
    → (cb.to_address ≡ b.miner_address)
      × (supply s' + burned rest
          ≡ supply s
            + block_reward p.monetary_policy b.height
            + miner_fee_amount p.monetary_policy (burned rest))
supply-apply_block_to_state P p s b cb rest {s'} e txs above small fits =
    let (checked, loop) = apply_block_to_state-parts P p s b e in
    let listed =
      subst (λ l. check_transactions P p b l ≡ ok tt) txs (check_block-parts P p b checked) in
    let run = subst (λ l. apply_txs P p b.height 0 l s ≡ (s', none)) txs loop in
    let (first, economics) = check_transactions-parts P p b cb rest listed in
    let (receiver, paid) = check_economics-parts P p b cb rest above economics in
    let (s1, done, tail) = apply_txs-cons P p b.height 0 cb rest s run in
    let none_minted = minted-apply_txs P p b.height 0 rest s1 tail in
    let (pays, burns) = minted_by_coinbase cb.tx_type cb first in
    let reward = block_reward p.monetary_policy b.height in
    let share = miner_fee_amount p.monetary_policy (fee_sum 0 rest) in
    let exact = add64_fits reward share (omega arith) in
    let total =
      supply-apply_txs P p b.height 0 (cb ∷ rest) s run small
        (omega (arith, none_minted, pays, paid, exact)) in
    let fees : fee_sum 0 rest ≡ burned rest =
      fee_sum-burned 0 rest (omega (arith, total, none_minted, pays, burns, paid, exact))
      ∙ omega arith in
    let same = ap (miner_fee_amount p.monetary_policy) fees in
    (receiver, omega (arith, total, none_minted, pays, burns, paid, exact, same))
