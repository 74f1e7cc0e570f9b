-- ===== src/Ledger/Nonces.antt =====
-- Nonces only grow, so a transfer that was accepted once is never accepted again.
use neo_coin.Base.{
  ℕ, zero, suc, ◌≤◌, ◌<◌, ◌^◌, ◌≡◌, ◌≢◌, refl, ap, ◌∙◌, arith, List, [], ◌∷◌, some, none,
  if◌then◌else◌, get_elem?, not, ◌==◌,
}
use mathlib.Core.Path.{subst}
use neo_coin.Base.Words.{add64, sub64}
use neo_coin.Base.Bytes.{Bytes, bytes_eq, bytes_eq_iff, bytes_eq_refl}
use neo_coin.Base.Result.{ok, >>=-eq-ok, fail_if}
use neo_coin.Types.{Error, Transaction, TransactionType, Block, ConsensusParams}
use neo_coin.Platform.{Platform}
use neo_coin.Tx.{from_address, verify_for_consensus}
use neo_coin.Tx.Laws.{verify_for_consensus-IsSigned_iff}
use neo_coin.Ledger.{
  State, Outcome, and_then, account_of, credit, debit, move_funds, apply_coinbase, apply_transfer,
  apply_type, apply_txs, apply_block_to_state, apply_blocks,
}
use neo_coin.Ledger.Accounts.{account_of-insert}
use neo_coin.Ledger.Supply.{apply_transfer-parts}
use neo_coin.Ledger.Blocks.{apply_txs-nil, apply_txs-cons, apply_block_to_state-parts}

-- Every nonce is a `uint64`.
abbrev pub NoncesFit : State → Type 0
NoncesFit s = (a : Bytes) → (account_of s a).nonce < 2 ^ 64

-- No nonce falls.
abbrev pub Grows : State → State → Type 0
Grows s s' = (a : Bytes) → (account_of s a).nonce ≤ (account_of s' a).nonce

nonce-credit :
    (k a : Bytes) (n : ℕ) (s : State) → (account_of (credit k n s) a).nonce ≡ (account_of s a).nonce
unfolding credit
nonce-credit k a n s = ground (
  arith,
  account_of-insert k a (record (account_of s k) { balance = add64 (account_of s k).balance n }) s,
  bytes_eq_iff k a,
)

nonce-debit :
    (k a : Bytes) (n m : ℕ) (s : State)
    → (account_of (debit k n m s) a).nonce ≡ (if bytes_eq k a then m else (account_of s a).nonce)
unfolding debit
nonce-debit k a n m s = ground (
  arith,
  account_of-insert k a (record { balance = sub64 (account_of s k).balance n; nonce = m }) s,
)

nonce-move_funds :
    (k a : Bytes) (t : Transaction) (s : State)
    → (account_of (move_funds k t s) a).nonce
      ≡ (if bytes_eq k a then t.nonce else (account_of s a).nonce)
unfolding move_funds
nonce-move_funds k a t s =
    nonce-credit t.to_address a t.amount (debit k (add64 t.amount t.fee) t.nonce s)
    ∙ nonce-debit k a (add64 t.amount t.fee) t.nonce s

and_then-parts :
    (o : Outcome) (f : State → Outcome) {s' : State}
    → and_then o f ≡ (s', none)
    → (s1 : State) × (o ≡ (s1, none)) × (f s1 ≡ (s', none))
and_then-parts (s, none) f e = (s, refl, e)
and_then-parts (s, some x) f e = absurd (ground arith)

-- What an accepted transaction, block or chain does to the nonces.
pub record Advances (s s' : State) : Type 0 where
  pub grows : Grows s s'
  pub fits : NoncesFit s'

Advances-refl : (s : State) → NoncesFit s → Advances s s
Advances-refl s h = record { grows = λ a. omega arith; fits = h }

pub Advances-trans : {s t u : State} → Advances s t → Advances t u → Advances s u
Advances-trans h k = record { grows = λ a. omega (arith, h.grows a, k.grows a); fits = k.fits }

module _ (P : Platform) (p : ConsensusParams) where
  next-nonce : (n m : ℕ) → n < 2 ^ 64 → add64 n 1 ≡ m → 0 < m → (n ≤ m) × (m < 2 ^ 64)
  unfolding add64
  next-nonce n m h e positive = (omega arith, omega arith)

  no_repeat : (n m : ℕ) → n < 2 ^ 64 → add64 n 1 ≡ m → 0 < m → m ≤ n → ⊥
  unfolding add64
  no_repeat n m h e positive le = omega arith

  transfer_case :
      (t : Transaction) (height i : ℕ) (s : State) {s' : State}
      → apply_type P p TransactionType.transfer height i t s ≡ ok s'
      → apply_transfer P p height t s ≡ ok s'
  unfolding apply_type
  transfer_case t height i s e = e

  pub apply_blocks-nil : (s : State) {s' : State} → apply_blocks P p s [] ≡ (s', none) → s ≡ s'
  unfolding apply_blocks
  apply_blocks-nil s e = ap (λ o. o.0) e

  pub apply_blocks-cons :
      (b : Block) (bs : List Block) (s : State) {s' : State}
      → apply_blocks P p s (b ∷ bs) ≡ (s', none)
      → (s1 : State) × (apply_block_to_state P p s b ≡ (s1, none))
        × (apply_blocks P p s1 bs ≡ (s', none))
  unfolding apply_blocks
  apply_blocks-cons b bs s e =
      and_then-parts (apply_block_to_state P p s b) (λ s1. apply_blocks P p s1 bs) e

  move_funds-Advances :
      (from : Bytes) (t : Transaction) (s : State)
      → NoncesFit s
      → add64 (account_of s from).nonce 1 ≡ t.nonce
      → 0 < t.nonce
      → Advances s (move_funds from t s)
  move_funds-Advances from t s h next positive =
      let bound = next-nonce (account_of s from).nonce t.nonce (h from) next positive in
      record {
        grows = λ a. ground (arith, nonce-move_funds from a t s, bytes_eq_iff from a, bound);
        fits = λ a. ground (arith, nonce-move_funds from a t s, h a, bound);
      }

  -- An accepted transfer advances its sender's nonce to its own.
  apply_transfer-Advances :
      (height : ℕ) (t : Transaction) (s : State) {s' : State}
      → t.tx_type ≡ TransactionType.transfer
      → NoncesFit s
      → apply_transfer P p height t s ≡ ok s'
      → Advances s s'
        × ((from : Bytes) × (from_address P t ≡ ok from)
            × (t.nonce ≡ (account_of s' from).nonce)
            × (0 < t.nonce))
  apply_transfer-Advances height t s k h e =
      let (from, found, verified, nonce, funds, same) = apply_transfer-parts P p height t s e in
      let signed = (verify_for_consensus-IsSigned_iff P t p height k).0 verified in
      let mine : t.nonce ≡ (account_of (move_funds from t s) from).nonce =
        ground (arith, nonce-move_funds from from t s, bytes_eq_refl from) in
      rw same (
        move_funds-Advances from t s h nonce signed.nonce_pos,
        (from, found, mine, signed.nonce_pos),
      )

  credit-Advances : (k : Bytes) (n : ℕ) (s : State) → NoncesFit s → Advances s (credit k n s)
  credit-Advances k n s h = record {
    grows = λ a. omega (arith, nonce-credit k a n s);
    fits = λ a. omega (arith, nonce-credit k a n s, h a);
  }

  apply_coinbase-Advances :
      (height i : ℕ) (t : Transaction) (s : State) {s' : State}
      → NoncesFit s
      → apply_coinbase P p height i t s ≡ ok s'
      → Advances s s'
  unfolding apply_coinbase
  apply_coinbase-Advances height i t s {s'} h e =
      let (u, first, rest) = >>=-eq-ok (fail_if (not (i == 0)) Error.coinbase_not_first) _ e in
      let (v, verified, last) = >>=-eq-ok (verify_for_consensus P t p height) _ rest in
      let same : credit t.to_address t.amount s ≡ s' = ground (arith, last) in
      subst (Advances s) same (credit-Advances t.to_address t.amount s h)

  apply_type-Advances :
      (k : TransactionType) (height i : ℕ) (t : Transaction) (s : State) {s' : State}
      → t.tx_type ≡ k
      → NoncesFit s
      → apply_type P p k height i t s ≡ ok s'
      → Advances s s'
  unfolding apply_type
  apply_type-Advances TransactionType.coinbase height i t s k h e =
      apply_coinbase-Advances height i t s h e
  apply_type-Advances TransactionType.transfer height i t s k h e =
      (apply_transfer-Advances height t s k h e).0
  apply_type-Advances (TransactionType.other x) height i t s k h e = cc

  apply_txs-Advances :
      (height i : ℕ) (ts : List Transaction) (s : State) {s' : State}
      → NoncesFit s
      → apply_txs P p height i ts s ≡ (s', none)
      → Advances s s'
  apply_txs-Advances height i [] s h e =
      subst (Advances s) (apply_txs-nil P p height i s e) (Advances-refl s h)
  apply_txs-Advances height i (t ∷ ts) s h e =
      let (s1, done, rest) = apply_txs-cons P p height i t ts s e in
      let one = apply_type-Advances t.tx_type height i t s refl h done in
      Advances-trans one (apply_txs-Advances height (suc i) ts s1 one.fits rest)

  pub apply_blocks-Advances :
      (bs : List Block) (s : State) {s' : State}
      → NoncesFit s
      → apply_blocks P p s bs ≡ (s', none)
      → Advances s s'
  apply_blocks-Advances [] s h e = subst (Advances s) (apply_blocks-nil s e) (Advances-refl s h)
  apply_blocks-Advances (b ∷ bs) s h e =
      let (s1, done, rest) = apply_blocks-cons b bs s e in
      let (checked, loop) = apply_block_to_state-parts P p s b done in
      let one = apply_txs-Advances b.height 0 b.transactions s h loop in
      Advances-trans one (apply_blocks-Advances bs s1 one.fits rest)

  -- A transfer that stands in an accepted list: its sender's nonce has reached its own.
  apply_txs-reached :
      (height i : ℕ) (ts : List Transaction) (s : State) (j : ℕ) (t : Transaction) {s' : State}
      → NoncesFit s
      → apply_txs P p height i ts s ≡ (s', none)
      → get_elem? ts j ≡ some t
      → t.tx_type ≡ TransactionType.transfer
      → (from : Bytes) × (from_address P t ≡ ok from)
        × (t.nonce ≤ (account_of s' from).nonce)
        × (0 < t.nonce)
  apply_txs-reached height i [] s j t h e at k = cc
  apply_txs-reached height i (x ∷ ts) s zero t h e at k =
      let (s1, done, rest) = apply_txs-cons P p height i x ts s e in
      let same : x ≡ t = cc at in
      let done' = subst (λ y. apply_type P p y.tx_type height i y s ≡ ok s1) same done in
      let run = subst (λ y. apply_type P p y height i t s ≡ ok s1) k done' in
      let (one, reached) =
        apply_transfer-Advances height t s k h (transfer_case t height i s run) in
      let (from, found, nonce, positive) = reached in
      let later = apply_txs-Advances height (suc i) ts s1 one.fits rest in
      (from, found, omega (arith, nonce, later.grows from), positive)
  apply_txs-reached height i (x ∷ ts) s (suc j) t h e at k =
      let (s1, done, rest) = apply_txs-cons P p height i x ts s e in
      let one = apply_type-Advances x.tx_type height i x s refl h done in
      apply_txs-reached height (suc i) ts s1 j t one.fits rest at k

  -- A transfer of an accepted block is not accepted again, at any height, on the state that any
  -- further accepted blocks have led to.
  pub apply_transfer_replay :
      (s : State) (b : Block) (later : List Block) (j : ℕ) (t : Transaction) (height : ℕ)
      {s' : State}
      → NoncesFit s
      → apply_blocks P p s (b ∷ later) ≡ (s', none)
      → get_elem? b.transactions j ≡ some t
      → t.tx_type ≡ TransactionType.transfer
      → (s2 : State) → apply_transfer P p height t s' ≢ ok s2
  apply_transfer_replay s b later j t height {s'} h e at k s2 again =
      let (s1, done, rest) = apply_blocks-cons b later s e in
      let (checked, loop) = apply_block_to_state-parts P p s b done in
      let one = apply_txs-Advances b.height 0 b.transactions s h loop in
      let (from, found, reached, positive) =
        apply_txs-reached b.height 0 b.transactions s j t h loop at k in
      let more = apply_blocks-Advances later s1 one.fits rest in
      let (from', found', verified, nonce, funds, same) =
        apply_transfer-parts P p height t s' again in
      let sender : from' ≡ from = ground (arith, found, found') in
      let next = subst (λ a. add64 (account_of s' a).nonce 1 ≡ t.nonce) sender nonce in
      no_repeat (account_of s' from).nonce t.nonce (more.fits from) next positive
        (omega (arith, reached, more.grows from))
