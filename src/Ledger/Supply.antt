-- ===== src/Ledger/Supply.antt =====
-- The supply under one transaction and under a block's list of transactions.
use neo_coin.Base.{ℕ, ◌+◌, ◌≤◌, ◌<◌, ◌^◌, ◌≡◌, arith}
use mathlib.Core.Path.{subst}
use neo_coin.Base.Words.{add64, sub64, add64_fits}
use neo_coin.Base.Bytes.{Bytes}
use neo_coin.Base.Result.{ok, >>=-eq-ok}
use neo_coin.Types.{Account, Transaction, ConsensusParams, IsWord}
use neo_coin.Platform.{Platform}
use neo_coin.Tx.{from_address, verify_for_consensus}
use neo_coin.Ledger.{State, account_of, credit, debit, check_funds, move_funds, apply_transfer}
use neo_coin.Ledger.Accounts.{supply, supply-insert, balance-le-supply}

pub supply-credit :
    (k : Bytes) (n : ℕ) (s : State)
    → (account_of s k).balance + n < 2 ^ 64
    → supply (credit k n s) ≡ supply s + n
unfolding credit add64
supply-credit k n s h =
    let a = record (account_of s k) { balance = add64 (account_of s k).balance n } in
    omega (arith, supply-insert k a s)

supply-debit :
    (k : Bytes) (n m : ℕ) (s : State)
    → supply s < 2 ^ 64
    → n ≤ (account_of s k).balance
    → supply (debit k n m s) + n ≡ supply s
unfolding debit sub64
supply-debit k n m s fits h =
    let a : Account = record { balance = sub64 (account_of s k).balance n; nonce = m } in
    omega (arith, supply-insert k a s, balance-le-supply s k)

-- A transfer whose debit does not wrap destroys its fee; one whose debit wraps creates 2 ^ 64 more.
pub supply-move_funds :
    (k : Bytes) (t : Transaction) (s : State)
    → supply s < 2 ^ 64
    → t.amount + t.fee < 2 ^ 64
    → t.amount + t.fee ≤ (account_of s k).balance
    → supply (move_funds k t s) + t.fee ≡ supply s
unfolding move_funds
supply-move_funds k t s fits small funds =
    let total : add64 t.amount t.fee ≡ t.amount + t.fee =
      omega (arith, add64_fits t.amount t.fee small) in
    let after = debit k (add64 t.amount t.fee) t.nonce s in
    let paid = supply-debit k (add64 t.amount t.fee) t.nonce s fits (omega (arith, total)) in
    let got =
      supply-credit t.to_address t.amount after
        (omega (arith, total, paid, balance-le-supply after t.to_address)) in
    omega (arith, total, paid, got)

pub supply-move_funds_wrapped :
    (k : Bytes) (t : Transaction) (s : State)
    → supply s < 2 ^ 64
    → t.amount < 2 ^ 64
    → t.fee < 2 ^ 64
    → 2 ^ 64 ≤ t.amount + t.fee
    → add64 t.amount t.fee ≤ (account_of s k).balance
    → (account_of (debit k (add64 t.amount t.fee) t.nonce s) t.to_address).balance + t.amount
      < 2 ^ 64
    → supply (move_funds k t s) + t.fee ≡ supply s + 2 ^ 64
unfolding move_funds
supply-move_funds_wrapped k t s fits amount fee wraps funds room =
    let total : add64 t.amount t.fee + 2 ^ 64 ≡ t.amount + t.fee = unfold add64 in omega arith in
    let after = debit k (add64 t.amount t.fee) t.nonce s in
    omega (
      arith,
      total,
      supply-debit k (add64 t.amount t.fee) t.nonce s fits funds,
      supply-credit t.to_address t.amount after room,
    )

check_funds-parts :
    (a : Account) (t : Transaction)
    → check_funds a t ≡ ok tt
    → (add64 a.nonce 1 ≡ t.nonce) × (add64 t.amount t.fee ≤ a.balance)
unfolding check_funds
check_funds-parts a t e = ground arith

module _ (P : Platform) (p : ConsensusParams) where
  -- What an accepted transfer has passed.
  pub apply_transfer-parts :
      (height : ℕ) (t : Transaction) (s : State) {s' : State}
      → apply_transfer P p height t s ≡ ok s'
      → (from : Bytes) × (from_address P t ≡ ok from)
        × (verify_for_consensus P t p height ≡ ok tt)
        × (add64 (account_of s from).nonce 1 ≡ t.nonce)
        × (add64 t.amount t.fee ≤ (account_of s from).balance)
        × (s' ≡ move_funds from t s)
  unfolding apply_transfer
  apply_transfer-parts height t s e =
      let (u, verified, rest) = >>=-eq-ok (verify_for_consensus P t p height) _ e in
      let (from, found, rest') = >>=-eq-ok (from_address P t) _ rest in
      let (v, checked, last) = >>=-eq-ok (check_funds (account_of s from) t) _ rest' in
      let funds = check_funds-parts (account_of s from) t checked in
      (from, found, verified, funds.0, funds.1, ground arith)

  -- An accepted transfer whose amount and fee together exceed 64 bits, and whose receiver's balance
  -- has room for the amount, creates 2 ^ 64 units less its fee: the test of the sender's funds sees
  -- only the wrapped sum.
  pub apply_transfer_wrapped :
      (height : ℕ) (t : Transaction) (s : State) (from : Bytes) {s' : State}
      → apply_transfer P p height t s ≡ ok s'
      → from_address P t ≡ ok from
      → IsWord t
      → supply s < 2 ^ 64
      → 2 ^ 64 ≤ t.amount + t.fee
      → (account_of (debit from (add64 t.amount t.fee) t.nonce s) t.to_address).balance + t.amount
        < 2 ^ 64
      → supply s' + t.fee ≡ supply s + 2 ^ 64
  apply_transfer_wrapped height t s from e known word fits wraps room =
      let (from', found, verified, nonce, funds, same) = apply_transfer-parts height t s e in
      let sender : from' ≡ from = ground (arith, known, found) in
      rw (same, sender)
        (supply-move_funds_wrapped from t s fits word.amount_fits word.fee_fits wraps
          (subst (λ a. add64 t.amount t.fee ≤ (account_of s a).balance) sender funds) room)
