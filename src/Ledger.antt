-- ===== src/Ledger.antt =====
-- The account state and the application of a block to it: `applyBlockToState` of
-- blockchain/chain.go, with blockchain/block_size.go. The source mutates the map as it goes, so a
-- call returns the state that it reached also when it fails.
pub mod Accounts
pub mod Supply
pub mod Nonces
pub mod Blocks
use neo_coin.Base.{
  ℕ, zero, suc, ◌+◌, ◌-◌, Bool, true, false, not, ltb, leb, ◌==◌, if◌then◌else◌, Option, none, some,
  List, [], ◌∷◌, length,
}
use neo_coin.Base.Words.{add64, sub64}
use neo_coin.Base.Bytes.{Bytes, bytes_eq}
use neo_coin.Base.Dict.{Dict, bytes_key, lookup, insert}
use neo_coin.Base.Result.{Result, ok, err, ◌>>=◌, ◌>>◌, fail_if}
use neo_coin.Types.{
  Account, zero_account, Error, Transaction, TransactionType, Block, ConsensusParams, is_coinbase,
  is_transfer,
}
use neo_coin.Platform.{Platform}
use neo_coin.Policy.{block_reward, miner_fee_amount}
use neo_coin.Address.{validate_address}
use neo_coin.Tx.{from_address, verify_for_consensus}

abbrev pub State : Type 0
State = Dict Bytes Account

abbrev or_zero : Option Account → Account
or_zero none = zero_account
or_zero (some a) = a

-- `state[addr]`, which is the zero account for a missing address.
unfoldable pub account_of : State → Bytes → Account
account_of s addr = or_zero (lookup addr s)

-- The state that a call leaves, and its error.
abbrev pub Outcome : Type 0
Outcome = State × Option Error

abbrev pub outcome : State → Result Error State → Outcome
outcome s (ok s') = (s', none)
outcome s (err e) = (s, some e)

-- `if err := …; err != nil { return err }` between two calls on one state.
abbrev pub and_then : Outcome → (State → Outcome) → Outcome
and_then (s, none) f = f s
and_then (s, some e) f = (s, some e)

-- `acct.Balance += amount`.
unfoldable pub credit : Bytes → ℕ → State → State
credit addr amount s =
    let acct = account_of s addr in
    insert addr (record acct { balance = add64 acct.balance amount }) s

-- `from.Balance -= totalDebit; from.Nonce = tx.Nonce`.
unfoldable pub debit : Bytes → ℕ → ℕ → State → State
debit addr total nonce s =
    let from = account_of s addr in
    insert addr (record { balance = sub64 from.balance total; nonce = nonce }) s

-- The tests of a transfer against its sender's account.
unfoldable pub check_funds : Account → Transaction → Result Error (Unit {0})
check_funds from t = do
  fail_if (not (add64 from.nonce 1 == t.nonce)) Error.bad_nonce
  fail_if (ltb from.balance (add64 t.amount t.fee)) Error.insufficient_funds

-- The effect of a transfer on both accounts.
unfoldable pub move_funds : Bytes → Transaction → State → State
move_funds from_addr t s =
    credit t.to_address t.amount (debit from_addr (add64 t.amount t.fee) t.nonce s)

-- The fees of the transfers, summed as `uint64`.
unfoldable pub fee_sum : ℕ → List Transaction → ℕ
fee_sum acc [] = acc
fee_sum acc (t ∷ ts) = fee_sum (if is_transfer t.tx_type then add64 acc t.fee else acc) ts

module _ (P : Platform) (p : ConsensusParams) where
  unfoldable pub apply_coinbase : ℕ → ℕ → Transaction → State → Result Error State
  apply_coinbase height i t s = do
    fail_if (not (i == 0)) Error.coinbase_not_first
    verify_for_consensus P t p height
    ok (credit t.to_address t.amount s)

  unfoldable pub apply_transfer : ℕ → Transaction → State → Result Error State
  unfolding check_funds move_funds
  apply_transfer height t s = do
    verify_for_consensus P t p height
    from_addr ← from_address P t
    check_funds (account_of s from_addr) t
    ok (move_funds from_addr t s)

  unfoldable pub apply_type : TransactionType → ℕ → ℕ → Transaction → State → Result Error State
  unfolding apply_coinbase apply_transfer
  apply_type TransactionType.coinbase height i t s = apply_coinbase height i t s
  apply_type TransactionType.transfer height i t s = apply_transfer height t s
  apply_type (TransactionType.other k) height i t s = err Error.unknown_tx_type

  -- The loop over the transactions, from index `i`.
  unfoldable pub apply_txs : ℕ → ℕ → List Transaction → State → Outcome
  unfolding apply_type
  apply_txs height i [] s = (s, none)
  apply_txs height i (t ∷ ts) s = elim (apply_type t.tx_type height i t s) [
    | ok s' ↦ apply_txs height (suc i) ts s'
    | err e ↦ (s, some e)
  ]

  -- `blockSizeForConsensus` against the maximum.
  unfoldable pub check_size : Block → Result Error (Unit {0})
  check_size b =
      if ltb 0 p.max_block_size
      then fail_if (ltb p.max_block_size (length (P.json_block b))) Error.block_too_large
      else ok tt

  -- The consensus economics of a block above the genesis.
  unfoldable pub check_economics : Block → Transaction → List Transaction → Result Error (Unit {0})
  check_economics b cb rest =
      if ltb 0 b.height
      then (do
        validate_address P b.miner_address
        fail_if (not (bytes_eq cb.to_address b.miner_address)) Error.coinbase_wrong_receiver
        fail_if
            (not (
              cb.amount
              == add64 (block_reward p.monetary_policy b.height)
                  (miner_fee_amount p.monetary_policy (fee_sum 0 rest))))
            Error.bad_coinbase_amount)
      else ok tt

  abbrev pub check_transactions : Block → List Transaction → Result Error (Unit {0})
  check_transactions b [] = err Error.no_transactions
  check_transactions b (cb ∷ rest) = do
    fail_if (not (is_coinbase cb.tx_type)) Error.first_not_coinbase
    check_economics b cb rest

  -- The tests of `applyBlockToState` before its loop.
  unfoldable pub check_block : Block → Result Error (Unit {0})
  unfolding check_size check_economics
  check_block b = do check_size b; check_transactions b b.transactions

  -- `applyBlockToState`.
  unfoldable pub apply_block_to_state : State → Block → Outcome
  unfolding check_block apply_txs
  apply_block_to_state s b = elim (check_block b) [
    | ok u ↦ apply_txs b.height 0 b.transactions s
    | err e ↦ (s, some e)
  ]

  -- The loop of `recomputeStateLocked`: blocks in order, up to the first error.
  unfoldable pub apply_blocks : State → List Block → Outcome
  apply_blocks s [] = (s, none)
  apply_blocks s (b ∷ bs) = and_then (apply_block_to_state s b) (λ s'. apply_blocks s' bs)
