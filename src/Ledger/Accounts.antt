-- ===== src/Ledger/Accounts.antt =====
-- Reading an account after a write, and the sum of the balances.
use neo_coin.Base.{ℕ, ◌+◌, ◌≤◌, ◌≡◌, arith, [], ◌∷◌, if◌then◌else◌}
use neo_coin.Base.Bytes.{Bytes, bytes_eq}
use neo_coin.Base.Dict.{bytes_key, lookup, insert, lookup-insert}
use neo_coin.Types.{Account}
use neo_coin.Ledger.{State, account_of}

pub account_of-insert :
    (k j : Bytes) (a : Account) (s : State)
    → account_of (insert k a s) j ≡ (if bytes_eq k j then a else account_of s j)
unfolding account_of
account_of-insert k j a s = ground (arith, lookup-insert k j a s)

-- The total of all balances, as a number that does not wrap.
abbrev pub supply : State → ℕ
supply [] = 0
supply ((k, a) ∷ s) = a.balance + supply s

-- A write moves the supply by the change of the account written.
pub supply-insert :
    (k : Bytes) (a : Account) (s : State)
    → supply (insert k a s) + (account_of s k).balance ≡ supply s + a.balance
unfolding account_of insert lookup
supply-insert k a [] = ground arith
supply-insert k a ((j, b) ∷ s) = ground (arith, supply-insert k a s)

pub balance-le-supply : (s : State) (k : Bytes) → (account_of s k).balance ≤ supply s
unfolding account_of lookup
balance-le-supply [] k = omega arith
balance-le-supply ((j, b) ∷ s) k = ground (arith, balance-le-supply s k)
