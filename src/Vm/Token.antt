-- ===== src/Vm/Token.antt =====
-- The balances of `TokenContract` of blockchain/vm.go: its transfers, on a map from addresses to
-- `uint64`. The allowances, which are kept as text in the storage, are left out.
use neo_coin.Base.{
  ℕ, ◌+◌, ◌^◌, ◌≤◌, ◌<◌, ◌≡◌, refl, arith, true, false, ltb, if◌then◌else◌, Option, none, some, [],
  ◌∷◌,
}
use neo_coin.Base.Words.{add64, sub64}
use neo_coin.Base.Bytes.{Bytes}
use neo_coin.Base.Dict.{Dict, bytes_key, lookup, insert}
use neo_coin.Base.Result.{Result, ok, err}

-- `TokenContract`, without the code of the contract that it embeds, which is empty.
pub record Token : Type 0 where
  pub name : Bytes
  pub symbol : Bytes
  pub decimals : ℕ
  pub total_supply : ℕ
  pub balances : Dict Bytes ℕ

pub data TokenError : Type 0 where
  insufficient_balance : TokenError

abbrev or_nothing : Option ℕ → ℕ
or_nothing none = 0
or_nothing (some n) = n

-- `BalanceOf`.
unfoldable pub balance_of : Dict Bytes ℕ → Bytes → ℕ
balance_of m address = or_nothing (lookup address m)

-- `NewTokenContract`.
unfoldable pub new_token : Bytes → Bytes → ℕ → ℕ → Token
new_token name symbol decimals total_supply = record {
  name = name;
  symbol = symbol;
  decimals = decimals;
  total_supply = total_supply;
  balances = [];
}

-- The two writes of a transfer, the second on what the first left.
unfoldable pub move : Bytes → Bytes → ℕ → Dict Bytes ℕ → Dict Bytes ℕ
unfolding balance_of
move from to amount m =
    let debited = insert from (sub64 (balance_of m from) amount) m in
    insert to (add64 (balance_of debited to) amount) debited

-- `Transfer`, and `TransferFrom`.
unfoldable pub token_transfer : Bytes → Bytes → ℕ → Token → Result TokenError Token
unfolding move
token_transfer from to amount t =
    if ltb (balance_of t.balances from) amount
    then err TokenError.insufficient_balance
    else ok (record t { balances = move from to amount t.balances })

-- The sum of all balances, without a wrap.
abbrev pub held : Dict Bytes ℕ → ℕ
held [] = 0
held ((a, n) ∷ m) = n + held m

held-insert :
    (a : Bytes) (n : ℕ) (m : Dict Bytes ℕ) → held (insert a n m) + balance_of m a ≡ held m + n
unfolding balance_of insert lookup
held-insert a n [] = ground arith
held-insert a n ((b, k) ∷ m) = ground (arith, held-insert a n m)

balance_of-le-held : (m : Dict Bytes ℕ) (a : Bytes) → balance_of m a ≤ held m
unfolding balance_of lookup
balance_of-le-held [] a = omega arith
balance_of-le-held ((b, k) ∷ m) a = ground (arith, balance_of-le-held m a)

held-move :
    (from to : Bytes) (amount : ℕ) (m : Dict Bytes ℕ)
    → amount ≤ balance_of m from
    → held m < 2 ^ 64
    → held (move from to amount m) ≡ held m
unfolding move sub64 add64
held-move from to amount m enough small =
    let debited = insert from (sub64 (balance_of m from) amount) m in
    omega (
      arith,
      held-insert from (sub64 (balance_of m from) amount) m,
      held-insert to (add64 (balance_of debited to) amount) debited,
      balance_of-le-held m from,
      balance_of-le-held debited to,
    )

-- While the balances together fit 64 bits, a transfer succeeds exactly when the sender holds the
-- amount; it then keeps the sum of the balances, also when the sender is the receiver.
pub token_transfer-held :
    (from to : Bytes) (amount : ℕ) (t : Token)
    → held t.balances < 2 ^ 64
    → (balance_of t.balances from < amount
        → token_transfer from to amount t ≡ err TokenError.insufficient_balance)
      × (amount ≤ balance_of t.balances from
          → (t' : Token) × (token_transfer from to amount t ≡ ok t')
            × (held t'.balances ≡ held t.balances))
unfolding token_transfer
token_transfer-held from to amount t small = (
  λ poor.
      let low : ltb (balance_of t.balances from) amount ≡ true = ground (arith, poor) in
      rw (low, token_transfer) refl,
  λ enough.
      let fine : ltb (balance_of t.balances from) amount ≡ false = ground (arith, enough) in
      (
        record t { balances = move from to amount t.balances },
        rw (fine, token_transfer) refl,
        held-move from to amount t.balances enough small,
      ),
)
