-- ===== src/Mempool/Spam.antt =====
-- `checkSpam` of blockchain/mempool.go: the patterns of the payload, and the answer of the AI
-- service, which is an argument. A pattern is its alternatives, each the texts that `.*` joins; as
-- in Go, `.*` does not cross a line. Letters are lowered as ASCII.
use neo_coin.Base.{
  ℕ, ◌+◌, Bool, true, false, not, ◌&&◌, ◌||◌, ltb, leb, ◌==◌, if◌then◌else◌, Option, none, some,
  List, [], ◌∷◌, map,
}
use neo_coin.Base.Bytes.{Bytes, ascii}
use neo_coin.Base.Result.{Result, ok, err}
use neo_coin.Types.{Error, Transaction}
use neo_coin.Platform.{Platform}
use neo_coin.Tx.{from_address}
use neo_coin.Mempool.{Mempool}

abbrev pub Pattern : Type 0
Pattern = List (List Bytes)

abbrev pub spam_patterns : List Pattern
spam_patterns =
    ((ascii "airdrop" ∷ [])
      ∷ (ascii "claim" ∷ ascii "free" ∷ [])
      ∷ (ascii "free" ∷ ascii "token" ∷ [])
      ∷ (ascii "get" ∷ ascii "now" ∷ [])
      ∷ [])
    ∷ ((ascii "100x" ∷ [])
        ∷ (ascii "1000x" ∷ [])
        ∷ (ascii "moon" ∷ [])
        ∷ (ascii "lambo" ∷ [])
        ∷ (ascii "pump" ∷ [])
        ∷ (ascii "dump" ∷ [])
        ∷ [])
    ∷ ((ascii "urgent" ∷ [])
        ∷ (ascii "immediately" ∷ [])
        ∷ (ascii "act" ∷ ascii "now" ∷ [])
        ∷ (ascii "limited" ∷ ascii "time" ∷ [])
        ∷ [])
    ∷ ((ascii "verify" ∷ ascii "wallet" ∷ [])
        ∷ (ascii "connect" ∷ ascii "wallet" ∷ [])
        ∷ (ascii "sign" ∷ ascii "message" ∷ [])
        ∷ [])
    ∷ ((ascii "gas" ∷ ascii "free" ∷ [])
        ∷ (ascii "no" ∷ ascii "fee" ∷ [])
        ∷ (ascii "zero" ∷ ascii "fee" ∷ [])
        ∷ [])
    ∷ ((ascii "double" ∷ ascii "your" ∷ [])
        ∷ (ascii "mul" ∷ ascii "2x" ∷ [])
        ∷ (ascii "guaranteed" ∷ ascii "return" ∷ [])
        ∷ [])
    ∷ ((ascii "discord" ∷ ascii "admin" ∷ [])
        ∷ (ascii "telegram" ∷ ascii "admin" ∷ [])
        ∷ (ascii "support" ∷ ascii "chat" ∷ [])
        ∷ [])
    ∷ ((ascii "private" ∷ ascii "key" ∷ [])
        ∷ (ascii "seed" ∷ ascii "phrase" ∷ [])
        ∷ (ascii "recovery" ∷ ascii "phrase" ∷ [])
        ∷ [])
    ∷ ((ascii "nft" ∷ ascii "mint" ∷ ascii "free" ∷ [])
        ∷ (ascii "free" ∷ ascii "nft" ∷ [])
        ∷ (ascii "mint" ∷ ascii "now" ∷ [])
        ∷ [])
    ∷ ((ascii "update" ∷ ascii "wallet" ∷ [])
        ∷ (ascii "security" ∷ ascii "alert" ∷ [])
        ∷ (ascii "unlock" ∷ ascii "account" ∷ [])
        ∷ [])
    ∷ []

abbrev pub to_lower : ℕ → ℕ
to_lower c = if leb b'A' c && leb c b'Z' then c + 32 else c

unfoldable pub strip_prefix : Bytes → Bytes → Option Bytes
strip_prefix [] text = some text
strip_prefix (c ∷ p) [] = none
strip_prefix (c ∷ p) (d ∷ text) = let rest = strip_prefix p text in if c == d then rest else none

abbrev pub then_rest : (Bytes → Bool) → Option Bytes → Bool
then_rest rest none = false
then_rest rest (some text) = rest text

-- A text stands somewhere, on the first line if so asked, and what follows it satisfies the rest.
unfoldable pub scan : Bool → Bytes → (Bytes → Bool) → Bytes → Bool
unfolding strip_prefix
scan on_line p rest [] = then_rest rest (strip_prefix p [])
scan on_line p rest (c ∷ text) =
    then_rest rest (strip_prefix p (c ∷ text))
    || not (on_line && c == 10) && scan on_line p rest text

unfoldable pub joined : Bool → List Bytes → Bytes → Bool
unfolding scan
joined on_line [] text = true
joined on_line (p ∷ ps) text = scan on_line p (joined true ps) text

unfoldable pub any_alternative : Pattern → Bytes → Bool
unfolding joined
any_alternative [] text = false
any_alternative (a ∷ alts) text = joined false a text || any_alternative alts text

unfoldable pub any_pattern : List Pattern → Bytes → Bool
unfolding any_alternative
any_pattern [] text = false
any_pattern (p ∷ ps) text = any_alternative p text || any_pattern ps text

-- The answer of an enabled filter: a score, or `none` for its error.
abbrev pub AiFilter : Type 0
AiFilter = Option (Transaction → Bytes → Option ℕ)

abbrev pub checked : Mempool → Mempool
checked m = record m { total_checked = m.total_checked + 1 }

abbrev pub flagged : Mempool → Mempool
flagged m = record (checked m) { spam_detected = m.spam_detected + 1 }

abbrev pub judge : Mempool → Option ℕ → Mempool × Result Error (Unit {0})
judge m none = (flagged m, err Error.ai_filter_failed)
judge m (some score) =
    if ltb 80 score then (flagged m, err Error.ai_rejected) else (checked m, ok tt)

abbrev pub ask : Platform → AiFilter → Transaction → Mempool → Mempool × Result Error (Unit {0})
ask P none t m = (checked m, ok tt)
ask P (some filter) t m = elim (from_address P t) [
  | err e ↦ (checked m, err e)
  | ok from ↦ judge m (filter t from)
]

-- `checkSpam`.
unfoldable pub check_spam :
    Platform → AiFilter → Transaction → Mempool → Mempool × Result Error (Unit {0})
unfolding any_pattern
check_spam P ai t m =
    if any_pattern spam_patterns (map to_lower t.tx_data)
    then (flagged m, err Error.spam_detected)
    else ask P ai t m
