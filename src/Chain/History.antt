-- ===== src/Chain/History.antt =====
-- The pages of an address's history: `AddressTxs` of blockchain/chain.go.
use mathlib.Core.List.{reverse, reverse-append}
use Prim.Native.Nat.{min}
use neo_coin.Base.{
  ℕ, zero, suc, ◌+◌, ◌-◌, ◌≤◌, ◌<◌, ◌≡◌, refl, ap, sym, ◌∙◌, arith, true, false, leb, ltb, ◌==◌,
  if◌then◌else◌, some, List, [], ◌∷◌, ◌++◌, length, take, get_elem?, Bool-cases, inl, inr,
  get_elem?-some,
}
use neo_coin.Base.Int.{ℤ, pos}
use neo_coin.Base.Bytes.{Bytes}
use neo_coin.Chain.{Blockchain, AddressTxEntry}
use neo_coin.Chain.Index.{entries_of, page_limit, walk_down, page_of, address_txs}

take-suc {ℓ} :
    {A : Type ℓ} (xs : List A) (i : ℕ) {x : A}
    → get_elem? xs i ≡ some x
    → take (suc i) xs ≡ take i xs ++ x ∷ []
take-suc [] i e = cc
take-suc (y ∷ xs) zero e = ap (λ z. z ∷ []) (let same : y ≡ _ = cc in same)
take-suc (y ∷ xs) (suc i) e = ap (◌∷◌ y) (take-suc xs i e)

take-length {ℓ} : {A : Type ℓ} (xs : List A) → take (length xs) xs ≡ xs
take-length [] = refl
take-length (x ∷ xs) = ap (◌∷◌ x) (take-length xs)

module _ (all : List AddressTxEntry) where
  walk_down-nil : (room : ℕ) → walk_down room all 0 ≡ []
  unfolding walk_down
  walk_down-nil zero = refl
  walk_down-nil (suc room) = refl

  walk_down-cons :
      (room i : ℕ) {e : AddressTxEntry}
      → get_elem? all i ≡ some e
      → walk_down (suc room) all (suc i) ≡ e ∷ walk_down room all i
  unfolding walk_down
  walk_down-cons room i at = rw (at, walk_down)

  -- A walk with enough room collects all the items below its index, the newest first.
  walk_down-reverse :
      (room count : ℕ)
      → count ≤ room
      → count ≤ length all
      → walk_down room all count ≡ reverse (take count all)
  walk_down-reverse room zero enough h = walk_down-nil room
  walk_down-reverse zero (suc i) enough h = absurd (omega arith)
  walk_down-reverse (suc room) (suc i) enough h =
      let (e, at) = get_elem?-some all i (omega arith) in
      let newest : reverse (take (suc i) all) ≡ e ∷ reverse (take i all) =
        ap reverse (take-suc all i at) ∙ reverse-append (take i all) (e ∷ []) in
      walk_down-cons room i at
      ∙ (ap (◌∷◌ e) (walk_down-reverse room i (omega arith) (omega arith)) ∙ sym newest)

  walk_down-zero : (count : ℕ) → walk_down 0 all count ≡ []
  unfolding walk_down
  walk_down-zero count = refl

  walk_down-same : (r s i j : ℕ) → r ≡ s → i ≡ j → walk_down r all i ≡ walk_down s all j
  walk_down-same r s i j e f = ap (λ n. walk_down n all i) e ∙ ap (λ n. walk_down s all n) f

  -- A walk goes on where a shorter one has stopped.
  walk_down-split :
      (a b count : ℕ)
      → count ≤ length all
      → walk_down (a + b) all count ≡ walk_down a all count ++ walk_down b all (count - a)
  walk_down-split zero b count h =
      walk_down-same (0 + b) b count count (omega arith) refl
      ∙ (sym (walk_down-same b b (count - 0) count refl (omega arith))
          ∙ ap (λ xs. xs ++ walk_down b all (count - 0)) (sym (walk_down-zero count)))
  walk_down-split (suc a) b zero h =
      walk_down-nil (suc a + b)
      ∙ sym (
          ap (λ xs. xs ++ walk_down b all (0 - suc a)) (walk_down-nil (suc a))
          ∙ (walk_down-same b b (0 - suc a) 0 refl (omega arith) ∙ walk_down-nil b))
  walk_down-split (suc a) b (suc i) h =
      let (e, at) = get_elem?-some all i (omega arith) in
      walk_down-same (suc a + b) (suc (a + b)) (suc i) (suc i) (omega arith) refl
      ∙ (walk_down-cons (a + b) i at
          ∙ (ap (◌∷◌ e) (
                walk_down-split a b i (omega arith)
                ∙ ap (λ xs. walk_down a all i ++ xs)
                    (walk_down-same b b (i - a) (suc i - suc a) refl (omega arith)))
              ∙ ap (λ xs. xs ++ walk_down b all (suc i - suc a)) (sym (walk_down-cons a i at))))

  length-walk_down :
      (room count : ℕ) → count ≤ length all → length (walk_down room all count) ≡ min room count
  length-walk_down zero count h = unfold walk_down in omega arith
  length-walk_down (suc room) zero h = unfold walk_down in omega arith
  length-walk_down (suc room) (suc i) h =
      let (e, at) = get_elem?-some all i (omega arith) in
      omega (arith, ap length (walk_down-cons room i at), length-walk_down room i (omega arith))

-- A client that asks for page after page from a cursor on, as long as there is more.
abbrev pub collect : ℕ → Blockchain → Bytes → ℤ → ℕ → List AddressTxEntry
collect zero bc address limit cursor = []
collect (suc fuel) bc address limit cursor =
    let page = address_txs bc address limit (pos cursor) in
    let rest = collect fuel bc address limit page.1 in if page.2 then page.0 ++ rest else page.0

page_limit_pos : (limit : ℤ) → 1 ≤ page_limit limit
unfolding page_limit
page_limit_pos limit = ground arith

-- The rest of a history from a cursor on, the newest first.
abbrev from_cursor : List AddressTxEntry → ℕ → List AddressTxEntry
from_cursor all cursor = walk_down (length all - cursor) all (length all - cursor)

-- A page is the first part of the rest of the history; the flag says whether a part is left.
page_of-parts :
    (all : List AddressTxEntry) (limit cursor : ℕ)
    → cursor < length all
    → let page = page_of all limit cursor in
      (limit < length all - cursor
        → (page.2 ≡ true)
          × (page.1 ≡ cursor + limit)
          × (from_cursor all cursor ≡ page.0 ++ from_cursor all (cursor + limit)))
      × (length all - cursor ≤ limit → (page.2 ≡ false) × (page.0 ≡ from_cursor all cursor))
unfolding page_of
page_of-parts all limit cursor low =
    let inside : leb (length all) cursor ≡ false = ground (arith, low) in
    let size = length-walk_down all limit (length all - cursor) (omega arith) in
    rw (inside, page_of)
      (
        λ more. (
          ground (arith, size, more),
          omega (arith, size, more),
          walk_down-same all (length all - cursor) (limit + (length all - cursor - limit))
                (length all - cursor) (length all - cursor) (omega arith) refl
              ∙ (walk_down-split all limit (length all - cursor - limit) (length all - cursor)
                    (omega arith)
                  ∙ ap (λ xs. walk_down limit all (length all - cursor) ++ xs)
                      (walk_down-same all (length all - cursor - limit)
                        (length all - (cursor + limit)) (length all - cursor - limit)
                        (length all - (cursor + limit)) (omega arith) (omega arith))),
        ),
        λ last. (
          ground (arith, size, last),
          walk_down-reverse all limit (length all - cursor) last (omega arith)
              ∙ sym (
                  walk_down-reverse all (length all - cursor) (length all - cursor) (omega arith)
                    (omega arith)),
        ),
      )

address_txs-page_of :
    (bc : Blockchain) (address : Bytes) (limit : ℤ) (cursor : ℕ)
    → cursor < length (entries_of bc.address_index address)
    → address_txs bc address limit (pos cursor)
      ≡ page_of (entries_of bc.address_index address) (page_limit limit) cursor
unfolding address_txs
address_txs-page_of bc address limit cursor low =
    let some_entry : (length (entries_of bc.address_index address) == 0) ≡ false =
      ground (arith, low) in
    rw (some_entry, address_txs) refl

collect-last :
    (fuel : ℕ) (bc : Blockchain) (address : Bytes) (limit : ℤ) (cursor : ℕ)
    → (address_txs bc address limit (pos cursor)).2 ≡ false
    → collect (suc fuel) bc address limit cursor ≡ (address_txs bc address limit (pos cursor)).0
collect-last fuel bc address limit cursor e = rw e refl

collect-more :
    (fuel : ℕ) (bc : Blockchain) (address : Bytes) (limit : ℤ) (cursor next : ℕ)
    → (address_txs bc address limit (pos cursor)).2 ≡ true
    → (address_txs bc address limit (pos cursor)).1 ≡ next
    → collect (suc fuel) bc address limit cursor
      ≡ (address_txs bc address limit (pos cursor)).0 ++ collect fuel bc address limit next
collect-more fuel bc address limit cursor next e at =
    rw e (
      ap (λ n. (address_txs bc address limit (pos cursor)).0 ++ collect fuel bc address limit n) at)

collect-from_cursor :
    (fuel : ℕ) (bc : Blockchain) (address : Bytes) (limit : ℤ) (cursor : ℕ)
    → cursor < length (entries_of bc.address_index address)
    → length (entries_of bc.address_index address) ≤ cursor + fuel
    → collect fuel bc address limit cursor
      ≡ from_cursor (entries_of bc.address_index address) cursor
collect-from_cursor zero bc address limit cursor low enough = absurd (omega arith)
collect-from_cursor (suc fuel) bc address limit cursor low enough =
    let all = entries_of bc.address_index address in
    let page = address_txs-page_of bc address limit cursor low in
    let some_room = page_limit_pos limit in
    let (more, last) = page_of-parts all (page_limit limit) cursor low in
    elim (Bool-cases (ltb (page_limit limit) (length all - cursor))) [
      | inl some_left ↦
          let (flag, next, split) = more (ground (arith, some_left)) in
          collect-more fuel bc address limit cursor (cursor + page_limit limit)
            (ap (λ p. p.2) page ∙ flag) (ap (λ p. p.1) page ∙ next)
          ∙ (ap (λ xs. (address_txs bc address limit (pos cursor)).0 ++ xs)
                (collect-from_cursor fuel bc address limit (cursor + page_limit limit)
                  (ground (arith, some_left)) (omega (arith, some_room)))
              ∙ (ap (λ p. p.0 ++ from_cursor all (cursor + page_limit limit)) page ∙ sym split))
      | inr none_left ↦
          let (flag, whole) = last (ground (arith, none_left)) in
          collect-last fuel bc address limit cursor (ap (λ p. p.2) page ∙ flag)
          ∙ (ap (λ p. p.0) page ∙ whole)
    ]

collect-nothing :
    (fuel : ℕ) (bc : Blockchain) (address : Bytes) (limit : ℤ)
    → (length (entries_of bc.address_index address) == 0) ≡ true
    → collect (suc fuel) bc address limit 0 ≡ []
unfolding address_txs
collect-nothing fuel bc address limit nothing =
    let page : address_txs bc address limit (pos 0) ≡ ([], 0, false) =
      rw (nothing, address_txs) refl in
    collect-last fuel bc address limit 0 (ap (λ p. p.2) page) ∙ ap (λ p. p.0) page

nil-reverse : (all : List AddressTxEntry) → (length all == 0) ≡ true → [] ≡ reverse all
nil-reverse [] h = refl
nil-reverse (e ∷ all) h = absurd (ground arith)

-- Asking for page after page from cursor 0, with any limit, for as long as the answer says that
-- there is more, returns the whole history of an address, each entry once, the newest first; as
-- many requests as the history has entries, and one, are enough.
pub collect-reverse :
    (fuel : ℕ) (bc : Blockchain) (address : Bytes) (limit : ℤ)
    → length (entries_of bc.address_index address) < fuel
    → collect fuel bc address limit 0 ≡ reverse (entries_of bc.address_index address)
collect-reverse zero bc address limit enough = absurd (omega arith)
collect-reverse (suc fuel) bc address limit enough =
    let all = entries_of bc.address_index address in
    elim (Bool-cases (length all == 0)) [
      | inl nothing ↦ collect-nothing fuel bc address limit nothing ∙ nil-reverse all nothing
      | inr some_entry ↦
          collect-from_cursor (suc fuel) bc address limit 0 (ground (arith, some_entry))
            (omega arith)
          ∙ (walk_down-same all (length all - 0) (length all) (length all - 0) (length all)
                (omega arith) (omega arith)
              ∙ (walk_down-reverse all (length all) (length all) (omega arith) (omega arith)
                  ∙ ap reverse (take-length all)))
    ]
