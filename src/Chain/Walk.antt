-- ===== src/Chain/Walk.antt =====
-- The walk from a tip to the genesis, the first loop of `computeCanonicalForTipLocked` of
-- blockchain/forks.go, and that its fuel is enough.
use neo_coin.Base.{
  ℕ, zero, suc, ◌+◌, ◌≤◌, ◌<◌, ◌≡◌, ◌≢◌, sym, ◌∙◌, refl, arith, Bool, true, false, ◌||◌, ◌==◌,
  if◌then◌else◌, Option, none, some, List, [], ◌∷◌, length, Bool-cases, Option-cases, inl, inr,
}
use neo_coin.Base.Bytes.{Bytes, bytes_eq, bytes_eq_iff, hex_encode}
use neo_coin.Base.Dict.{Dict, bytes_key, lookup}
use neo_coin.Base.Result.{Result, ok, err}
use neo_coin.Types.{Block, Error}

-- `_, ok := seen[cur]`.
unfoldable pub contains : Bytes → List Bytes → Bool
contains k [] = false
contains k (x ∷ xs) = bytes_eq x k || contains k xs

-- `b.Height == 0 || len(b.PrevHash) == 0`.
unfoldable pub is_root : Block → Bool
is_root b = b.height == 0 || length b.prev_hash == 0

-- `rev = append(rev, b)` before the rest of the walk.
abbrev pub above : Block → Option (Result Error (List Block)) → Option (Result Error (List Block))
above b none = none
above b (some (err e)) = some (err e)
above b (some (ok bs)) = some (ok (b ∷ bs))

-- The blocks from the tip down, on fuel; `none` is a walk that has not ended.
unfoldable pub ancestors :
    ℕ → Dict Bytes Block → List Bytes → Bytes → Option (Result Error (List Block))
ancestors zero tree seen cur = none
ancestors (suc fuel) tree seen cur = elim (contains cur seen) [
  | true ↦ some (err Error.cycle_detected)
  | false ↦ elim (lookup cur tree) [
    | none ↦ some (err Error.missing_ancestor)
    | some b ↦ elim (is_root b) [
      | true ↦ some (ok (b ∷ []))
      | false ↦ above b (ancestors fuel tree (cur ∷ seen) (hex_encode b.prev_hash))
    ]
  ]
]

-- The entries of the tree that the walk has not seen.
abbrev unseen : Dict Bytes Block → List Bytes → ℕ
unseen [] seen = 0
unseen ((k, b) ∷ tree) seen = (if contains k seen then 0 else 1) + unseen tree seen

unseen-cons-le :
    (tree : Dict Bytes Block) (seen : List Bytes) (cur : Bytes)
    → unseen tree (cur ∷ seen) ≤ unseen tree seen
unfolding contains
unseen-cons-le [] seen cur = omega arith
unseen-cons-le ((k, b) ∷ tree) seen cur = ground (arith, unseen-cons-le tree seen cur)

unseen-cons-lt :
    (tree : Dict Bytes Block) (seen : List Bytes) (cur : Bytes)
    → contains cur seen ≡ false
    → lookup cur tree ≢ none
    → unseen tree (cur ∷ seen) < unseen tree seen
unfolding contains lookup
unseen-cons-lt [] seen cur fresh found = absurd (found refl)
unseen-cons-lt ((k, b) ∷ tree) seen cur fresh found = ground (
  arith,
  unseen-cons-lt tree seen cur fresh,
  unseen-cons-le tree seen cur,
  bytes_eq_iff k cur,
  bytes_eq_iff cur k,
)

unseen-nil : (tree : Dict Bytes Block) → unseen tree [] ≡ length tree
unfolding contains
unseen-nil [] = refl
unseen-nil ((k, b) ∷ tree) = omega (arith, unseen-nil tree)

-- One step of the walk.
pub ancestors_root :
    (fuel : ℕ) (tree : Dict Bytes Block) (seen : List Bytes) (cur : Bytes) {b : Block}
    → contains cur seen ≡ false
    → lookup cur tree ≡ some b
    → is_root b ≡ true
    → ancestors (suc fuel) tree seen cur ≡ some (ok (b ∷ []))
unfolding ancestors
ancestors_root fuel tree seen cur fresh found root = rw (fresh, ancestors) (rw found (rw root))

pub ancestors-above :
    (fuel : ℕ) (tree : Dict Bytes Block) (seen : List Bytes) (cur : Bytes) {b : Block}
    → contains cur seen ≡ false
    → lookup cur tree ≡ some b
    → is_root b ≡ false
    → ancestors (suc fuel) tree seen cur
      ≡ above b (ancestors fuel tree (cur ∷ seen) (hex_encode b.prev_hash))
unfolding ancestors
ancestors-above fuel tree seen cur fresh found inner = rw (fresh, ancestors) (rw found (rw inner))

ancestors_cycle :
    (fuel : ℕ) (tree : Dict Bytes Block) (seen : List Bytes) (cur : Bytes)
    → contains cur seen ≡ true
    → ancestors (suc fuel) tree seen cur ≡ some (err Error.cycle_detected)
unfolding ancestors
ancestors_cycle fuel tree seen cur cycle = rw (cycle, ancestors)

ancestors_missing :
    (fuel : ℕ) (tree : Dict Bytes Block) (seen : List Bytes) (cur : Bytes)
    → contains cur seen ≡ false
    → lookup cur tree ≡ none
    → ancestors (suc fuel) tree seen cur ≡ some (err Error.missing_ancestor)
unfolding ancestors
ancestors_missing fuel tree seen cur fresh missing = rw (fresh, ancestors) (rw missing)

above-ok :
    (b : Block) (o : Option (Result Error (List Block))) {rev : List Block}
    → above b o ≡ some (ok rev)
    → (rest : List Block) × (rev ≡ b ∷ rest)
above-ok b none e = cc
above-ok b (some (ok bs)) e = (bs, cc)
above-ok b (some (err x)) e = cc

-- A walk that ends starts with the tip's block.
pub ancestors-head :
    (fuel : ℕ) (tree : Dict Bytes Block) (tip : Bytes) {rev : List Block}
    → ancestors (suc fuel) tree [] tip ≡ some (ok rev)
    → (b : Block) × (rest : List Block) × (lookup tip tree ≡ some b) × (rev ≡ b ∷ rest)
unfolding contains
ancestors-head fuel tree tip e = elim (Option-cases (lookup tip tree)) [
  | inl missing ↦ absurd (ground (arith, e, ancestors_missing fuel tree [] tip refl missing))
  | inr (b, found) ↦ elim (Bool-cases (is_root b)) [
    | inl root ↦
        let walked = sym (ancestors_root fuel tree [] tip refl found root) ∙ e in
        (b, [], found, cc walked)
    | inr inner ↦
        let walked = sym (ancestors-above fuel tree [] tip refl found inner) ∙ e in
        let (rest, same) =
          above-ok b (ancestors fuel tree (tip ∷ []) (hex_encode b.prev_hash)) walked in
        (b, rest, found, same)
  ]
]

above-some :
    (b : Block) (o : Option (Result Error (List Block)))
    → (r : Result Error (List Block)) × (o ≡ some r)
    → (r : Result Error (List Block)) × (above b o ≡ some r)
above-some b none (r, e) = cc
above-some b (some (ok bs)) h = (ok (b ∷ bs), refl)
above-some b (some (err e)) h = (err e, refl)

ancestors_return :
    (fuel : ℕ) (tree : Dict Bytes Block) (seen : List Bytes) (cur : Bytes)
    → unseen tree seen < fuel
    → (r : Result Error (List Block)) × (ancestors fuel tree seen cur ≡ some r)
ancestors_return zero tree seen cur h = elim h [ ]
ancestors_return (suc fuel) tree seen cur h = elim (Bool-cases (contains cur seen)) [
  | inl cycle ↦ (err Error.cycle_detected, ancestors_cycle fuel tree seen cur cycle)
  | inr fresh ↦ elim (Option-cases (lookup cur tree)) [
    | inl missing ↦ (err Error.missing_ancestor, ancestors_missing fuel tree seen cur fresh missing)
    | inr (b, found) ↦ elim (Bool-cases (is_root b)) [
      | inl root ↦ (ok (b ∷ []), ancestors_root fuel tree seen cur fresh found root)
      | inr inner ↦
          let fewer = unseen-cons-lt tree seen cur fresh (λ gone. cc) in
          let (r, e) = above-some b (ancestors fuel tree (cur ∷ seen) (hex_encode b.prev_hash)) (
            ancestors_return fuel tree (cur ∷ seen) (hex_encode b.prev_hash)
              (omega (arith, fewer))) in
          (r, ancestors-above fuel tree seen cur fresh found inner ∙ e)
    ]
  ]
]

-- With one more round than the tree has entries the walk from any tip ends, in a list of blocks or
-- in an error: it cannot go round a cycle.
pub ancestors_total :
    (tree : Dict Bytes Block) (tip : Bytes)
    → (r : Result Error (List Block)) × (ancestors (suc (length tree)) tree [] tip ≡ some r)
ancestors_total tree tip =
    ancestors_return (suc (length tree)) tree [] tip (omega (arith, unseen-nil tree))
