-- ===== src/Orphans/Bound.antt =====
-- While no block is removed from outside, the list and the map hold the same hashes, so `AddBlock`
-- keeps the pool within its bound by removing the oldest block.
use neo_coin.Base.{
  ℕ, suc, ◌<◌, ◌≤◌, ◌≡◌, refl, ap, ◌∙◌, true, false, leb, if◌then◌else◌, Option, none, some, List,
  [], ◌∷◌, length, arith, Bool-cases, Option-cases, inl, inr,
}
use neo_coin.Base.Bytes.{Bytes, bytes_eq_iff, bytes_eq_refl, hex_encode}
use neo_coin.Base.Dict.{Dict, bytes_key, lookup, insert, erase, lookup-erase, lookup-insert}
use neo_coin.Types.{Block}
use neo_coin.Orphans.{
  OrphanBlock, OrphanPool, split_back, remove_back, remove_oldest, push_block, add_unknown,
  add_orphan, get_block_by_hash,
}
use neo_coin.Orphans.Listed.{listed, is_pooled, split_back-none, split_back-IsSplit}

abbrev pub Distinct : List Bytes → Type 0
Distinct [] = Unit {0}
Distinct (k ∷ ks) = (listed k ks ≡ false) × Distinct ks

-- The list and the map hold the same hashes, each once.
pub record IsExact (op : OrphanPool) : Type 0 where
  pub same : (k : Bytes) → is_pooled (lookup k op.blocks) ≡ listed k op.height_list
  pub once : Distinct op.height_list

abbrev pub front_of : Option (List Bytes × Bytes) → List Bytes
front_of none = []
front_of (some (front, back)) = front

-- The list without its oldest entry, if the pool is full.
abbrev pub older_than : OrphanPool → List Bytes
older_than op =
    if leb op.max_orphans (length op.blocks)
    then front_of (split_back op.height_list)
    else op.height_list

length-erase :
    (k : Bytes) (m : Dict Bytes OrphanBlock)
    → (length (erase k m) ≤ length m)
      × (is_pooled (lookup k m) ≡ true → length (erase k m) < length m)
unfolding lookup erase
length-erase k [] = (omega arith, λ h. absurd (ground arith))
length-erase k ((j, ob) ∷ m) =
    let (a, b) = length-erase k m in (ground arith, λ h. ground (arith, b))

length-insert :
    (k : Bytes) (ob : OrphanBlock) (m : Dict Bytes OrphanBlock)
    → length (insert k ob m) ≤ suc (length m)
unfolding insert
length-insert k ob [] = omega arith
length-insert k ob ((j, o) ∷ m) = ground (arith, length-insert k ob m)

-- The last entry of a list without repetitions is not in front of itself.
split_back-Distinct :
    (ks front : List Bytes) (back : Bytes)
    → split_back ks ≡ some (front, back)
    → Distinct ks
    → Distinct front × (listed back front ≡ false)
unfolding split_back listed
split_back-Distinct [] front back e d = absurd (ground arith)
split_back-Distinct (j ∷ ks) front back e d = elim (Option-cases (split_back ks)) [
  | inl a ↦ let n : front ≡ [] = ground arith in rw n (tt, refl)
  | inr ((rest, last), a) ↦
      let (u, v) = split_back-Distinct ks rest last a d.1 in
      let n : front ≡ j ∷ rest = ground arith in
      let b : back ≡ last = ground arith in
      let s = split_back-IsSplit ks rest last a in
      rw n (
        (ground (arith, s.lists j), u),
        rw b (
            ground
              (arith, s.lists j, bytes_eq_iff j last, bytes_eq_iff last j, bytes_eq_refl last)),
      )
]

-- One oldest block removed from an exact pool that has a block.
record IsOlder (op op' : OrphanPool) : Type 0 where
  exact : IsExact op'
  fewer : 0 < length op.blocks → length op'.blocks < length op.blocks
  fronts : op'.height_list ≡ front_of (split_back op.height_list)
  max : op'.max_orphans ≡ op.max_orphans
  gone :
      (k : Bytes) → is_pooled (lookup k op.blocks) ≡ false → is_pooled (lookup k op'.blocks) ≡ false

no_keys :
    (m : Dict Bytes OrphanBlock) → ((k : Bytes) → is_pooled (lookup k m) ≡ false) → length m ≡ 0
unfolding lookup
no_keys [] h = refl
no_keys ((k, ob) ∷ m) h = absurd (ground (arith, h k, bytes_eq_refl k))

remove_back-IsOlder :
    (op : OrphanPool) (r : Option (List Bytes × Bytes))
    → split_back op.height_list ≡ r
    → IsExact op
    → IsOlder op (remove_back r op)
unfolding listed
remove_back-IsOlder op none e x =
    let empty = split_back-none op.height_list e in
    record {
      exact = x;
      fewer = λ h. absurd (omega (arith, no_keys op.blocks (λ k. x.same k ∙ ap (listed k) empty)));
      fronts = rw e empty;
      max = refl;
      gone = λ k h. h;
    }
remove_back-IsOlder op (some (front, back)) e x =
    let s = split_back-IsSplit op.height_list front back e in
    let (once, new) = split_back-Distinct op.height_list front back e x.once in
    record {
      exact = record {
        same = λ k.
            ground
              (arith, lookup-erase back k op.blocks, x.same k, s.lists k, new, bytes_eq_iff back k);
        once = once;
      };
      fewer = λ h.
          (length-erase back op.blocks).1
            (ground (arith, x.same back, s.lists back, bytes_eq_refl back));
      fronts = rw e refl;
      max = refl;
      gone = λ k h. ground (arith, lookup-erase back k op.blocks);
    }

-- What `AddBlock` makes of a pool that does not have the block.
pub record IsAdded (hash_hex : Bytes) (b : Block) (op op' : OrphanPool) : Type 0 where
  pub exact : IsExact op'
  pub fits : length op'.blocks ≤ op'.max_orphans
  pub max : op'.max_orphans ≡ op.max_orphans
  pub found : get_block_by_hash hash_hex op' ≡ some b
  pub order : op'.height_list ≡ hash_hex ∷ older_than op

push_block-IsAdded :
    (k : Bytes) (b : Block) (now : ℕ) (op base : OrphanPool)
    → IsExact base
    → is_pooled (lookup k base.blocks) ≡ false
    → length base.blocks < base.max_orphans
    → base.max_orphans ≡ op.max_orphans
    → base.height_list ≡ older_than op
    → IsAdded k b op (push_block k b now base)
unfolding get_block_by_hash listed
push_block-IsAdded k b now op base x new room max order =
    let ob : OrphanBlock = record { block = b; added_at = now } in
    record {
      exact = record {
        same = λ j. ground (arith, lookup-insert k j ob base.blocks, x.same j);
        once = (ground (arith, x.same k), x.once);
      };
      fits = omega (arith, length-insert k ob base.blocks);
      max = max;
      found = ground (arith, lookup-insert k k ob base.blocks, bytes_eq_refl k);
      order = ap (λ ks. k ∷ ks) order;
    }

add_unknown-IsAdded :
    (k : Bytes) (b : Block) (now : ℕ) (op : OrphanPool)
    → IsExact op
    → length op.blocks ≤ op.max_orphans
    → 0 < op.max_orphans
    → is_pooled (lookup k op.blocks) ≡ false
    → IsAdded k b op (add_unknown none k b now op)
unfolding remove_oldest
add_unknown-IsAdded k b now op x fits positive new =
    elim (Bool-cases (leb op.max_orphans (length op.blocks))) [
      | inl full ↦
          let o = remove_back-IsOlder op (split_back op.height_list) refl x in
          rw full (
            push_block-IsAdded k b now op (remove_oldest op) o.exact (o.gone k new)
              (ground (arith, o.fewer, o.max)) o.max (o.fronts ∙ rw full refl))
      | inr room ↦
          rw room (push_block-IsAdded k b now op op x new (ground arith) refl (rw room refl))
    ]

-- In a pool whose list and map hold the same hashes and which is within its bound, `AddBlock` of a
-- block that is not pooled keeps both facts, pools the block, and puts its hash in front of the
-- list, from which the oldest entry is removed exactly if the pool was full.
pub add_orphan-IsAdded :
    (b : Block) (now : ℕ) (op : OrphanPool)
    → IsExact op
    → length op.blocks ≤ op.max_orphans
    → 0 < op.max_orphans
    → lookup (hex_encode b.hash) op.blocks ≡ none
    → IsAdded (hex_encode b.hash) b op (add_orphan b now op)
unfolding add_orphan
add_orphan-IsAdded b now op x fits positive new =
    rw new (add_unknown-IsAdded (hex_encode b.hash) b now op x fits positive (ap is_pooled new))
