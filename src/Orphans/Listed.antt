-- ===== src/Orphans/Listed.antt =====
-- Every pooled block is on the list, whatever was removed, so that `LimitSize` ends.
use neo_coin.Base.{
  ℕ, suc, ◌≡◌, refl, ap, Bool, true, false, ◌||◌, leb, if◌then◌else◌, Option, none, some, List, [],
  ◌∷◌, length, arith, Bool-cases, Option-cases, inl, inr,
}
use neo_coin.Base.Bytes.{Bytes, bytes_eq, hex_encode}
use neo_coin.Base.Dict.{Dict, bytes_key, lookup, lookup-insert, lookup-erase}
use neo_coin.Types.{Block}
use neo_coin.Orphans.{
  OrphanBlock, OrphanPool, split_back, remove_back, remove_oldest, push_block, add_unknown,
  add_orphan, remove_block, drop_below, remove_blocks_below_height, Call, add, remove, remove_below,
  perform, perform_all,
}

unfoldable pub listed : Bytes → List Bytes → Bool
listed k [] = false
listed k (j ∷ ks) = bytes_eq j k || listed k ks

abbrev pub is_pooled : Option OrphanBlock → Bool
is_pooled none = false
is_pooled (some ob) = true

-- Each key of the map is on the list.
abbrev pub IsListed : OrphanPool → Type 0
IsListed op = (k : Bytes) → is_pooled (lookup k op.blocks) ≡ true → listed k op.height_list ≡ true

pub split_back-none : (ks : List Bytes) → split_back ks ≡ none → ks ≡ []
unfolding split_back
split_back-none [] e = refl
split_back-none (j ∷ ks) e = elim (Option-cases (split_back ks)) [
  | inl a ↦ absurd (ground arith)
  | inr ((front, back), a) ↦ absurd (ground arith)
]

-- The list without its last element.
pub record IsSplit (ks front : List Bytes) (back : Bytes) : Type 0 where
  pub shorter : length ks ≡ suc (length front)
  pub lists : (k : Bytes) → listed k ks ≡ (listed k front || bytes_eq back k)

pub split_back-IsSplit :
    (ks front : List Bytes) (back : Bytes)
    → split_back ks ≡ some (front, back)
    → IsSplit ks front back
unfolding split_back listed
split_back-IsSplit [] front back e = absurd (ground arith)
split_back-IsSplit (j ∷ ks) front back e = elim (Option-cases (split_back ks)) [
  | inl a ↦
      let empty = split_back-none ks a in
      let n : front ≡ [] = ground arith in
      let b : back ≡ j = ground arith in
      record { shorter = rw empty (rw n refl); lists = λ k. rw empty (rw n (rw b (ground arith))) }
  | inr ((rest, last), a) ↦
      let s = split_back-IsSplit ks rest last a in
      let n : front ≡ j ∷ rest = ground arith in
      let b : back ≡ last = ground arith in
      record {
        shorter = rw n (ap suc s.shorter);
        lists = λ k. rw n (rw b (ground (arith, s.lists k)));
      }
]

remove_back-IsListed :
    (op : OrphanPool) (r : Option (List Bytes × Bytes))
    → split_back op.height_list ≡ r
    → IsListed op
    → IsListed (remove_back r op)
remove_back-IsListed op none e l = l
remove_back-IsListed op (some (front, back)) e l =
    let s = split_back-IsSplit op.height_list front back e in
    λ k h. ground (arith, s.lists k, lookup-erase back k op.blocks, l k)

pub remove_oldest-IsListed : (op : OrphanPool) → IsListed op → IsListed (remove_oldest op)
unfolding remove_oldest
remove_oldest-IsListed op l = remove_back-IsListed op (split_back op.height_list) refl l

push_block-IsListed :
    (k : Bytes) (b : Block) (now : ℕ) (op : OrphanPool)
    → IsListed op
    → IsListed (push_block k b now op)
unfolding listed
push_block-IsListed k b now op l j h =
    ground (arith, lookup-insert k j (record { block = b; added_at = now }) op.blocks, l j)

add_unknown-IsListed :
    (known : Option OrphanBlock) (k : Bytes) (b : Block) (now : ℕ) (op : OrphanPool)
    → IsListed op
    → IsListed (add_unknown known k b now op)
add_unknown-IsListed (some ob) k b now op l = l
add_unknown-IsListed none k b now op l =
    push_block-IsListed k b now
      (if leb op.max_orphans (length op.blocks) then remove_oldest op else op)
      (elim (Bool-cases (leb op.max_orphans (length op.blocks))) [
        | inl full ↦ rw full (remove_oldest-IsListed op l)
        | inr room ↦ rw room l
      ])

-- The keys that a height leaves are among the old ones.
lookup-drop_below :
    (height : ℕ) (k : Bytes) (m : Dict Bytes OrphanBlock)
    → is_pooled (lookup k (drop_below height m)) ≡ true
    → is_pooled (lookup k m) ≡ true
unfolding lookup drop_below
lookup-drop_below height k [] h = h
lookup-drop_below height k ((j, ob) ∷ m) h = ground (arith, lookup-drop_below height k m)

perform-IsListed : (c : Call) (op : OrphanPool) → IsListed op → IsListed (perform c op)
unfolding perform add_orphan remove_block remove_blocks_below_height
perform-IsListed (add b now) op l =
    add_unknown-IsListed (lookup (hex_encode b.hash) op.blocks) (hex_encode b.hash) b now op l
perform-IsListed (remove hash) op l =
    λ k h. ground (arith, lookup-erase (hex_encode hash) k op.blocks, l k)
perform-IsListed (remove_below height) op l = λ k h. l k (lookup-drop_below height k op.blocks h)

pub perform_all-IsListed :
    (cs : List Call) (op : OrphanPool) → IsListed op → IsListed (perform_all cs op)
unfolding perform_all
perform_all-IsListed [] op l = l
perform_all-IsListed (c ∷ cs) op l =
    perform_all-IsListed cs (perform c op) (perform-IsListed c op l)
