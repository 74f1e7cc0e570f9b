-- ===== src/Trie/Reads.antt =====
-- `Get` and `GetProof` against the map that a trie stands for.
use neo_coin.Base.{
  ℕ, zero, suc, ◌≡◌, refl, Bool, false, if◌then◌else◌, Option, none, some, [], ◌∷◌, arith, List,
}
use neo_coin.Base.Bytes.{Bytes, bytes_eq, bytes_eq_iff}
use neo_coin.Platform.{Platform}
use neo_coin.Trie.{
  NodeType, Node, node, Kids, nil, vacant, child, Trie, strip_prefix, from_rest, decode_key,
}
use neo_coin.Trie.Read.{
  is_some, get, get_kid, get_at, trie_get, collect_proof, collect_kid, found_at, get_proof,
}
use neo_coin.Trie.View.{view, view_kid, view_root, held}
use neo_coin.Trie.Shape.{IsNode, AreNodes, IsRoot, IsTrie, HasValue}

leaf_flag :
    (path key : Bytes) (value : Option Bytes)
    → HasValue value
    → bytes_eq path key ≡ is_some (if bytes_eq key path then value else none)
leaf_flag path key none v = absurd v
leaf_flag path key (some b) v = ground (arith, bytes_eq_iff path key, bytes_eq_iff key path)

through :
    (o : Option Bytes) (f : Bytes → Bool × List Bytes) (g : Bytes → Option Bytes)
    → ((r : Bytes) → (f r).0 ≡ is_some (g r))
    → (from_rest (false, []) f o).0 ≡ is_some (from_rest none g o)
through none f g h = refl
through (some r) f g h = h r

reads_through :
    (o : Option Bytes) (f : Bytes → Option (Option Bytes)) (g : Bytes → Option Bytes)
    (v : Option Bytes)
    → ((r : Bytes) → f r ≡ some v → g r ≡ v)
    → from_rest none f o ≡ some v
    → from_rest none g o ≡ v
reads_through none f g v h e = cc
reads_through (some r) f g v h e = h r e

module _ (P : Platform) where
  mutual
    unfolding collect_proof view IsNode

    collect_proof-view :
        (n : Node) (path : Bytes) → IsNode n → (collect_proof P n path).0 ≡ is_some (view n path)
    collect_proof-view (node NodeType.empty_node key value kids hash) path w = refl
    collect_proof-view (node NodeType.leaf_node key value kids hash) path w =
        leaf_flag path key value w.0
    collect_proof-view (node NodeType.extension_node key value kids hash) path w =
        through (strip_prefix key path) (λ r. collect_kid P kids 0 r) (view_kid kids 0)
          (λ r. collect_kid-view kids 0 r w.3)
    collect_proof-view (node NodeType.branch_node key value kids hash) [] w = refl
    collect_proof-view (node NodeType.branch_node key value kids hash) (x ∷ path) w =
        collect_kid-view kids x path w.3

    collect_kid-view :
        (ks : Kids) (i : ℕ) (path : Bytes)
        → AreNodes ks
        → (collect_kid P ks i path).0 ≡ is_some (view_kid ks i path)
    collect_kid-view nil i path w = refl
    collect_kid-view (vacant ks) zero path w = refl
    collect_kid-view (child n ks) zero path w = collect_proof-view n path w.0
    collect_kid-view (vacant ks) (suc i) path w = collect_kid-view ks i path w
    collect_kid-view (child n ks) (suc i) path w = collect_kid-view ks i path w.1

  found_at-view :
      (root : Option Node) (path : Bytes)
      → IsRoot root
      → found_at P root path ≡ is_some (view_root root path)
  found_at-view none path w = refl
  found_at-view (some n) path w = collect_proof-view n path w

mutual
  unfolding get view bytes_eq strip_prefix

  get_sound : (n : Node) (path : Bytes) (v : Option Bytes) → get n path ≡ some v → view n path ≡ v
  get_sound (node NodeType.empty_node key value kids hash) [] v h = cc
  get_sound (node NodeType.leaf_node key value kids hash) [] v h = cc
  get_sound (node NodeType.extension_node key value kids hash) [] v h = cc
  get_sound (node NodeType.branch_node key none kids hash) [] v h = cc
  get_sound (node NodeType.branch_node key (some b) kids hash) [] v h = cc
  get_sound (node NodeType.empty_node key value kids hash) (x ∷ path) v h = cc
  get_sound (node NodeType.leaf_node key value kids hash) (x ∷ path) v h =
      ground (arith, bytes_eq_iff (x ∷ path) key, bytes_eq_iff key (x ∷ path))
  get_sound (node NodeType.extension_node key value kids hash) (x ∷ path) v h =
      reads_through (strip_prefix key (x ∷ path)) (λ r. get_kid kids 0 r) (view_kid kids 0) v
        (λ r. get_kid_sound kids 0 r v) h
  get_sound (node NodeType.branch_node key value kids hash) (x ∷ path) v h =
      get_kid_sound kids x path v h

  get_kid_sound :
      (ks : Kids) (i : ℕ) (path : Bytes) (v : Option Bytes)
      → get_kid ks i path ≡ some v
      → view_kid ks i path ≡ v
  get_kid_sound nil i path v h = cc
  get_kid_sound (vacant ks) zero path v h = cc
  get_kid_sound (child n ks) zero path v h = get_sound n path v h
  get_kid_sound (vacant ks) (suc i) path v h = get_kid_sound ks i path v h
  get_kid_sound (child n ks) (suc i) path v h = get_kid_sound ks i path v h

get_at_sound :
    (root : Option Node) (path : Bytes) (v : Option Bytes)
    → get_at root path ≡ some v
    → view_root root path ≡ v
get_at_sound none path v h = cc
get_at_sound (some n) path v h = get_sound n path v h

-- On a well-formed trie `GetProof` says whether the trie holds a value for the key, and a value that
-- `Get` finds is the one that is held.
pub get_proof-held :
    (P : Platform) (key : Bytes) (t : Trie)
    → IsTrie t
    → (get_proof P key t ≡ is_some (held t (decode_key key)))
      × ((v : Option Bytes) → trie_get key t ≡ some v → held t (decode_key key) ≡ v)
unfolding get_proof trie_get
get_proof-held P key t w =
    (found_at-view P t.root (decode_key key) w, get_at_sound t.root (decode_key key))
