-- ===== src/Trie/View.antt =====
-- What a trie means: the map from paths to values that its nodes spell. It is written down apart
-- from the reads of the code.
use neo_coin.Base.{ℕ, zero, suc, if◌then◌else◌, Option, none, some, [], ◌∷◌}
use neo_coin.Base.Bytes.{Bytes, bytes_eq}
use neo_coin.Trie.{NodeType, Node, node, Kids, nil, vacant, child, Trie, strip_prefix, from_rest}

unfoldable mutual
  pub view : Node → Bytes → Option Bytes
  view (node NodeType.empty_node key_path value kids hash) path = none
  view (node NodeType.leaf_node key_path value kids hash) path =
      if bytes_eq key_path path then value else none
  view (node NodeType.extension_node key_path value kids hash) path =
      from_rest none (λ rest. view_kid kids 0 rest) (strip_prefix key_path path)
  view (node NodeType.branch_node key_path value kids hash) [] = value
  view (node NodeType.branch_node key_path value kids hash) (x ∷ path) = view_kid kids x path

  pub view_kid : Kids → ℕ → Bytes → Option Bytes
  view_kid nil i path = none
  view_kid (vacant ks) zero path = none
  view_kid (child n ks) zero path = view n path
  view_kid (vacant ks) (suc i) path = view_kid ks i path
  view_kid (child n ks) (suc i) path = view_kid ks i path

abbrev pub view_root : Option Node → Bytes → Option Bytes
view_root none path = none
view_root (some n) path = view n path

-- The value that a trie holds for a path.
abbrev pub held : Trie → Bytes → Option Bytes
held t path = view_root t.root path
