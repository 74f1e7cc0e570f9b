-- ===== src/Trie/Shape.antt =====
-- The tries that the writes build: key paths of nibbles, 16 children at every node, a value in every
-- leaf, and no node of the type `EmptyNode`.
use neo_coin.Base.{ℕ, suc, ◌<◌, ◌≡◌, Option, none, some, [], ◌∷◌}
use neo_coin.Base.Bytes.{Bytes}
use neo_coin.Trie.{NodeType, Node, node, Kids, nil, vacant, child, Trie}

abbrev pub IsPath : Bytes → Type 0
IsPath [] = Unit {0}
IsPath (x ∷ path) = (x < 16) × IsPath path

unfoldable pub slots : Kids → ℕ
slots nil = 0
slots (vacant ks) = suc (slots ks)
slots (child n ks) = suc (slots ks)

abbrev pub HasValue : Option Bytes → Type 0
HasValue none = ⊥
HasValue (some v) = Unit {0}

abbrev pub Fits : NodeType → Option Bytes → Type 0
Fits NodeType.empty_node value = ⊥
Fits NodeType.leaf_node value = HasValue value
Fits NodeType.extension_node value = Unit {0}
Fits NodeType.branch_node value = Unit {0}

unfoldable mutual
  pub IsNode : Node → Type 0
  IsNode (node kind key_path value kids hash) =
      Fits kind value × IsPath key_path × (slots kids ≡ 16) × AreNodes kids

  pub AreNodes : Kids → Type 0
  AreNodes nil = Unit {0}
  AreNodes (vacant ks) = AreNodes ks
  AreNodes (child n ks) = IsNode n × AreNodes ks

abbrev pub IsRoot : Option Node → Type 0
IsRoot none = Unit {0}
IsRoot (some n) = IsNode n

abbrev pub IsTrie : Trie → Type 0
IsTrie t = IsRoot t.root
