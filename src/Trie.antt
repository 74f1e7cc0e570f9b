-- ===== src/Trie.antt =====
-- internal/trie/trie.go: the nodes of the trie, key paths, and the children of a node. A path is a
-- list of nibbles, one of the 16 children for each. An index outside the children panics in Go; a
-- write there is `none` here. The children say how a trie is read, hashed, written and emptied.
pub mod Hash
pub mod Read
pub mod Write
pub mod Remove
pub mod View
pub mod Shape
pub mod Paths
pub mod Slots
pub mod Forks
pub mod Split
pub mod Begin
pub mod Insert
pub mod Written
pub mod Put
pub mod Reads
use neo_coin.Base.{
  ℕ, zero, suc, ◌+◌, ◌/◌, ◌%◌, Bool, true, false, if◌then◌else◌, ◌==◌, Option, none, some, List, [],
  ◌∷◌, ◌++◌, length, drop,
}
use neo_coin.Base.Bytes.{Bytes, bytes_eq}
use neo_coin.Address.{hex_decode}

pub data NodeType : Type 0 where
  empty_node leaf_node extension_node branch_node : NodeType

-- `Value` is nil or a byte slice. A pointer in `Children` is nil or a node.
mutual
  pub data Node : Type 0 where
    node : NodeType → Bytes → Option Bytes → Kids → Bytes → Node

  pub data Kids : Type 0 where
    nil : Kids
    vacant : Kids → Kids
    child : Node → Kids → Kids

pub record Trie : Type 0 where
  pub root : Option Node

abbrev pub new_trie : Trie
new_trie = record { root = none }

-- `[16]*Node{first}` and `[16]*Node{}`.
abbrev pub vacants : ℕ → Kids
vacants zero = nil
vacants (suc n) = vacant (vacants n)

abbrev pub no_children : Kids
no_children = vacants 16

abbrev pub only_child : Node → Kids
only_child n = child n (vacants 15)

-- `n.Children[i] = c`.
unfoldable pub set_kid : Kids → ℕ → Node → Option Kids
set_kid nil i c = none
set_kid (vacant ks) zero c = some (child c ks)
set_kid (child n ks) zero c = some (child c ks)
set_kid (vacant ks) (suc i) c = elim (set_kid ks i c) [ none ↦ none | some r ↦ some (vacant r) ]
set_kid (child n ks) (suc i) c = elim (set_kid ks i c) [ none ↦ none | some r ↦ some (child n r) ]

-- A new leaf, which has no hash yet.
abbrev pub new_leaf : Bytes → Option Bytes → Node
new_leaf path value = node NodeType.leaf_node path value no_children []

-- `bytes.HasPrefix(path, prefix)` and then `path[len(prefix):]`.
unfoldable pub strip_prefix : Bytes → Bytes → Option Bytes
strip_prefix [] path = some path
strip_prefix (k ∷ prefix) [] = none
strip_prefix (k ∷ prefix) (x ∷ path) = if k == x then strip_prefix prefix path else none

-- A value read from what is left of a path, or a default.
abbrev pub from_rest {ℓ} : {A : Type ℓ} → A → (Bytes → A) → Option Bytes → A
from_rest d f none = d
from_rest d f (some rest) = f rest

-- The loop that counts `cp`.
unfoldable pub common_length : Bytes → Bytes → ℕ
common_length [] path = 0
common_length (k ∷ key) [] = 0
common_length (k ∷ key) (x ∷ path) = if k == x then suc (common_length key path) else 0

unfoldable pub nibbles : Bytes → Bytes
nibbles [] = []
nibbles (b ∷ bs) = (b / 16) ∷ (b % 16) ∷ nibbles bs

-- `b` of `hex.DecodeString`, or the key's own bytes after its error.
abbrev pub decoded_or : Bytes → Option Bytes → Bytes
decoded_or key none = key
decoded_or key (some b) = b

-- A key that is no hex text stands for its own bytes.
unfoldable pub decode_key : Bytes → Bytes
unfolding nibbles
decode_key key = nibbles (decoded_or key (hex_decode key))
