-- ===== src/Trie/Hash.antt =====
-- internal/trie/trie.go: `rehash` and `RootHash`. A node stores its hash, and `rehash` of a branch
-- reads the stored hashes of its children as they are.
use neo_coin.Base.{Option, none, some, [], ◌∷◌, ◌++◌, replicate}
use neo_coin.Base.Bytes.{Bytes}
use neo_coin.Platform.{Platform}
use neo_coin.Trie.{NodeType, Node, node, Kids, nil, vacant, child, Trie}

-- What `h.Write` adds of a slice that may be nil.
abbrev pub written : Option Bytes → Bytes
written none = []
written (some b) = b

abbrev pub hash_of : Node → Bytes
hash_of (node kind key_path value kids hash) = hash

abbrev pub first_hash : Kids → Bytes
first_hash nil = []
first_hash (vacant ks) = []
first_hash (child n ks) = hash_of n

-- A missing child counts as 32 zero bytes.
unfoldable pub kid_hashes : Kids → Bytes
kid_hashes nil = []
kid_hashes (vacant ks) = replicate 32 0 ++ kid_hashes ks
kid_hashes (child n ks) = hash_of n ++ kid_hashes ks

module _ (P : Platform) where
  abbrev pub leaf_hash : Bytes → Option Bytes → Bytes
  leaf_hash key_path value = P.sha256 (0 ∷ key_path ++ written value)

  abbrev pub extension_hash : Bytes → Kids → Bytes
  extension_hash key_path kids = P.sha256 (1 ∷ key_path ++ first_hash kids)

  unfoldable pub branch_hash : Kids → Option Bytes → Bytes
  unfolding kid_hashes
  branch_hash kids value = P.sha256 (2 ∷ kid_hashes kids ++ written value)

  unfoldable mutual
    -- `rehash`.
    pub rehash : Node → Node
    rehash (node NodeType.empty_node key_path value kids hash) =
        node NodeType.empty_node key_path value kids hash
    rehash (node NodeType.leaf_node key_path value kids hash) =
        node NodeType.leaf_node key_path value kids (leaf_hash key_path value)
    rehash (node NodeType.extension_node key_path value kids hash) =
        let kids' = rehash_first kids in
        node NodeType.extension_node key_path value kids' (extension_hash key_path kids')
    rehash (node NodeType.branch_node key_path value kids hash) =
        node NodeType.branch_node key_path value kids (branch_hash kids value)

    pub rehash_first : Kids → Kids
    rehash_first nil = nil
    rehash_first (vacant ks) = vacant ks
    rehash_first (child n ks) = child (rehash n) ks

  -- `encodeNode`, which is the hash that `rehash` would store, from the children's stored hashes.
  unfoldable pub encode_node : Node → Bytes
  unfolding branch_hash
  encode_node (node NodeType.empty_node key_path value kids hash) = []
  encode_node (node NodeType.leaf_node key_path value kids hash) = leaf_hash key_path value
  encode_node (node NodeType.extension_node key_path value kids hash) = extension_hash key_path kids
  encode_node (node NodeType.branch_node key_path value kids hash) = branch_hash kids value

  -- `RootHash`.
  unfoldable pub root_hash : Trie → Bytes
  root_hash t = elim t.root [ none ↦ P.sha256 [] | some n ↦ hash_of n ]
