-- ===== src/Trie/Remove.antt =====
-- internal/trie/trie.go: `Delete` with `delete` and `compact`, and `Put` of nil. The outer `none`
-- is the panic of an index out of the children's range; the inner `none` is a nil node.
use neo_coin.Base.{ℕ, zero, suc, ◌+◌, if◌then◌else◌, ◌==◌, Option, none, some, [], ◌∷◌, ◌++◌}
use neo_coin.Base.Bytes.{Bytes, bytes_eq}
use neo_coin.Platform.{Platform}
use neo_coin.Trie.{
  NodeType, Node, node, Kids, nil, vacant, child, Trie, strip_prefix, new_leaf, decode_key,
}
use neo_coin.Trie.Hash.{rehash}
use neo_coin.Trie.Write.{map_kids, trie_put}

-- `Children[i] = c` for the result of a deletion.
abbrev pub kid_or_vacant : Option Node → Kids → Kids
kid_or_vacant none ks = vacant ks
kid_or_vacant (some n) ks = child n ks

-- The loop of `compact`: how many children there are, and the last one with its index.
unfoldable pub count_kids : Kids → ℕ
count_kids nil = 0
count_kids (vacant ks) = count_kids ks
count_kids (child n ks) = suc (count_kids ks)

unfoldable pub last_kid : Kids → ℕ → Option (ℕ × Node) → Option (ℕ × Node)
last_kid nil i last = last
last_kid (vacant ks) i last = last_kid ks (i + 1) last
last_kid (child n ks) i last = last_kid ks (i + 1) (some (i, n))

module _ (P : Platform) where
  -- A branch with one child and no value.
  abbrev pub pull_up : Option (ℕ × Node) → Node → Node
  pull_up none n = rehash P n
  pull_up (some (i, node NodeType.extension_node key_path value kids hash)) n =
      rehash P (node NodeType.extension_node (i ∷ key_path) value kids hash)
  pull_up (some (i, node NodeType.leaf_node key_path value kids hash)) n =
      new_leaf (i ∷ key_path) value
  pull_up (some (i, node NodeType.branch_node key_path value kids hash)) n = rehash P n
  pull_up (some (i, node NodeType.empty_node key_path value kids hash)) n = rehash P n

  -- `compact` of a branch. With a value and no child `lastChild` is -1, and its byte is 255.
  unfoldable pub compact : Bytes → Option Bytes → Kids → Bytes → Option Node
  unfolding count_kids last_kid
  compact key_path none kids hash =
      let n = node NodeType.branch_node key_path none kids hash in
      if count_kids kids == 0
      then none
      else if count_kids kids == 1
      then some (pull_up (last_kid kids 0 none) n)
      else some (rehash P n)
  compact key_path (some value) kids hash =
      if count_kids kids == 0
      then some (new_leaf (255 ∷ []) (some value))
      else some (rehash P (node NodeType.branch_node key_path (some value) kids hash))

  -- The end of an extension's case: a leaf below joins it, and the type stays.
  unfoldable pub rejoin : Bytes → Option Bytes → Kids → Bytes → Option Node
  rejoin key_path value nil hash = none
  rejoin key_path value (vacant ks) hash = none
  rejoin key_path none (child (node NodeType.leaf_node leaf_path leaf_value leaf_kids leaf_hash) ks)
        hash =
      some
        (rehash P (node NodeType.extension_node (key_path ++ leaf_path) leaf_value leaf_kids hash))
  rejoin key_path value (child n ks) hash =
      some (rehash P (node NodeType.extension_node key_path value (child n ks) hash))

  abbrev pub rejoined : Bytes → Option Bytes → Bytes → Option Kids → Option (Option Node)
  rejoined key_path value hash none = none
  rejoined key_path value hash (some kids) = some (rejoin key_path value kids hash)

  abbrev pub compacted : Bytes → Option Bytes → Bytes → Option Kids → Option (Option Node)
  compacted key_path value hash none = none
  compacted key_path value hash (some kids) = some (compact key_path value kids hash)

  abbrev pub with_kid : Kids → Option (Option Node) → Option Kids
  with_kid ks none = none
  with_kid ks (some r) = some (kid_or_vacant r ks)

  unfoldable mutual
    unfolding compact rejoin

    -- `delete`.
    pub delete : Node → Bytes → Option (Option Node)
    delete (node NodeType.empty_node key_path value kids hash) path =
        some (some (node NodeType.empty_node key_path value kids hash))
    delete (node NodeType.leaf_node key_path value kids hash) path = some (
        if bytes_eq path key_path
        then none
        else some (node NodeType.leaf_node key_path value kids hash))
    delete (node NodeType.extension_node key_path value kids hash) path =
        elim (strip_prefix key_path path) [
          | none ↦ some (some (node NodeType.extension_node key_path value kids hash))
          | some rest ↦ rejoined key_path value hash (delete_kid kids 0 rest)
        ]
    delete (node NodeType.branch_node key_path value kids hash) [] =
        some (compact key_path none kids hash)
    delete (node NodeType.branch_node key_path value kids hash) (x ∷ path) =
        compacted key_path value hash (delete_kid kids x path)

    -- `n.Children[i] = t.delete(n.Children[i], path)`.
    pub delete_kid : Kids → ℕ → Bytes → Option Kids
    delete_kid nil i path = none
    delete_kid (vacant ks) zero path = some (vacant ks)
    delete_kid (child n ks) zero path = with_kid ks (delete n path)
    delete_kid (vacant ks) (suc i) path = map_kids vacant (delete_kid ks i path)
    delete_kid (child n ks) (suc i) path = map_kids (child n) (delete_kid ks i path)

  abbrev pub rehash_root : Option (Option Node) → Option Trie
  rehash_root none = none
  rehash_root (some none) = some (record { root = none })
  rehash_root (some (some n)) = some (record { root = some (rehash P n) })

  abbrev pub delete_at : Option Node → Bytes → Option Trie
  delete_at none path = some (record { root = none })
  delete_at (some n) path = rehash_root (delete n path)

  -- `Delete`.
  unfoldable pub trie_delete : Bytes → Trie → Option Trie
  trie_delete key t = delete_at t.root (decode_key key)

  -- `Put`, where nil deletes.
  unfoldable pub put_or_delete : Bytes → Option Bytes → Trie → Option Trie
  unfolding trie_put trie_delete
  put_or_delete key none t = trie_delete key t
  put_or_delete key (some value) t = trie_put P key value t
