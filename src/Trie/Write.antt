-- ===== src/Trie/Write.antt =====
-- internal/trie/trie.go: `Put` of a value with `insert`, `insertIntoLeaf` and `insertIntoExtension`.
-- `none` is the panic of an index out of the children's range.
use neo_coin.Base.{
  ℕ, zero, suc, ◌&&◌, if◌then◌else◌, ◌==◌, Option, none, some, [], ◌∷◌, length, take, drop,
}
use neo_coin.Base.Bytes.{Bytes}
use neo_coin.Platform.{Platform}
use neo_coin.Trie.{
  NodeType, Node, node, Kids, nil, vacant, child, Trie, no_children, only_child, set_kid, new_leaf,
  common_length, decode_key,
}
use neo_coin.Trie.Hash.{rehash}

-- What hangs on a new branch: its children and its value.
abbrev pub Fork : Type 0
Fork = Kids × Option Bytes

abbrev pub child_with : Kids → Option Node → Option Kids
child_with ks none = none
child_with ks (some n) = some (child n ks)

abbrev pub map_kids : (Kids → Kids) → Option Kids → Option Kids
map_kids f none = none
map_kids f (some ks) = some (f ks)

abbrev pub fork_with : Option Bytes → Option Kids → Option Fork
fork_with value none = none
fork_with value (some ks) = some (ks, value)

-- `if cp < len(path)` a leaf for what is left of the path, `else` the branch's value.
unfoldable pub hang : Bytes → Option Bytes → Fork → Option Fork
unfolding set_kid
hang [] value fork = some (fork.0, value)
hang (x ∷ rest) value fork = fork_with fork.1 (set_kid fork.0 x (new_leaf rest value))

-- The rest of the old extension as a child of the new branch.
unfoldable pub hang_extension : Bytes → Kids → Option Fork
unfolding set_kid
hang_extension [] kids = none
hang_extension (x ∷ rest) kids =
    fork_with none (set_kid no_children x (node NodeType.extension_node rest none kids []))

module _ (P : Platform) where
  abbrev pub branch_of : Fork → Node
  branch_of fork = rehash P (node NodeType.branch_node [] fork.1 fork.0 [])

  -- The common prefix as an extension over the branch, or the branch alone.
  unfoldable pub wrap : Bytes → Node → Node
  wrap [] branch = branch
  wrap (k ∷ prefix) branch = node NodeType.extension_node (k ∷ prefix) none (only_child branch) []

  abbrev pub finish : Bytes → Option Fork → Option Node
  finish prefix none = none
  finish prefix (some fork) = some (wrap prefix (branch_of fork))

  abbrev pub hang_next : Bytes → Option Bytes → Option Fork → Option Fork
  hang_next rest value none = none
  hang_next rest value (some fork) = hang rest value fork

  -- `insertIntoLeaf`.
  unfoldable pub insert_into_leaf : Bytes → Option Bytes → Bytes → Bytes → Option Node
  unfolding hang wrap
  insert_into_leaf orig_path old path value =
      let cp = common_length orig_path path in
      if cp == length orig_path && cp == length path
      then some (new_leaf orig_path (some value))
      else finish (take cp orig_path)
          (hang_next (drop cp path) (some value) (hang (drop cp orig_path) old (no_children, none)))

  -- The part of `insertIntoExtension` for a path that leaves the extension.
  unfoldable pub split_extension : Bytes → Kids → Bytes → Bytes → Option Node
  unfolding hang hang_extension wrap
  split_extension key_path kids path value =
      let cp = common_length key_path path in
      finish (take cp key_path)
        (hang_next (drop cp path) (some value) (hang_extension (drop cp key_path) kids))

  abbrev pub put_back : NodeType → Bytes → Option Bytes → Bytes → Option Kids → Option Node
  put_back kind key_path value hash none = none
  put_back kind key_path value hash (some kids) =
      some (rehash P (node kind key_path value kids hash))

  unfoldable mutual
    unfolding insert_into_leaf split_extension

    -- `insert`.
    pub insert : Node → Bytes → Bytes → Option Node
    insert (node NodeType.empty_node key_path old kids hash) path value =
        some (node NodeType.empty_node key_path old kids hash)
    insert (node NodeType.leaf_node key_path old kids hash) path value =
        insert_into_leaf key_path old path value
    insert (node NodeType.extension_node key_path old kids hash) path value =
        let cp = common_length key_path path in
        let deeper =
          put_back NodeType.extension_node key_path old hash
            (insert_kid kids 0 (drop cp path) value) in
        if cp == length key_path then deeper else split_extension key_path kids path value
    insert (node NodeType.branch_node key_path old kids hash) [] value =
        some (rehash P (node NodeType.branch_node key_path (some value) kids hash))
    insert (node NodeType.branch_node key_path old kids hash) (x ∷ path) value =
        put_back NodeType.branch_node key_path old hash (insert_kid kids x path value)

    -- `n.Children[i] = t.insert(n.Children[i], path, value)`.
    pub insert_kid : Kids → ℕ → Bytes → Bytes → Option Kids
    insert_kid nil i path value = none
    insert_kid (vacant ks) zero path value = some (child (new_leaf path (some value)) ks)
    insert_kid (child n ks) zero path value = child_with ks (insert n path value)
    insert_kid (vacant ks) (suc i) path value = map_kids vacant (insert_kid ks i path value)
    insert_kid (child n ks) (suc i) path value = map_kids (child n) (insert_kid ks i path value)

  abbrev pub rehashed : Option Node → Option Trie
  rehashed none = none
  rehashed (some n) = some (record { root = some (rehash P n) })

  abbrev pub put_at : Option Node → Bytes → Bytes → Option Trie
  put_at none path value = rehashed (some (new_leaf path (some value)))
  put_at (some n) path value = rehashed (insert n path value)

  -- `Put` of a value that is not nil.
  unfoldable pub trie_put : Bytes → Bytes → Trie → Option Trie
  trie_put key value t = put_at t.root (decode_key key) value
