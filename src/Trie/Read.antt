-- ===== src/Trie/Read.antt =====
-- internal/trie/trie.go: `Get`, `GetProof`, `Size` and the entries in the order of `iterate`. A
-- value that is found may be nil, which is `some none`.
use Prim.Native.Nat.{bit_or}
use neo_coin.Base.{
  ℕ, zero, suc, ◌+◌, ◌*◌, ◌%◌, Bool, true, false, if◌then◌else◌, Option, none, some, List, [], ◌∷◌,
  ◌++◌, map, length,
}
use neo_coin.Base.Bytes.{Bytes, bytes_eq, bytes_ltb, hex_encode}
use neo_coin.Platform.{Platform}
use neo_coin.Trie.{
  NodeType, Node, node, Kids, nil, vacant, child, Trie, strip_prefix, from_rest, decode_key,
}
use neo_coin.Trie.Hash.{encode_node}

-- `if n.Value != nil { return n.Value, true }`.
abbrev pub if_present : Option Bytes → Option (Option Bytes)
if_present none = none
if_present (some v) = some (some v)

abbrev pub is_some {ℓ} : {A : Type ℓ} → Option A → Bool
is_some none = false
is_some (some a) = true

unfoldable mutual
  -- The method `get`, whose first test ends an empty path at every node but a branch.
  pub get : Node → Bytes → Option (Option Bytes)
  get (node NodeType.branch_node key_path value kids hash) [] = if_present value
  get (node NodeType.empty_node key_path value kids hash) [] = none
  get (node NodeType.leaf_node key_path value kids hash) [] = none
  get (node NodeType.extension_node key_path value kids hash) [] = none
  get (node NodeType.empty_node key_path value kids hash) (x ∷ path) = none
  get (node NodeType.leaf_node key_path value kids hash) (x ∷ path) =
      if bytes_eq (x ∷ path) key_path then some value else none
  get (node NodeType.extension_node key_path value kids hash) (x ∷ path) =
      from_rest none (λ remaining. get_kid kids 0 remaining) (strip_prefix key_path (x ∷ path))
  get (node NodeType.branch_node key_path value kids hash) (x ∷ path) = get_kid kids x path

  -- `get(n.Children[i], path)`.
  pub get_kid : Kids → ℕ → Bytes → Option (Option Bytes)
  get_kid nil i path = none
  get_kid (vacant ks) zero path = none
  get_kid (child n ks) zero path = get n path
  get_kid (vacant ks) (suc i) path = get_kid ks i path
  get_kid (child n ks) (suc i) path = get_kid ks i path

abbrev pub get_at : Option Node → Bytes → Option (Option Bytes)
get_at none path = none
get_at (some n) path = get n path

-- `Get`.
unfoldable pub trie_get : Bytes → Trie → Option (Option Bytes)
trie_get key t = get_at t.root (decode_key key)

-- The result from below with the node's own hash in front.
abbrev below : Bytes → Bool × List Bytes → Bool × List Bytes
below own rest = (rest.0, own ∷ rest.1)

module _ (P : Platform) where
  unfoldable mutual
    -- `collectProof`: whether the key is there, and the hashes of the nodes on the way.
    pub collect_proof : Node → Bytes → Bool × List Bytes
    collect_proof (node NodeType.empty_node key_path value kids hash) path =
        (false, encode_node P (node NodeType.empty_node key_path value kids hash) ∷ [])
    collect_proof (node NodeType.leaf_node key_path value kids hash) path = (
      bytes_eq path key_path,
      encode_node P (node NodeType.leaf_node key_path value kids hash) ∷ [],
    )
    collect_proof (node NodeType.extension_node key_path value kids hash) path =
        below (encode_node P (node NodeType.extension_node key_path value kids hash)) (
          from_rest (false, []) (λ remaining. collect_kid kids 0 remaining)
            (strip_prefix key_path path))
    collect_proof (node NodeType.branch_node key_path value kids hash) [] =
        (is_some value, encode_node P (node NodeType.branch_node key_path value kids hash) ∷ [])
    collect_proof (node NodeType.branch_node key_path value kids hash) (x ∷ path) =
        below (encode_node P (node NodeType.branch_node key_path value kids hash))
          (collect_kid kids x path)

    pub collect_kid : Kids → ℕ → Bytes → Bool × List Bytes
    collect_kid nil i path = (false, [])
    collect_kid (vacant ks) zero path = (false, [])
    collect_kid (child n ks) zero path = collect_proof n path
    collect_kid (vacant ks) (suc i) path = collect_kid ks i path
    collect_kid (child n ks) (suc i) path = collect_kid ks i path

  abbrev pub found_at : Option Node → Bytes → Bool
  found_at none path = false
  found_at (some n) path = (collect_proof n path).0

  -- `GetProof`, which returns only the flag.
  unfoldable pub get_proof : Bytes → Trie → Bool
  get_proof key t = found_at t.root (decode_key key)

abbrev even_part : Bytes → Bytes
even_part [] = []
even_part (x ∷ []) = []
even_part (x ∷ y ∷ rest) = bit_or (x * 16 % 256) y ∷ even_part rest

-- `encodeKey`, which drops a last odd nibble.
unfoldable pub encode_key : Bytes → Bytes
unfolding hex_encode
encode_key path = hex_encode (even_part path)

unfoldable mutual
  unfolding encode_key

  -- `iterate`: a branch's own value comes after those of its children.
  pub iterate : Node → Bytes → List (Bytes × Option Bytes)
  iterate (node NodeType.empty_node key_path value kids hash) prefix = []
  iterate (node NodeType.leaf_node key_path value kids hash) prefix =
      (encode_key (prefix ++ key_path), value) ∷ []
  iterate (node NodeType.extension_node key_path value kids hash) prefix =
      iterate_first kids (prefix ++ key_path)
  iterate (node NodeType.branch_node key_path value kids hash) prefix =
      iterate_kids kids 0 prefix ++ (if is_some value then (encode_key prefix, value) ∷ [] else [])

  pub iterate_first : Kids → Bytes → List (Bytes × Option Bytes)
  iterate_first nil prefix = []
  iterate_first (vacant ks) prefix = []
  iterate_first (child n ks) prefix = iterate n prefix

  pub iterate_kids : Kids → ℕ → Bytes → List (Bytes × Option Bytes)
  iterate_kids nil i prefix = []
  iterate_kids (vacant ks) i prefix = iterate_kids ks (i + 1) prefix
  iterate_kids (child n ks) i prefix =
      iterate n (prefix ++ i ∷ []) ++ iterate_kids ks (i + 1) prefix

unfoldable pub entries : Trie → List (Bytes × Option Bytes)
unfolding iterate
entries t = elim t.root [ none ↦ [] | some n ↦ iterate n [] ]

-- `Size`.
unfoldable pub size : Trie → ℕ
unfolding entries
size t = length (entries t)

abbrev place : Bytes → List Bytes → List Bytes
place k [] = k ∷ []
place k (j ∷ ks) = if bytes_ltb j k then j ∷ place k ks else k ∷ j ∷ ks

-- `sort.Strings`.
abbrev sort_strings : List Bytes → List Bytes
sort_strings [] = []
sort_strings (k ∷ ks) = place k (sort_strings ks)

-- `Iterator`: the keys in order, and the values in the order of `iterate`.
unfoldable pub iterator : Trie → List Bytes × List (Option Bytes)
unfolding entries bytes_ltb
iterator t = (sort_strings (map (λ e. e.0) (entries t)), map (λ e. e.1) (entries t))
