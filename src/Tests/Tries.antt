-- ===== src/Tests/Tries.antt =====
-- The trie on concrete keys.
use neo_coin.Base.{◌≡◌, refl, arith, true, false, Option, none, some, [], ◌∷◌, if◌then◌else◌}
use neo_coin.Base.Bytes.{Bytes, ascii, bytes_eq}
use neo_coin.Address.{hex_decode}
use neo_coin.Trie.{Trie, new_trie, new_leaf, set_kid, strip_prefix, common_length, decode_key}
use neo_coin.Trie.Hash.{rehash, kid_hashes, branch_hash, encode_node, root_hash}
use neo_coin.Trie.Read.{is_some, trie_get, get, get_proof, collect_proof, iterator}
use neo_coin.Trie.Write.{trie_put, insert, insert_into_leaf, hang, wrap}
use neo_coin.Trie.Remove.{trie_delete, delete, compact}
use neo_coin.Trie.View.{held}
use neo_coin.Trie.Shape.{IsNode, IsTrie, slots}
use neo_coin.Trie.Put.{put_refines}
use neo_coin.Trie.Reads.{get_proof-held}
use neo_coin.Tests.World.{toy}

abbrev with_two : Bytes → Bytes → Bytes → Bytes → Option Trie
with_two k v l w = elim (trie_put toy k v new_trie) [ none ↦ none | some t ↦ trie_put toy l w t ]

abbrev one_key : Trie
one_key = record { root = some (new_leaf (10 ∷ 11 ∷ []) (some (7 ∷ []))) }

put_refines_example :
    (t' : Trie) × (trie_put toy (ascii "ac") (9 ∷ []) one_key ≡ some t')
    × IsTrie t'
    × ((path : Bytes)
        → held t' path
          ≡ (if bytes_eq (decode_key (ascii "ac")) path then some (9 ∷ []) else held one_key path))
unfolding IsNode slots
put_refines_example =
    put_refines toy (ascii "ac") (9 ∷ []) one_key (omega arith) (tt, (omega arith), refl, tt)

get_proof-held_example :
    (get_proof toy (ascii "ab") one_key ≡ is_some (held one_key (decode_key (ascii "ab"))))
    × ((v : Option Bytes)
        → trie_get (ascii "ab") one_key ≡ some v
        → held one_key (decode_key (ascii "ab")) ≡ v)
unfolding IsNode slots
get_proof-held_example = get_proof-held toy (ascii "ab") one_key (tt, (omega arith), refl, tt)

abbrev close_keys : Option Trie
close_keys = with_two (ascii "ab") (7 ∷ []) (ascii "ac") (9 ∷ [])

-- Two keys that differ in the last nibble: both are there, and `Get` finds neither.
close_keys_lost :
    elim close_keys [
      | none ↦ false ∷ false ∷ []
      | some t ↦
          is_some (trie_get (ascii "ab") t)
          ∷ get_proof toy (ascii "ab") t
          ∷ is_some (trie_get (ascii "ac") t)
          ∷ []
    ]
    ≡ false ∷ true ∷ false ∷ []
unfolding trie_put insert insert_into_leaf hang wrap set_kid common_length decode_key hex_decode
    rehash kid_hashes trie_get get get_proof collect_proof encode_node strip_prefix bytes_eq
close_keys_lost = refl

abbrev root_of : Option Trie → Option Bytes
root_of none = none
root_of (some t) = some (root_hash toy t)

-- The root hash of two keys is the same whatever their values are.
values_unhashed :
    (v w v' w' : Bytes)
    → root_of (with_two (ascii "ab") v (ascii "cd") w)
      ≡ root_of (with_two (ascii "ab") v' (ascii "cd") w')
unfolding trie_put insert insert_into_leaf hang wrap set_kid common_length decode_key hex_decode
    rehash root_hash branch_hash
values_unhashed v w v' w' = refl

-- Deleting one of two keys with a common first nibble loses the other.
delete_loses :
    elim close_keys [
      | none ↦ none
      | some t ↦ elim (trie_delete toy (ascii "ab") t) [
        | none ↦ none
        | some u ↦ some (get_proof toy (ascii "ac") u)
      ]
    ]
    ≡ some false
unfolding trie_put insert insert_into_leaf hang wrap set_kid common_length decode_key hex_decode
    rehash kid_hashes get_proof collect_proof encode_node strip_prefix bytes_eq trie_delete delete
    compact
delete_loses = refl

-- A key that begins another comes first among the keys and last among the values.
iterator_mispairs :
    elim (with_two (ascii "ab") (7 ∷ []) (ascii "abcd") (9 ∷ [])) [
      | none ↦ none
      | some t ↦ some (iterator t)
    ]
    ≡ some (ascii "ab" ∷ ascii "abcd" ∷ [], some (9 ∷ []) ∷ some (7 ∷ []) ∷ [])
unfolding trie_put insert insert_into_leaf hang wrap set_kid common_length decode_key hex_decode
    rehash kid_hashes iterator
iterator_mispairs = refl
