-- ===== src/Trie/Put.antt =====
-- `Put` on a whole trie as a write to the map that the trie stands for.
use neo_coin.Base.{
  ◌≡◌, refl, ap, ◌∙◌, if◌then◌else◌, Option, none, some, [], ◌∷◌, arith, Option-cases, inl, inr,
}
use neo_coin.Base.Bytes.{Bytes, bytes_eq, IsByteList}
use neo_coin.Address.{hex_decode}
use neo_coin.Platform.{Platform}
use neo_coin.Trie.{Node, Trie, new_leaf, decoded_or, decode_key}
use neo_coin.Trie.Hash.{rehash}
use neo_coin.Trie.Write.{put_at, rehashed, trie_put}
use neo_coin.Trie.View.{view, view_root, held}
use neo_coin.Trie.Shape.{IsPath, IsNode, IsRoot, IsTrie}
use neo_coin.Trie.Paths
use neo_coin.Trie.Forks.{view-rehash, rehash-IsNode}
use neo_coin.Trie.Slots.{vacants-AreNodes, slots-vacants}
use neo_coin.Trie.Written.{insert-IsWritten}

hex_decode-IsByteList : (b r : Bytes) → hex_decode b ≡ some r → IsByteList r
unfolding hex_decode
hex_decode-IsByteList [] r h = ground arith
hex_decode-IsByteList (x ∷ []) r h = cc
hex_decode-IsByteList (x ∷ y ∷ rest) r h = elim (Option-cases (hex_decode rest)) [
  | inl e ↦ ground arith
  | inr (t, e) ↦ ground (arith, hex_decode-IsByteList rest t e)
]

pub decode_key-IsPath : (key : Bytes) → IsByteList key → IsPath (decode_key key)
unfolding decode_key
decode_key-IsPath key h =
    Paths.nibbles-IsPath (decoded_or key (hex_decode key)) (elim (Option-cases (hex_decode key)) [
      | inl e ↦ rw e h
      | inr (b, e) ↦ rw e (hex_decode-IsByteList key b e)
    ])

leaf_reads :
    (path value q : Bytes)
    → view (new_leaf path (some value)) q ≡ (if bytes_eq path q then some value else none)
unfolding view
leaf_reads path value q = refl

module _ (P : Platform) where
  first_leaf : (path value : Bytes) → IsPath path → IsNode (rehash P (new_leaf path (some value)))
  unfolding IsNode
  first_leaf path value p =
      rehash-IsNode P (new_leaf path (some value)) (tt, p, slots-vacants 16, vacants-AreNodes 16)

  put_at_refines :
      (root : Option Node) (path value : Bytes)
      → IsPath path
      → IsRoot root
      → (t' : Trie) × (put_at P root path value ≡ some t')
        × IsTrie t'
        × ((q : Bytes) → held t' q ≡ (if bytes_eq path q then some value else view_root root q))
  put_at_refines none path value p w = (
    record { root = some (rehash P (new_leaf path (some value))) },
    refl,
    first_leaf path value p,
    λ q. view-rehash P (new_leaf path (some value)) q ∙ leaf_reads path value q,
  )
  put_at_refines (some n) path value p w =
      let (m, d) = insert-IsWritten P n path value w p in
      (
        record { root = some (rehash P m) },
        ap (rehashed P) d.done,
        rehash-IsNode P m d.shape,
        λ q. view-rehash P m q ∙ d.reads q,
      )

  -- On a well-formed trie and a key of bytes `Put` of a value never panics; the new trie is well
  -- formed, holds the value at the key's path, and holds at every other path what it held before.
  pub put_refines :
      (key value : Bytes) (t : Trie)
      → IsByteList key
      → IsTrie t
      → (t' : Trie) × (trie_put P key value t ≡ some t')
        × IsTrie t'
        × ((path : Bytes)
            → held t' path ≡ (if bytes_eq (decode_key key) path then some value else held t path))
  unfolding trie_put
  put_refines key value t k w =
      put_at_refines t.root (decode_key key) value (decode_key-IsPath key k) w
