-- ===== src/Trie/Insert.antt =====
-- `insert` succeeds on well-formed nodes and paths, keeps the shape, and changes what the node
-- means at the one path.
use neo_coin.Base.{
  ℕ, ◌≡◌, ◌≢◌, sym, ap, ◌∙◌, ◌&&◌, ◌==◌, Option, none, some, ◌∷◌, ◌++◌, length, take, drop, arith,
  Bool-cases, Option-cases, inl, inr, take-append-drop,
}
use mathlib.Core.Path.{subst}
use neo_coin.Base.Bytes.{Bytes, bytes_eq}
use neo_coin.Platform.{Platform}
use neo_coin.Trie.{Node, Kids, new_leaf, strip_prefix, from_rest, common_length}
use neo_coin.Trie.Write.{finish, hang_next, insert_into_leaf, split_extension, hang_extension}
use neo_coin.Trie.View.{view, view_kid}
use neo_coin.Trie.Shape.{IsPath, slots, HasValue, IsNode, AreNodes}
use neo_coin.Trie.Paths
use neo_coin.Trie.Split.{write, IsWritten, finish_lem}
use neo_coin.Trie.Begin.{spells, leads, hang-IsBegun, hang_extension-IsBegun}
use neo_coin.Trie.Slots.{vacants-AreNodes, slots-vacants}

spells-append :
    (prefix a : Bytes) (old : Option Bytes) (q : Bytes)
    → spells (prefix ++ a) old q ≡ from_rest none (spells a old) (strip_prefix prefix q)
spells-append prefix a old q = elim (Option-cases (strip_prefix prefix q)) [
  | inl off ↦ ground (arith, Paths.bytes_eq-append prefix a q)
  | inr (r, at) ↦ ground (arith, Paths.bytes_eq-append prefix a q)
]

leads-append :
    (prefix a : Bytes) (kids : Kids) (q : Bytes)
    → leads (prefix ++ a) kids q ≡ from_rest none (leads a kids) (strip_prefix prefix q)
leads-append prefix a kids q = elim (Option-cases (strip_prefix prefix q)) [
  | inl off ↦ ground (arith, Paths.strip_prefix-append prefix a q)
  | inr (r, at) ↦ ground (arith, Paths.strip_prefix-append prefix a q)
]

-- A path behind an extension's key path is written below it.
pub write-leads :
    (key rest path value : Bytes) (kids kids' : Kids)
    → path ≡ key ++ rest
    → ((q : Bytes) → view_kid kids' 0 q ≡ write (view_kid kids 0) rest value q)
    → (q : Bytes) → leads key kids' q ≡ write (leads key kids) path value q
write-leads key rest path value kids kids' e h q = elim (Option-cases (strip_prefix key q)) [
  | inl off ↦ ground (arith, Paths.bytes_eq-append key rest q)
  | inr (r, at) ↦ ground (arith, Paths.bytes_eq-append key rest q, h r)
]

module _ (P : Platform) where
  pub insert_into_leaf-IsWritten :
      (key : Bytes) (old : Option Bytes) (path value : Bytes)
      → IsPath key
      → HasValue old
      → IsPath path
      → (m : Node) × IsWritten (spells key old) path value (insert_into_leaf P key old path value) m
  unfolding insert_into_leaf IsNode view bytes_eq
  insert_into_leaf-IsWritten key old path value k v p =
      let cp : ℕ = common_length key path in
      elim (Bool-cases (cp == length key && cp == length path)) [
        | inl same ↦
            let e : key ≡ path = Paths.eq_of_common_length key path (ground arith) (ground arith) in
            (
              new_leaf key (some value),
              record {
                done = rw same;
                shape = (tt, k, slots-vacants 16, vacants-AreNodes 16);
                reads = λ q. ground arith;
              },
            )
        | inr other ↦
            let (fork, hung, b) =
              hang-IsBegun (drop cp key) (drop cp path) old (Paths.drop-IsPath cp key k) v
                (Paths.common_length-Apart key path) in
            let (m, w) =
              finish_lem P (spells key old) (spells (drop cp key) old) (take cp key) (drop cp path)
                path value fork (Paths.take-IsPath cp key k) (Paths.drop-IsPath cp path p) b
                (sym (take-append-drop cp path)
                  ∙ ap (λ t. t ++ drop cp path) (Paths.take-common_length key path))
                (λ q.
                  ap (λ t. spells t old q) (sym (take-append-drop cp key))
                  ∙ spells-append (take cp key) (drop cp key) old q) in
            (
              m,
              record {
                done = rw other (
                    ap (λ f. finish P (take cp key) (hang_next P (drop cp path) (some value) f))
                      hung
                    ∙ w.done);
                shape = w.shape;
                reads = w.reads;
              },
            )
      ]

  pub extension_split :
      (key : Bytes) (kids : Kids) (path value : Bytes)
      → IsPath key
      → slots kids ≡ 16
      → AreNodes kids
      → IsPath path
      → common_length key path ≢ length key
      → (m : Node) × IsWritten (leads key kids) path value (split_extension P key kids path value) m
  unfolding split_extension
  extension_split key kids path value k s n p ne =
      let cp : ℕ = common_length key path in
      let (x, a, e) = Paths.drop-common_length_ne key path ne in
      let apart = Paths.common_length-Apart key path in
      let (fork, hung, b) =
        hang_extension-IsBegun x a (drop cp path) kids (subst IsPath e (Paths.drop-IsPath cp key k))
          s n (subst (λ d. Paths.Apart d (drop cp path)) e apart) in
      let (m, w) =
        finish_lem P (leads key kids) (leads (x ∷ a) kids) (take cp key) (drop cp path) path value
          fork (Paths.take-IsPath cp key k) (Paths.drop-IsPath cp path p) b
          (sym (take-append-drop cp path)
            ∙ ap (λ t. t ++ drop cp path) (Paths.take-common_length key path))
          (λ q.
            ap (λ t. leads t kids q) (sym (take-append-drop cp key) ∙ ap (λ d. take cp key ++ d) e)
            ∙ leads-append (take cp key) (x ∷ a) kids q) in
      (
        m,
        record {
          done =
              ap (λ f. finish P (take cp key) (hang_next P (drop cp path) (some value) f))
                (ap (λ d. hang_extension d kids) e ∙ hung)
              ∙ w.done;
          shape = w.shape;
          reads = w.reads;
        },
      )
