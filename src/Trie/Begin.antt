-- ===== src/Trie/Begin.antt =====
-- The first steps of a split: what is left of the old node hangs on a new branch.
use neo_coin.Base.{ℕ, ◌≡◌, refl, ap, ◌∙◌, if◌then◌else◌, ◌==◌, Option, none, some, [], ◌∷◌, arith}
use neo_coin.Base.Bytes.{Bytes, bytes_eq}
use neo_coin.Trie.{NodeType, node, Kids, no_children, strip_prefix, from_rest}
use neo_coin.Trie.Write.{Fork, fork_with, hang, hang_extension}
use neo_coin.Trie.View.{view, view_kid}
use neo_coin.Trie.Shape.{IsPath, slots, HasValue, IsNode, AreNodes}
use neo_coin.Trie.Paths.{Apart}
use neo_coin.Trie.Forks.{fork_view, Free, hang_total}
use neo_coin.Trie.Split.{IsBegun}
use neo_coin.Trie.Slots.{set_kid-IsReplaced, view_kid-vacants, vacants-AreNodes, slots-vacants}

-- What a leaf with a key path means.
abbrev pub spells : Bytes → Option Bytes → Bytes → Option Bytes
spells key old q = if bytes_eq key q then old else none

-- What an extension over children means.
abbrev pub leads : Bytes → Kids → Bytes → Option Bytes
leads key kids q = from_rest none (view_kid kids 0) (strip_prefix key q)

no_fork : (q : Bytes) → fork_view (no_children, none) q ≡ none
no_fork [] = refl
no_fork (x ∷ q) = view_kid-vacants 16 x q

spells-Free :
    (a b : Bytes) (old : Option Bytes) (fork : Fork)
    → Apart a b
    → ((q : Bytes) → fork_view fork q ≡ spells a old q)
    → Free b fork
unfolding bytes_eq
spells-Free a [] old fork p h = tt
spells-Free [] (y ∷ b) old fork p h = λ q. h (y ∷ q)
spells-Free (x ∷ a) (y ∷ b) old fork p h = λ q. ground (arith, h (y ∷ q))

leads-Free :
    (x : ℕ) (a b : Bytes) (kids : Kids) (fork : Fork)
    → Apart (x ∷ a) b
    → ((q : Bytes) → fork_view fork q ≡ leads (x ∷ a) kids q)
    → Free b fork
unfolding strip_prefix
leads-Free x a [] kids fork p h = tt
leads-Free x a (y ∷ b) kids fork p h = λ q. ground (arith, h (y ∷ q))

pub hang-IsBegun :
    (a b : Bytes) (old : Option Bytes)
    → IsPath a
    → HasValue old
    → Apart a b
    → (fork : Fork) × (hang a old (no_children, none) ≡ some fork) × IsBegun (spells a old) b fork
hang-IsBegun a b old p v apart =
    let (fork, hung) =
      hang_total a old (no_children, none) p v (slots-vacants 16, vacants-AreNodes 16)
        (vacant_Free a) in
    let reads : (q : Bytes) → fork_view fork q ≡ spells a old q =
      λ q. hung.reads q ∙ ap (λ d. if bytes_eq a q then old else d) (no_fork q) in
    (
      fork,
      hung.done,
      record { shape = hung.shape; reads = reads; free = spells-Free a b old fork apart reads },
    )
  where
    vacant_Free : (a : Bytes) → Free a (no_children, none)
    vacant_Free [] = tt
    vacant_Free (x ∷ a) = view_kid-vacants 16 x

leads_reads :
    (x : ℕ) (a : Bytes) (kids : Kids) (ks : Kids)
    → ((j : ℕ) (q : Bytes)
        → view_kid ks j q ≡ (
            if x == j
            then view (node NodeType.extension_node a none kids []) q
            else view_kid no_children j q))
    → (q : Bytes) → fork_view (ks, none) q ≡ leads (x ∷ a) kids q
unfolding view strip_prefix
leads_reads x a kids ks r [] = refl
leads_reads x a kids ks r (y ∷ q) = ground (arith, r y q, view_kid-vacants 16 y q)

pub hang_extension-IsBegun :
    (x : ℕ) (a b : Bytes) (kids : Kids)
    → IsPath (x ∷ a)
    → slots kids ≡ 16
    → AreNodes kids
    → Apart (x ∷ a) b
    → (fork : Fork) × (hang_extension (x ∷ a) kids ≡ some fork)
      × IsBegun (leads (x ∷ a) kids) b fork
unfolding hang_extension IsNode
hang_extension-IsBegun x a b kids p s w apart =
    let (ks, set) =
      set_kid-IsReplaced no_children x (node NodeType.extension_node a none kids [])
        (rw (slots-vacants 16) p.0) in
    let reads = leads_reads x a kids ks set.reads in
    (
      (ks, none),
      ap (fork_with none) set.done,
      record {
        shape = (set.full ∙ slots-vacants 16, set.nodes (vacants-AreNodes 16) (tt, p.1, s, w));
        reads = reads;
        free = leads-Free x a b kids (ks, none) apart reads;
      },
    )
