-- ===== src/Trie/Forks.antt =====
-- What hangs on a new branch: each step succeeds, keeps the shape, and adds one path. Hashing
-- changes neither.
use neo_coin.Base.{ℕ, ◌≡◌, refl, ap, ◌∙◌, if◌then◌else◌, ◌==◌, Option, none, some, [], ◌∷◌, arith}
use neo_coin.Base.Bytes.{Bytes, bytes_eq}
use neo_coin.Platform.{Platform}
use neo_coin.Trie.{NodeType, Node, node, Kids, nil, vacant, child, new_leaf, strip_prefix}
use neo_coin.Trie.Hash.{rehash, rehash_first}
use neo_coin.Trie.Write.{Fork, fork_with, hang}
use neo_coin.Trie.View.{view, view_kid}
use neo_coin.Trie.Shape.{IsPath, slots, HasValue, IsNode, AreNodes}
use neo_coin.Trie.Paths
use neo_coin.Trie.Paths.{Apart}
use neo_coin.Trie.Slots.{set_kid-IsReplaced, vacants-AreNodes, slots-vacants}

-- What a fork's branch means.
abbrev pub fork_view : Fork → Bytes → Option Bytes
fork_view fork [] = fork.1
fork_view fork (x ∷ q) = view_kid fork.0 x q

abbrev pub IsFork : Fork → Type 0
IsFork fork = (slots fork.0 ≡ 16) × AreNodes fork.0

-- The child that a rest starts with is not taken.
abbrev pub Free : Bytes → Fork → Type 0
Free [] fork = Unit {0}
Free (x ∷ rest) fork = (q : Bytes) → view_kid fork.0 x q ≡ none

pub record IsHung (rest : Bytes) (value : Option Bytes) (fork : Fork) (fork' : Fork) : Type 0 where
  pub done : hang rest value fork ≡ some fork'
  pub shape : IsFork fork'
  pub reads :
      (q : Bytes) → fork_view fork' q ≡ (if bytes_eq rest q then value else fork_view fork q)

hang_reads :
    (x : ℕ) (rest : Bytes) (value : Option Bytes) (fork : Fork) (ks : Kids)
    → Free (x ∷ rest) fork
    → ((j : ℕ) (q : Bytes)
        → view_kid ks j q ≡ (if x == j then view (new_leaf rest value) q else view_kid fork.0 j q))
    → (q : Bytes)
    → fork_view (ks, fork.1) q ≡ (if bytes_eq (x ∷ rest) q then value else fork_view fork q)
unfolding bytes_eq view
hang_reads x rest value fork ks free r [] = refl
hang_reads x rest value fork ks free r (y ∷ q) = ground (arith, r y q, free q)

hang_end :
    (value : Option Bytes) (fork : Fork) (q : Bytes)
    → fork_view (fork.0, value) q ≡ (if bytes_eq [] q then value else fork_view fork q)
unfolding bytes_eq
hang_end value fork [] = refl
hang_end value fork (y ∷ q) = refl

pub hang_total :
    (rest : Bytes) (value : Option Bytes) (fork : Fork)
    → IsPath rest
    → HasValue value
    → IsFork fork
    → Free rest fork
    → (fork' : Fork) × IsHung rest value fork fork'
unfolding hang IsNode slots
hang_total [] value fork p v f free =
    ((fork.0, value), record { done = refl; shape = f; reads = hang_end value fork })
hang_total (x ∷ rest) value fork p v f free =
    let (ks, s) = set_kid-IsReplaced fork.0 x (new_leaf rest value) (omega arith) in
    (
      (ks, fork.1),
      record {
        done = ap (fork_with fork.1) s.done;
        shape = (s.full ∙ f.0, s.nodes f.1 (v, p.1, slots-vacants 16, vacants-AreNodes 16));
        reads = hang_reads x rest value fork ks free s.reads;
      },
    )

module _ (P : Platform) where
  mutual
    unfolding rehash view

    pub view-rehash : (n : Node) (q : Bytes) → view (rehash P n) q ≡ view n q
    view-rehash (node NodeType.empty_node k v ks h) q = refl
    view-rehash (node NodeType.leaf_node k v ks h) q = refl
    view-rehash (node NodeType.extension_node k v ks h) q =
        Paths.from_rest_cong none (λ r. view_kid (rehash_first P ks) 0 r) (λ r. view_kid ks 0 r)
          (strip_prefix k q) (view-rehash_first ks)
    view-rehash (node NodeType.branch_node k v ks h) [] = refl
    view-rehash (node NodeType.branch_node k v ks h) (x ∷ q) = refl

    view-rehash_first : (ks : Kids) (q : Bytes) → view_kid (rehash_first P ks) 0 q ≡ view_kid ks 0 q
    view-rehash_first nil q = refl
    view-rehash_first (vacant ks) q = refl
    view-rehash_first (child n ks) q = view-rehash n q

  mutual
    unfolding rehash IsNode slots

    pub rehash-IsNode : (n : Node) → IsNode n → IsNode (rehash P n)
    rehash-IsNode (node NodeType.empty_node k v ks h) w = w
    rehash-IsNode (node NodeType.leaf_node k v ks h) w = w
    rehash-IsNode (node NodeType.extension_node k v ks h) w =
        let (a, b) = rehash_first-AreNodes ks w.3 in (w.0, w.1, a ∙ w.2, b)
    rehash-IsNode (node NodeType.branch_node k v ks h) w = w

    rehash_first-AreNodes :
        (ks : Kids)
        → AreNodes ks
        → (slots (rehash_first P ks) ≡ slots ks) × AreNodes (rehash_first P ks)
    rehash_first-AreNodes nil w = (refl, tt)
    rehash_first-AreNodes (vacant ks) w = (refl, w)
    rehash_first-AreNodes (child n ks) w = (refl, (rehash-IsNode n w.0, w.1))
