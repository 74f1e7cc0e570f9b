-- ===== src/Trie/Split.antt =====
-- The last steps of a split: the rest of the new path hangs on the fork, and the common prefix goes
-- over the branch.
use neo_coin.Base.{
  ◌≡◌, refl, ap, ◌∙◌, if◌then◌else◌, Option, none, some, [], ◌∷◌, ◌++◌, arith, Option-cases, inl,
  inr,
}
use neo_coin.Base.Bytes.{Bytes, bytes_eq}
use neo_coin.Platform.{Platform}
use neo_coin.Trie.{NodeType, Node, node, strip_prefix, from_rest}
use neo_coin.Trie.Write.{Fork, branch_of, wrap, finish, hang_next}
use neo_coin.Trie.View.{view}
use neo_coin.Trie.Shape.{IsPath, slots, IsNode}
use neo_coin.Trie.Paths
use neo_coin.Trie.Paths.{Apart}
use neo_coin.Trie.Forks.{fork_view, IsFork, Free, hang_total, view-rehash, rehash-IsNode}
use neo_coin.Trie.Slots.{vacants-AreNodes}

-- A meaning with one path written.
abbrev pub write : (Bytes → Option Bytes) → Bytes → Bytes → Bytes → Option Bytes
write before path value q = if bytes_eq path q then some value else before q

-- The node `m` is the result, is well formed, and means what was meant `before` with the path
-- written.
pub record IsWritten (before : Bytes → Option Bytes) (path value : Bytes) (r : Option Node)
    (m : Node) : Type 0 where
  pub done : r ≡ some m
  pub shape : IsNode m
  pub reads : (q : Bytes) → view m q ≡ write before path value q

-- What a fork means before the rest of the path hangs on it.
pub record IsBegun (m : Bytes → Option Bytes) (rest : Bytes) (fork : Fork) : Type 0 where
  pub shape : IsFork fork
  pub reads : (q : Bytes) → fork_view fork q ≡ m q
  pub free : Free rest fork

write-from_rest :
    (before m : Bytes → Option Bytes) (prefix rest path value q : Bytes)
    → path ≡ prefix ++ rest
    → before q ≡ from_rest none m (strip_prefix prefix q)
    → from_rest none (write m rest value) (strip_prefix prefix q) ≡ write before path value q
write-from_rest before m prefix rest path value q e h =
    elim (Option-cases (strip_prefix prefix q)) [
      | inl off ↦ ground (arith, Paths.bytes_eq-append prefix rest q)
      | inr (r, at) ↦ ground (arith, Paths.bytes_eq-append prefix rest q)
    ]

module _ (P : Platform) where
  branch_of-IsNode : (fork : Fork) → IsFork fork → IsNode (branch_of P fork)
  unfolding IsNode
  branch_of-IsNode fork f =
      rehash-IsNode P (node NodeType.branch_node [] fork.1 fork.0 []) (tt, tt, f.0, f.1)

  view-branch_of : (fork : Fork) (q : Bytes) → view (branch_of P fork) q ≡ fork_view fork q
  unfolding view
  view-branch_of fork [] = view-rehash P (node NodeType.branch_node [] fork.1 fork.0 []) []
  view-branch_of fork (x ∷ q) =
      view-rehash P (node NodeType.branch_node [] fork.1 fork.0 []) (x ∷ q)

  wrap-IsNode : (prefix : Bytes) (n : Node) → IsPath prefix → IsNode n → IsNode (wrap P prefix n)
  unfolding wrap IsNode slots
  wrap-IsNode [] n p w = w
  wrap-IsNode (k ∷ prefix) n p w = (tt, p, refl, (w, vacants-AreNodes 15))

  view-wrap :
      (prefix : Bytes) (n : Node) (q : Bytes)
      → view (wrap P prefix n) q ≡ from_rest none (view n) (strip_prefix prefix q)
  unfolding wrap view strip_prefix
  view-wrap [] n q = refl
  view-wrap (k ∷ prefix) n q = refl

  -- The last steps of both splits.
  pub finish_lem :
      (before m : Bytes → Option Bytes) (prefix rest path value : Bytes) (fork : Fork)
      → IsPath prefix
      → IsPath rest
      → IsBegun m rest fork
      → path ≡ prefix ++ rest
      → ((q : Bytes) → before q ≡ from_rest none m (strip_prefix prefix q))
      → (n : Node) × IsWritten before path value
          (finish P prefix (hang_next P rest (some value) (some fork)))
          n
  finish_lem before m prefix rest path value fork p r b e h =
      let (fork', hung) = hang_total rest (some value) fork r tt b.shape b.free in
      (
        wrap P prefix (branch_of P fork'),
        record {
          done = ap (finish P prefix) hung.done;
          shape = wrap-IsNode prefix (branch_of P fork') p (branch_of-IsNode fork' hung.shape);
          reads = λ q.
              view-wrap prefix (branch_of P fork') q
              ∙ Paths.from_rest_cong none (view (branch_of P fork')) (write m rest value)
                  (strip_prefix prefix q)
                  (λ s.
                    view-branch_of fork' s
                    ∙ hung.reads s
                    ∙ ap (λ d. if bytes_eq rest s then some value else d) (b.reads s))
              ∙ write-from_rest before m prefix rest path value q e (h q);
        },
      )
