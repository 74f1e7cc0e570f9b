-- ===== src/Trie/Written.antt =====
-- `insert` succeeds on well-formed nodes and paths, keeps the shape, and changes what the node
-- means at the one path.
use neo_coin.Base.{
  ℕ, zero, suc, ◌<◌, ◌≡◌, ◌≢◌, refl, sym, ap, ◌∙◌, if◌then◌else◌, ◌==◌, ==_iff, Option, some, [],
  ◌∷◌, ◌++◌, length, take, drop, arith, Bool-cases, inl, inr, take-append-drop,
}
use mathlib.Core.Path.{subst}
use neo_coin.Base.Bytes.{Bytes, bytes_eq}
use neo_coin.Platform.{Platform}
use neo_coin.Trie.{NodeType, Node, node, Kids, nil, vacant, child, new_leaf, common_length}
use neo_coin.Trie.Hash.{rehash}
use neo_coin.Trie.Write.{put_back, insert, insert_kid, child_with, map_kids}
use neo_coin.Trie.View.{view, view_kid}
use neo_coin.Trie.Shape.{IsPath, slots, IsNode, AreNodes}
use neo_coin.Trie.Paths
use neo_coin.Trie.Forks.{view-rehash, rehash-IsNode}
use neo_coin.Trie.Split.{write, IsWritten}
use neo_coin.Trie.Begin.{leads}
use neo_coin.Trie.Insert.{write-leads, insert_into_leaf-IsWritten, extension_split}
use neo_coin.Trie.Slots.{vacants-AreNodes, slots-vacants}

-- The same for one child of a node.
record IsKidWritten (ks : Kids) (i : ℕ) (path value : Bytes) (r : Option Kids) (ks' : Kids)
    : Type 0 where
  done : r ≡ some ks'
  full : slots ks' ≡ slots ks
  nodes : AreNodes ks'
  here : (q : Bytes) → view_kid ks' i q ≡ write (view_kid ks i) path value q
  apart : (j : ℕ) (q : Bytes) → i ≢ j → view_kid ks' j q ≡ view_kid ks j q

take_all : (p : Bytes) → take (length p) p ≡ p
take_all [] = refl
take_all (x ∷ p) = ap (λ q. x ∷ q) (take_all p)

first_apart :
    (ls ks : Kids) (j : ℕ) (q : Bytes)
    → ((j : ℕ) → view_kid ls (suc j) q ≡ view_kid ks (suc j) q)
    → 0 ≢ j
    → view_kid ls j q ≡ view_kid ks j q
first_apart ls ks zero q h n = absurd (n refl)
first_apart ls ks (suc j) q h n = h j

later_apart :
    (i : ℕ) (ls ks ls' ks' : Kids) (j : ℕ) (q : Bytes)
    → view_kid ls' 0 q ≡ view_kid ls 0 q
    → ((j : ℕ) → view_kid ls' (suc j) q ≡ view_kid ks' j q)
    → ((j : ℕ) → view_kid ls (suc j) q ≡ view_kid ks j q)
    → ((j : ℕ) (q : Bytes) → i ≢ j → view_kid ks' j q ≡ view_kid ks j q)
    → suc i ≢ j
    → view_kid ls' j q ≡ view_kid ls j q
later_apart i ls ks ls' ks' zero q z a b h n = z
later_apart i ls ks ls' ks' (suc j) q z a b h n = a j ∙ h j q (λ e. n (ap suc e)) ∙ sym (b j)

later :
    (i : ℕ) (path value : Bytes) (f : Kids → Kids) (ks : Kids) (r : Option Kids) (ks' : Kids)
    → ((ks : Kids) → slots (f ks) ≡ suc (slots ks))
    → (AreNodes ks' → AreNodes (f ks'))
    → ((ks : Kids) (j : ℕ) (q : Bytes) → view_kid (f ks) (suc j) q ≡ view_kid ks j q)
    → ((q : Bytes) → view_kid (f ks') 0 q ≡ view_kid (f ks) 0 q)
    → IsKidWritten ks i path value r ks'
    → IsKidWritten (f ks) (suc i) path value (map_kids f r) (f ks')
later i path value f ks r ks' s n a z w = record {
  done = ap (map_kids f) w.done;
  full = s ks' ∙ ap suc w.full ∙ sym (s ks);
  nodes = n w.nodes;
  here = λ q.
      a ks' i q ∙ w.here q ∙ ap (λ d. if bytes_eq path q then some value else d) (sym (a ks i q));
  apart = λ j q ne.
      later_apart i (f ks) ks (f ks') ks' j q (z q) (λ j. a ks' j q) (λ j. a ks j q) w.apart ne;
}

-- A branch with one child written.
branch_reads :
    (key : Bytes) (old : Option Bytes) (hash : Bytes) (ks ks' : Kids) (x : ℕ) (path value : Bytes)
    → ((q : Bytes) → view_kid ks' x q ≡ write (view_kid ks x) path value q)
    → ((j : ℕ) (q : Bytes) → x ≢ j → view_kid ks' j q ≡ view_kid ks j q)
    → (q : Bytes)
    → view (node NodeType.branch_node key old ks' hash) q
      ≡ write (view (node NodeType.branch_node key old ks hash)) (x ∷ path) value q
unfolding view bytes_eq
branch_reads key old hash ks ks' x path value h a [] = refl
branch_reads key old hash ks ks' x path value h a (y ∷ q) = elim (Bool-cases (x == y)) [
  | inl same ↦
      let e : x ≡ y = (==_iff x y).0 same in
      rw same (subst (λ z. view_kid ks' z q ≡ write (view_kid ks z) path value q) e (h q))
  | inr other ↦ rw other (a y q (λ e. cc ((==_iff x y).1 e)))
]

value_reads :
    (key : Bytes) (old : Option Bytes) (hash : Bytes) (ks : Kids) (value q : Bytes)
    → view (node NodeType.branch_node key (some value) ks hash) q
      ≡ write (view (node NodeType.branch_node key old ks hash)) [] value q
unfolding view bytes_eq
value_reads key old hash ks value [] = refl
value_reads key old hash ks value (x ∷ q) = refl

module _ (P : Platform) where
  put_back-IsWritten :
      (before : Bytes → Option Bytes) (kind : NodeType) (key : Bytes) (old : Option Bytes)
      (hash path value : Bytes) (r : Option Kids) (ks : Kids)
      → r ≡ some ks
      → IsNode (node kind key old ks hash)
      → ((q : Bytes) → view (node kind key old ks hash) q ≡ write before path value q)
      → IsWritten before path value
          (put_back P kind key old hash r)
          (rehash P (node kind key old ks hash))
  put_back-IsWritten before kind key old hash path value r ks e w h = record {
    done = ap (put_back P kind key old hash) e;
    shape = rehash-IsNode P (node kind key old ks hash) w;
    reads = λ q. view-rehash P (node kind key old ks hash) q ∙ h q;
  }

  mutual
    unfolding insert view IsNode slots bytes_eq

    pub insert-IsWritten :
        (n : Node) (path value : Bytes)
        → IsNode n
        → IsPath path
        → (m : Node) × IsWritten (view n) path value (insert P n path value) m
    insert-IsWritten (node NodeType.empty_node key old kids hash) path value w p = absurd w.0
    insert-IsWritten (node NodeType.leaf_node key old kids hash) path value w p =
        let (m, d) = insert_into_leaf-IsWritten P key old path value w.1 w.0 p in
        (m, record { done = d.done; shape = d.shape; reads = d.reads })
    insert-IsWritten (node NodeType.extension_node key old kids hash) path value w p =
        let cp : ℕ = common_length key path in
        let (ks, d) =
          insert_kid-IsKidWritten kids 0 (drop cp path) value w.3 (Paths.drop-IsPath cp path p)
            (omega (arith, w.2)) in
        elim (Bool-cases (cp == length key)) [
          | inl all ↦
              let e : cp ≡ length key = (==_iff cp (length key)).0 all in
              let done =
                put_back-IsWritten (leads key kids) NodeType.extension_node key old hash path value
                  (insert_kid P kids 0 (drop cp path) value) ks d.done
                  (tt, w.1, d.full ∙ w.2, d.nodes)
                  (write-leads key (drop cp path) path value kids ks
                    (sym (take-append-drop cp path)
                      ∙ ap (λ t. t ++ drop cp path)
                          (Paths.take-common_length key path
                            ∙ ap (λ t. take t key) e
                            ∙ take_all key))
                    d.here) in
              (
                rehash P (node NodeType.extension_node key old ks hash),
                record { done = rw all done.done; shape = done.shape; reads = done.reads },
              )
          | inr part ↦
              let (m, s) =
                extension_split P key kids path value w.1 w.2 w.3 p
                  (λ e. cc ((==_iff cp (length key)).1 e)) in
              (m, record { done = rw part s.done; shape = s.shape; reads = s.reads })
        ]
    insert-IsWritten (node NodeType.branch_node key old kids hash) [] value w p = (
      rehash P (node NodeType.branch_node key (some value) kids hash),
      record {
        done = refl;
        shape =
            rehash-IsNode P (node NodeType.branch_node key (some value) kids hash)
              (tt, w.1, w.2, w.3);
        reads = λ q.
            view-rehash P (node NodeType.branch_node key (some value) kids hash) q
            ∙ value_reads key old hash kids value q;
      },
    )
    insert-IsWritten (node NodeType.branch_node key old kids hash) (x ∷ path) value w p =
        let (ks, d) = insert_kid-IsKidWritten kids x path value w.3 p.1 (omega (arith, w.2, p.0)) in
        (
          rehash P (node NodeType.branch_node key old ks hash),
          put_back-IsWritten (view (node NodeType.branch_node key old kids hash))
              NodeType.branch_node key old hash (x ∷ path) value (insert_kid P kids x path value) ks
              d.done (tt, w.1, d.full ∙ w.2, d.nodes)
              (branch_reads key old hash kids ks x path value d.here d.apart),
        )

    insert_kid-IsKidWritten :
        (ks : Kids) (i : ℕ) (path value : Bytes)
        → AreNodes ks
        → IsPath path
        → i < slots ks
        → (ks' : Kids) × IsKidWritten ks i path value (insert_kid P ks i path value) ks'
    insert_kid-IsKidWritten nil i path value w p h = elim h [ ]
    insert_kid-IsKidWritten (vacant ks) zero path value w p h = (
      child (new_leaf path (some value)) ks,
      record {
        done = refl;
        full = refl;
        nodes = ((tt, p, slots-vacants 16, vacants-AreNodes 16), w);
        here = λ q. refl;
        apart = λ j q n.
            first_apart (child (new_leaf path (some value)) ks) (vacant ks) j q (λ j. refl) n;
      },
    )
    insert_kid-IsKidWritten (child n ks) zero path value w p h =
        let (m, d) = insert-IsWritten n path value w.0 p in
        (
          child m ks,
          record {
            done = ap (child_with ks) d.done;
            full = refl;
            nodes = (d.shape, w.1);
            here = d.reads;
            apart = λ j q n'. first_apart (child m ks) (child n ks) j q (λ j. refl) n';
          },
        )
    insert_kid-IsKidWritten (vacant ks) (suc i) path value w p h =
        let (ks', d) = insert_kid-IsKidWritten ks i path value w p (omega arith) in
        (
          vacant ks',
          later i path value vacant ks (insert_kid P ks i path value) ks' (λ ks. refl) (λ n. n)
              (λ ks j q. refl) (λ q. refl) d,
        )
    insert_kid-IsKidWritten (child n ks) (suc i) path value w p h =
        let (ks', d) = insert_kid-IsKidWritten ks i path value w.1 p (omega arith) in
        (
          child n ks',
          later i path value (child n) ks (insert_kid P ks i path value) ks' (λ ks. refl)
              (λ m. (w.0, m)) (λ ks j q. refl) (λ q. refl) d,
        )
