-- ===== src/Trie/Slots.antt =====
-- Writing one child: the index is in range, the others stay, and what is read there is the new node.
use neo_coin.Base.{ℕ, zero, suc, ◌<◌, ◌≡◌, refl, ap, if◌then◌else◌, ◌==◌, none, some, arith}
use neo_coin.Base.Bytes.{Bytes}
use neo_coin.Trie.{Node, Kids, nil, vacant, child, vacants, set_kid}
use neo_coin.Trie.View.{view, view_kid}
use neo_coin.Trie.Shape.{IsNode, AreNodes, slots}

-- What `ks'` is after the child `i` of `ks` became `c`.
pub record IsReplaced (ks : Kids) (i : ℕ) (c : Node) (ks' : Kids) : Type 0 where
  pub done : set_kid ks i c ≡ some ks'
  pub full : slots ks' ≡ slots ks
  pub nodes : AreNodes ks → IsNode c → AreNodes ks'
  pub reads :
      (j : ℕ) (q : Bytes) → view_kid ks' j q ≡ (if i == j then view c q else view_kid ks j q)

pub view_kid-vacants : (n j : ℕ) (q : Bytes) → view_kid (vacants n) j q ≡ none
unfolding view
view_kid-vacants zero j q = refl
view_kid-vacants (suc n) zero q = refl
view_kid-vacants (suc n) (suc j) q = view_kid-vacants n j q

pub vacants-AreNodes : (n : ℕ) → AreNodes (vacants n)
unfolding IsNode
vacants-AreNodes zero = tt
vacants-AreNodes (suc n) = vacants-AreNodes n

pub slots-vacants : (n : ℕ) → slots (vacants n) ≡ n
unfolding slots
slots-vacants zero = refl
slots-vacants (suc n) = ap suc (slots-vacants n)

first_reads :
    (ks : Kids) (c : Node) (ks' : Kids)
    → ((j : ℕ) (q : Bytes) → view_kid ks (suc j) q ≡ view_kid ks' j q)
    → (j : ℕ) (q : Bytes)
    → view_kid (child c ks') j q ≡ (if 0 == j then view c q else view_kid ks j q)
unfolding view
first_reads ks c ks' h zero q = refl
first_reads ks c ks' h (suc j) q = ground (arith, h j q)

later_reads :
    (ks ks' ls ls' : Kids) (i : ℕ) (c : Node)
    → ((q : Bytes) → view_kid ls' 0 q ≡ view_kid ls 0 q)
    → ((j : ℕ) (q : Bytes) → view_kid ls (suc j) q ≡ view_kid ks j q)
    → ((j : ℕ) (q : Bytes) → view_kid ls' (suc j) q ≡ view_kid ks' j q)
    → ((j : ℕ) (q : Bytes) → view_kid ks' j q ≡ (if i == j then view c q else view_kid ks j q))
    → (j : ℕ) (q : Bytes) → view_kid ls' j q ≡ (if suc i == j then view c q else view_kid ls j q)
later_reads ks ks' ls ls' i c z a b r zero q = ground (arith, z q)
later_reads ks ks' ls ls' i c z a b r (suc j) q = ground (arith, a j q, b j q, r j q)

-- Any index below the number of children can be written.
pub set_kid-IsReplaced :
    (ks : Kids) (i : ℕ) (c : Node) → i < slots ks → (ks' : Kids) × IsReplaced ks i c ks'
unfolding set_kid slots view IsNode
set_kid-IsReplaced nil i c h = elim h [ ]
set_kid-IsReplaced (vacant ks) zero c h = (
  child c ks,
  record {
    done = refl;
    full = refl;
    nodes = λ a b. (b, a);
    reads = first_reads (vacant ks) c ks (λ j q. refl);
  },
)
set_kid-IsReplaced (child n ks) zero c h = (
  child c ks,
  record {
    done = refl;
    full = refl;
    nodes = λ a b. (b, a.1);
    reads = first_reads (child n ks) c ks (λ j q. refl);
  },
)
set_kid-IsReplaced (vacant ks) (suc i) c h =
    let (ks', s) = set_kid-IsReplaced ks i c (omega arith) in
    (
      vacant ks',
      record {
        done = rw s.done;
        full = ap suc s.full;
        nodes = s.nodes;
        reads =
            later_reads ks ks' (vacant ks) (vacant ks') i c (λ q. refl) (λ j q. refl) (λ j q. refl)
              s.reads;
      },
    )
set_kid-IsReplaced (child n ks) (suc i) c h =
    let (ks', s) = set_kid-IsReplaced ks i c (omega arith) in
    (
      child n ks',
      record {
        done = rw s.done;
        full = ap suc s.full;
        nodes = λ a b. (a.0, s.nodes a.1 b);
        reads =
            later_reads ks ks' (child n ks) (child n ks') i c (λ q. refl) (λ j q. refl)
              (λ j q. refl) s.reads;
      },
    )
