-- ===== src/Orphans/Limit.antt =====
-- `LimitSize` ends after at most one round more than the list has entries.
use neo_coin.Base.{
  ℕ, zero, suc, ◌<◌, ◌≤◌, ◌≡◌, refl, ap, true, ltb, Option, none, some, List, [], ◌∷◌, length,
  arith, Bool-cases, inl, inr,
}
use neo_coin.Base.Int.{ℤ, pos, negsuc}
use neo_coin.Base.Bytes.{Bytes, bytes_eq_refl}
use neo_coin.Base.Dict.{Dict, bytes_key, lookup, lookup-erase}
use neo_coin.Orphans.{
  OrphanBlock, OrphanPool, new_orphan_pool, split_back, remove_back, remove_oldest, limit_size,
  exceeds, Call, perform_all,
}
use neo_coin.Orphans.Listed.{
  listed, is_pooled, IsListed, split_back-none, split_back-IsSplit, remove_oldest-IsListed,
  perform_all-IsListed,
}

-- What is left is within the limit, and was there before.
pub record IsLimited (max : ℕ) (op op' : OrphanPool) : Type 0 where
  pub within : length op'.blocks ≤ max
  pub kept :
      (k : Bytes) (ob : OrphanBlock) → lookup k op'.blocks ≡ some ob → lookup k op.blocks ≡ some ob
  pub idle : length op.blocks ≤ max → op' ≡ op

-- A pool with a block has an entry on its list.
list_ne_nil :
    (blocks : Dict Bytes OrphanBlock) (ks : List Bytes)
    → ((k : Bytes) → is_pooled (lookup k blocks) ≡ true → listed k ks ≡ true)
    → 0 < length blocks
    → 0 < length ks
unfolding lookup listed
list_ne_nil [] ks l h = absurd (omega arith)
list_ne_nil ((k, ob) ∷ m) [] l h = absurd (ground (arith, l k, bytes_eq_refl k))
list_ne_nil ((k, ob) ∷ m) (j ∷ ks) l h = omega arith

remove_back_keeps :
    (op : OrphanPool) (r : Option (List Bytes × Bytes)) (k : Bytes) (ob : OrphanBlock)
    → lookup k (remove_back r op).blocks ≡ some ob
    → lookup k op.blocks ≡ some ob
remove_back_keeps op none k ob h = h
remove_back_keeps op (some (front, back)) k ob h = ground (arith, lookup-erase back k op.blocks)

remove_back_shorter :
    (op : OrphanPool) (r : Option (List Bytes × Bytes))
    → split_back op.height_list ≡ r
    → 0 < length op.height_list
    → suc (length (remove_back r op).height_list) ≡ length op.height_list
remove_back_shorter op none e h =
    absurd (omega (arith, ap length (split_back-none op.height_list e)))
remove_back_shorter op (some (front, back)) e h =
    let s = split_back-IsSplit op.height_list front back e in omega (arith, s.shorter)

limit_size-IsLimited :
    (fuel max : ℕ) (op : OrphanPool)
    → IsListed op
    → length op.height_list < fuel
    → (op' : OrphanPool) × (limit_size fuel (pos max) op ≡ some op') × IsLimited max op op'
unfolding limit_size exceeds remove_oldest
limit_size-IsLimited zero max op l h = absurd (omega arith)
limit_size-IsLimited (suc fuel) max op l h = elim (Bool-cases (ltb max (length op.blocks))) [
  | inr fits ↦
      (op, rw fits, record { within = ground arith; kept = λ k ob e. e; idle = λ small. refl })
  | inl over ↦
      let r = split_back op.height_list in
      let shorter =
        remove_back_shorter op r refl (list_ne_nil op.blocks op.height_list l (ground arith)) in
      let (op', done, s) =
        limit_size-IsLimited fuel max (remove_oldest op) (remove_oldest-IsListed op l)
          (omega (arith, shorter)) in
      (
        op',
        rw over done,
        record {
          within = s.within;
          kept = λ k ob e. remove_back_keeps op r k ob (s.kept k ob e);
          idle = λ small. absurd (ground arith);
        },
      )
]

new_pool-IsListed : (n : ℤ) → IsListed (new_orphan_pool n)
unfolding lookup
new_pool-IsListed (pos zero) k h = absurd (ground arith)
new_pool-IsListed (pos (suc n)) k h = absurd (ground arith)
new_pool-IsListed (negsuc n) k h = absurd (ground arith)

-- After any additions and removals on a new pool `LimitSize` with a limit that is not negative
-- ends, within one round more than the list is long; what it leaves is within the limit and was
-- pooled before, and a pool within the limit stays as it is.
pub limit_size_returns :
    (n : ℤ) (cs : List Call) (fuel max : ℕ)
    → length (perform_all cs (new_orphan_pool n)).height_list < fuel
    → (op' : OrphanPool) × (limit_size fuel (pos max) (perform_all cs (new_orphan_pool n))
        ≡ some op')
      × IsLimited max (perform_all cs (new_orphan_pool n)) op'
limit_size_returns n cs fuel max h =
    let op = perform_all cs (new_orphan_pool n) in
    limit_size-IsLimited fuel max op
      (perform_all-IsListed cs (new_orphan_pool n) (new_pool-IsListed n)) h
