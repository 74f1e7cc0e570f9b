-- ===== src/Orphans.antt =====
-- internal/blockchain/orphans.go: blocks whose parent is not known yet, by the hexadecimal text of
-- their hash, with a list of these texts, the newest in front. Times are nanoseconds of the wall
-- clock.
pub mod Listed
pub mod Limit
pub mod Bound
use neo_coin.Base.{
  ℕ, zero, suc, Bool, true, false, ltb, leb, if◌then◌else◌, Option, none, some, List, [], ◌∷◌,
  length,
}
use neo_coin.Base.Int.{ℤ, pos, negsuc}
use neo_coin.Base.Bytes.{Bytes, bytes_eq, hex_encode}
use neo_coin.Base.Dict.{Dict, bytes_key, lookup, insert, erase}
use neo_coin.Types.{Block}

pub record OrphanBlock : Type 0 where
  pub block : Block
  pub added_at : ℕ

pub record OrphanPool : Type 0 where
  pub blocks : Dict Bytes OrphanBlock
  pub height_list : List Bytes
  pub max_orphans : ℕ

-- `newOrphanPool`.
abbrev pub new_orphan_pool : ℤ → OrphanPool
new_orphan_pool (pos zero) = record { blocks = []; height_list = []; max_orphans = 100 }
new_orphan_pool (pos (suc n)) = record { blocks = []; height_list = []; max_orphans = suc n }
new_orphan_pool (negsuc n) = record { blocks = []; height_list = []; max_orphans = 100 }

abbrev pub onto_front : Bytes → Option (List Bytes × Bytes) → Option (List Bytes × Bytes)
onto_front k none = some ([], k)
onto_front k (some (front, back)) = some (k ∷ front, back)

-- `Back()` with the list that `Remove` of it leaves.
unfoldable pub split_back : List Bytes → Option (List Bytes × Bytes)
split_back [] = none
split_back (k ∷ ks) = onto_front k (split_back ks)

abbrev pub remove_back : Option (List Bytes × Bytes) → OrphanPool → OrphanPool
remove_back none op = op
remove_back (some (front, back)) op = record op {
  blocks = erase back op.blocks;
  height_list = front;
}

-- `removeOldestLocked`.
unfoldable pub remove_oldest : OrphanPool → OrphanPool
unfolding split_back
remove_oldest op = remove_back (split_back op.height_list) op

-- The end of `AddBlock`.
abbrev pub push_block : Bytes → Block → ℕ → OrphanPool → OrphanPool
push_block hash_hex b now op = record op {
  blocks = insert hash_hex (record { block = b; added_at = now }) op.blocks;
  height_list = hash_hex ∷ op.height_list;
}

abbrev pub add_unknown : Option OrphanBlock → Bytes → Block → ℕ → OrphanPool → OrphanPool
add_unknown (some known) hash_hex b now op = op
add_unknown none hash_hex b now op =
    push_block hash_hex b now
      (if leb op.max_orphans (length op.blocks) then remove_oldest op else op)

-- `AddBlock`.
unfoldable pub add_orphan : Block → ℕ → OrphanPool → OrphanPool
unfolding remove_oldest
add_orphan b now op =
    let hash_hex = hex_encode b.hash in add_unknown (lookup hash_hex op.blocks) hash_hex b now op

abbrev pub block_of : Option OrphanBlock → Option Block
block_of none = none
block_of (some ob) = some ob.block

-- `GetBlockByHash`, and `GetBlock` at the text of a hash.
unfoldable pub get_block_by_hash : Bytes → OrphanPool → Option Block
get_block_by_hash hash_hex op = block_of (lookup hash_hex op.blocks)

abbrev by_parent : Bytes → Dict Bytes OrphanBlock → List Block
by_parent prev_hash_hex [] = []
by_parent prev_hash_hex ((k, ob) ∷ m) =
    let rest = by_parent prev_hash_hex m in
    if bytes_eq (hex_encode ob.block.prev_hash) prev_hash_hex then ob.block ∷ rest else rest

-- `GetOrphansByParent`.
unfoldable pub get_orphans_by_parent : Bytes → OrphanPool → List Block
get_orphans_by_parent prev_hash op = by_parent (hex_encode prev_hash) op.blocks

-- `RemoveBlock`, which leaves the list as it is.
unfoldable pub remove_block : Bytes → OrphanPool → OrphanPool
remove_block hash op = record op { blocks = erase (hex_encode hash) op.blocks }

unfoldable pub exceeds : ℕ → ℤ → Bool
exceeds n (pos m) = ltb m n
exceeds n (negsuc m) = true

-- `LimitSize`, whose loop has fuel: `none` is a loop that has not ended.
unfoldable pub limit_size : ℕ → ℤ → OrphanPool → Option OrphanPool
unfolding exceeds
limit_size zero max op = none
limit_size (suc fuel) max op =
    let rest = limit_size fuel max (remove_oldest op) in
    if exceeds (length op.blocks) max then rest else some op

unfoldable pub drop_below : ℕ → Dict Bytes OrphanBlock → Dict Bytes OrphanBlock
drop_below height [] = []
drop_below height ((k, ob) ∷ m) =
    let rest = drop_below height m in if ltb ob.block.height height then rest else (k, ob) ∷ rest

-- `RemoveBlocksBelowHeight`, which leaves the list as it is.
unfoldable pub remove_blocks_below_height : ℕ → OrphanPool → OrphanPool
unfolding drop_below
remove_blocks_below_height height op = record op { blocks = drop_below height op.blocks }

-- `Size`.
abbrev pub pool_size : OrphanPool → ℕ
pool_size op = length op.blocks

-- The calls that change the pool.
pub data Call : Type 0 where
  add : Block → ℕ → Call
  remove : Bytes → Call
  remove_below : ℕ → Call

unfoldable pub perform : Call → OrphanPool → OrphanPool
perform (add b now) op = add_orphan b now op
perform (remove hash) op = remove_block hash op
perform (remove_below height) op = remove_blocks_below_height height op

unfoldable pub perform_all : List Call → OrphanPool → OrphanPool
unfolding perform
perform_all [] op = op
perform_all (c ∷ cs) op = perform_all cs (perform c op)
