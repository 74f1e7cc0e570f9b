-- ===== src/Chain/Accept.antt =====
-- `AddBlock` of blockchain/forks.go: what an accepted block is from then on, whatever blocks follow it.
use neo_coin.Base.{◌≤◌, ◌≡◌, some, List, [], ◌∷◌}
use neo_coin.Base.Int.{ℤ}
use neo_coin.Base.Bytes.{Bytes, hex_encode}
use neo_coin.Base.Dict.{bytes_key, lookup}
use neo_coin.Base.Result.{ok}
use neo_coin.Types.{Block}
use neo_coin.Platform.{Platform}
use neo_coin.Chain.{Blockchain}
use neo_coin.Chain.Path.{Candidate, compute_canonical}
use neo_coin.Chain.Add.{StoreWrites, check_candidate, with_block, add_block}

-- A block that comes in, with the clock and the outcome of the store's writes.
pub record Arrival : Type 0 where
  pub writes : StoreWrites
  pub now : ℤ
  pub block : Block

-- `AddBlock` of one block after the other.
unfoldable pub add_blocks : Platform → List Arrival → Blockchain → Blockchain
add_blocks P [] bc = bc
add_blocks P (a ∷ rest) bc = add_blocks P rest (add_block P a.writes a.now bc a.block).chain

module _ (P : Platform) where
  -- The blocks that are known stay known, under the same rules, and the work does not fall.
  record Grows (bc bc' : Blockchain) : Type 0 where
    kept :
        (k : Bytes) (x : Block)
        → lookup k bc.blocks_by_hash ≡ some x
        → lookup k bc'.blocks_by_hash ≡ some x
    same_rules : bc'.consensus ≡ bc.consensus
    same_id : bc'.chain_id ≡ bc.chain_id
    no_less : bc.canonical_work ≤ bc'.canonical_work

  -- A block that was taken in passed its tests and stands in the tree, and the tip is no worse than it.
  record IsTaken (now : ℤ) (bc : Blockchain) (b : Block) (after : Blockchain) : Type 0 where
    checked : check_candidate P bc b ≡ ok tt
    parent : Block
    parent_known : lookup (hex_encode b.prev_hash) bc.blocks_by_hash ≡ some parent
    stands : lookup (hex_encode b.hash) after.blocks_by_hash ≡ some b
    candidate : Candidate
    computed :
        compute_canonical P bc.consensus now (with_block bc b).blocks_by_hash (hex_encode b.hash)
        ≡ ok candidate
    outweighs : candidate.2 ≤ after.canonical_work
