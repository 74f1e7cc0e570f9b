-- ===== src/Chain.antt =====
-- The block tree and the canonical chain: blockchain/chain.go and blockchain/forks.go. The record
-- holds the fields of `Blockchain` that its methods read or write. The store is an interface of the
-- node: what it holds is part of the record, and whether a write succeeds is an argument of the
-- operation. `none` of the error's Option is Go's `nil`. `Error.cycle_detected` and the others are
-- the source's errors.
pub mod Walk
pub mod Path
pub mod PathLaws
pub mod Index
pub mod Add
pub mod History
pub mod Audit
pub mod Rules
pub mod Accept
pub mod AddLaws
use neo_coin.Base.{ℕ, Bool, Option, List}
use neo_coin.Base.Bytes.{Bytes}
use neo_coin.Base.Dict.{Dict}
use neo_coin.Types.{Block, Error, ConsensusParams}
use neo_coin.Ledger.{State}

-- `TxLocation`.
pub record TxLocation : Type 0 where
  pub height : ℕ
  pub block_hash_hex : Bytes
  pub index : ℕ

-- `AddressTxEntry`.
pub record AddressTxEntry : Type 0 where
  pub tx_id : Bytes
  pub location : TxLocation
  pub from_addr : Bytes
  pub to_address : Bytes
  pub amount : ℕ
  pub fee : ℕ
  pub nonce : ℕ

-- The events that are published; the fields of a new-block event are read off its block.
pub data Event : Type 0 where
  new_block : Block → Event
  reorg : Bytes → Bytes → Event

-- `Blockchain`. `canonicalWork` is a big integer and never nil once a chain is loaded.
pub record Blockchain : Type 0 where
  pub chain_id : ℕ
  pub miner_address : Bytes
  pub consensus : ConsensusParams
  pub blocks : List Block
  pub state : State
  pub blocks_by_hash : Dict Bytes Block
  pub best_tip_hash : Bytes
  pub canonical_work : ℕ
  pub tx_index : Dict Bytes TxLocation
  pub address_index : Dict Bytes (List AddressTxEntry)
  -- what the store holds: the canonical chain, and every block put
  pub stored_canonical : List Block
  pub stored_blocks : List Block
