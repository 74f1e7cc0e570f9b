-- ===== src/Chain/Add.antt =====
-- Accepting a block from outside, and the reorganisation that it may cause: `AddBlock` of
-- blockchain/forks.go and `addToIndexLocked` of blockchain/chain.go.
use neo_coin.Base.{
  ℕ, Bool, true, false, not, ◌&&◌, ◌||◌, ltb, ◌==◌, if◌then◌else◌, Option, none, some, List, [],
  ◌∷◌, length,
}
use mathlib.Core.List.{get_last?}
use neo_coin.Base.Int.{ℤ}
use neo_coin.Base.Bytes.{Bytes, bytes_eq, bytes_ltb, hex_encode}
use neo_coin.Base.Dict.{bytes_key, lookup, insert, erase}
use neo_coin.Base.Result.{Result, ok, err, ◌>>=◌, ◌>>◌, fail_if}
use neo_coin.Types.{Error, Transaction, Block}
use neo_coin.Base.Words.{add64}
use neo_coin.Platform.{Platform}
use neo_coin.Difficulty.{max_bits}
use neo_coin.Tx.{verify_for_consensus}
use neo_coin.Header.{block_version_for_height, pow_validate}
use neo_coin.Chain.{Blockchain, Event, new_block, reorg}
use neo_coin.Chain.Path.{Candidate, compute_canonical}
use neo_coin.Chain.Index.{reindex_txs, reindex_address_txs}

-- Whether the store's two writes succeed.
pub record StoreWrites : Type 0 where
  pub put_block : Bool
  pub rewrite_canonical : Bool

-- What `AddBlock` leaves and returns: the chain, whether it reorganised, its error, and the events.
pub record Added : Type 0 where
  pub chain : Blockchain
  pub reorganised : Bool
  pub error : Option Error
  pub events : List Event

abbrev pub rejected : Blockchain → Error → Added
rejected bc e = record { chain = bc; reorganised = false; error = some e; events = [] }

-- `bc.blocks[len(bc.blocks)-1].Height`; a loaded chain has a block.
unfoldable pub tip_height : Blockchain → ℕ
tip_height bc = elim (get_last? bc.blocks) [ none ↦ 0 | some b ↦ b.height ]

-- `if tx.ChainID == 0 { tx.ChainID = bc.ChainID }`, on a copy.
unfoldable pub with_chain_id : ℕ → Transaction → Transaction
with_chain_id id t = if t.chain_id == 0 then record t { chain_id = id } else t

-- More work wins; equal work goes to the smaller hash.
unfoldable pub is_better : Blockchain → Bytes → ℕ → Bool
is_better bc hash_hex work =
    ltb bc.canonical_work work || work == bc.canonical_work && bytes_ltb hash_hex bc.best_tip_hash

unfoldable pub is_extension : Blockchain → Block → Bool
unfolding tip_height
is_extension bc b =
    bytes_eq (hex_encode b.prev_hash) bc.best_tip_hash && b.height == add64 (tip_height bc) 1

-- The events of a switch.
unfoldable pub switch_events : Blockchain → Block → List Event
switch_events bc b =
    new_block b
    ∷ (if is_extension bc b then [] else reorg bc.best_tip_hash (hex_encode b.hash) ∷ [])

-- `bc.blocksByHash[hashHex] = b`, and its removal.
abbrev pub with_block : Blockchain → Block → Blockchain
with_block bc b = record bc { blocks_by_hash = insert (hex_encode b.hash) b bc.blocks_by_hash }

abbrev pub without_block : Blockchain → Block → Blockchain
without_block bc b = record bc { blocks_by_hash = erase (hex_encode b.hash) bc.blocks_by_hash }

abbrev pub is_some {ℓ} : {A : Type ℓ} → Option A → Bool
is_some none = false
is_some (some a) = true

module _ (P : Platform) where
  -- The loop of the basic transaction checks.
  unfoldable pub check_txs : Blockchain → ℕ → List Transaction → Result Error (Unit {0})
  check_txs bc height [] = ok tt
  check_txs bc height (t ∷ ts) = do
    fail_if (not ((with_chain_id bc.chain_id t).chain_id == bc.chain_id)) Error.wrong_chain_id
    verify_for_consensus P (with_chain_id bc.chain_id t) bc.consensus height
    check_txs bc height ts

  -- The tests of `AddBlock` before it takes the lock.
  unfoldable pub check_candidate : Blockchain → Block → Result Error (Unit {0})
  check_candidate bc b = do
    fail_if (b.height == 0) Error.external_genesis
    fail_if (not (b.version == block_version_for_height bc.consensus b.height))
        Error.bad_block_version
    fail_if (length b.hash == 0) Error.missing_block_hash
    fail_if (b.difficulty_bits == 0) Error.missing_difficulty_bits
    fail_if (ltb max_bits b.difficulty_bits) Error.difficulty_out_of_range
    valid ← pow_validate P bc.consensus b
    fail_if (not valid) Error.invalid_proof_of_work
    check_txs bc b.height b.transactions

  -- The switch of the in-memory view to the new canonical chain.
  unfoldable pub switch_to : Blockchain → Bytes → Candidate → Blockchain
  switch_to bc hash_hex (path, s, work) = record bc {
    blocks = path;
    state = s;
    best_tip_hash = hash_hex;
    tx_index = reindex_txs P bc.consensus path [];
    address_index = reindex_address_txs P bc.consensus path [];
    canonical_work = work;
  }

  -- `AddBlock` from the choice of the tip on; `bc` holds the block and has put it.
  unfoldable pub choose_tip : StoreWrites → Blockchain → Block → Candidate → Added
  unfolding is_better is_extension switch_to switch_events
  choose_tip w bc b c =
      if not (is_better bc (hex_encode b.hash) c.2)
      then record { chain = bc; reorganised = false; error = none; events = [] }
      else (let switched = switch_to bc (hex_encode b.hash) c in
          if w.rewrite_canonical
          then record {
            chain = record switched { stored_canonical = c.0 };
            reorganised = not (is_extension bc b);
            error = none;
            events = switch_events bc b;
          }
          else record {
            chain = switched;
            reorganised = not (is_extension bc b);
            error = some Error.store_failed;
            events = [];
          })

  -- `AddBlock` from the insertion into the tree on.
  unfoldable pub try_candidate : StoreWrites → ℤ → Blockchain → Block → Added
  unfolding choose_tip
  try_candidate w now bc b =
      elim (compute_canonical P bc.consensus now (with_block bc b).blocks_by_hash
        (hex_encode b.hash)) [
          | err e ↦ rejected (without_block (with_block bc b) b) e
          | ok c ↦
              if w.put_block
              then choose_tip w (record (with_block bc b) { stored_blocks = b ∷ bc.stored_blocks })
                  b c
              else rejected (without_block (with_block bc b) b) Error.store_failed
        ]

  -- `AddBlock`.
  unfoldable pub add_block : StoreWrites → ℤ → Blockchain → Block → Added
  unfolding try_candidate
  add_block w now bc b = elim (check_candidate bc b) [
    | err e ↦ rejected bc e
    | ok u ↦
        if not (is_some (lookup (hex_encode b.prev_hash) bc.blocks_by_hash))
        then rejected bc Error.unknown_parent
        else if is_some (lookup (hex_encode b.hash) bc.blocks_by_hash)
        then rejected bc Error.duplicate_block
        else try_candidate w now bc b
  ]
