-- ===== src/Chain/Audit.antt =====
-- `AuditChain` and `recomputeState` of blockchain/chain.go: the whole canonical chain is checked
-- again and its state is replayed.
pub mod Headers
pub mod Loop
pub mod Accepts
use neo_coin.Base.{
  ℕ, suc, ◌+◌, not, ◌||◌, ltb, ◌==◌, if◌then◌else◌, Option, none, some, List, [], ◌∷◌, length,
}
use neo_coin.Base.Int.{ℤ}
use neo_coin.Base.Bytes.{Bytes, bytes_eq}
use neo_coin.Base.Result.{Result, ok, err, ◌>>=◌, ◌>>◌, fail_if}
use neo_coin.Types.{Error, Transaction, Block, ConsensusParams}
use neo_coin.Platform.{Platform}
use neo_coin.Difficulty.{max_bits, expected_difficulty_bits}
use neo_coin.TimeRules.{validate_block_time}
use neo_coin.Tx.{verify_for_consensus}
use neo_coin.Header.{block_version_for_height, pow_validate}
use neo_coin.Ledger.{apply_blocks}
use neo_coin.Chain.{Blockchain}

abbrev pub audit_bits : Block → Option ℕ → Result Error (Unit {0})
audit_bits b none = err Error.difficulty_calc_failed
audit_bits b (some expected) = fail_if (not (b.difficulty_bits == expected)) Error.bad_difficulty

-- The header tests of block `i`; a panic of the difficulty rule counts as its failure, and the
-- height of `prev` is taken to be below 2 ^ 64 - 1.
unfoldable pub audit_header :
    ConsensusParams → ℤ → List Block → ℕ → Option Block → Block → Result Error (Unit {0})
audit_header p now blocks i none b = do
  fail_if (not (b.height == 0) || not (length b.prev_hash == 0)) Error.bad_genesis_header
  fail_if (not (b.version == block_version_for_height p 0)) Error.bad_block_version
audit_header p now blocks i (some prev) b = do
  fail_if (not (b.height == prev.height + 1)) Error.bad_height_linkage
  fail_if (not (bytes_eq b.prev_hash prev.hash)) Error.bad_prev_hash_linkage
  validate_block_time p now blocks i
  if p.difficulty_enable then audit_bits b (expected_difficulty_bits p blocks i) else ok tt
  fail_if (not (b.version == block_version_for_height p b.height)) Error.bad_block_version

module _ (P : Platform) (p : ConsensusParams) where
  unfoldable pub audit_txs : ℕ → List Transaction → Result Error (Unit {0})
  audit_txs height [] = ok tt
  audit_txs height (t ∷ ts) = do
    fail_if (t.chain_id == 0) Error.missing_chain_id
    verify_for_consensus P t p height
    audit_txs height ts

  -- The tests of a block on its own.
  unfoldable pub audit_block : Block → Result Error (Unit {0})
  unfolding audit_txs
  audit_block b = do
    fail_if (b.difficulty_bits == 0 || ltb max_bits b.difficulty_bits) Error.difficulty_out_of_range
    valid ← pow_validate P p b
    fail_if (not valid) Error.invalid_proof_of_work
    audit_txs b.height b.transactions

  -- The loop of `AuditChain`.
  unfoldable pub audit_from :
      ℤ → List Block → ℕ → Option Block → List Block → Result Error (Unit {0})
  audit_from now blocks i prev [] = ok tt
  audit_from now blocks i prev (b ∷ bs) = do
    audit_header p now blocks i prev b
    audit_block b
    audit_from now blocks (suc i) (some b) bs

module _ (P : Platform) where
  -- `recomputeState`; where a block fails, the state of those before it is left.
  unfoldable pub recompute_state : Blockchain → Blockchain × Option Error
  recompute_state bc =
      let replayed = apply_blocks P bc.consensus [] bc.blocks in
      (record bc { state = replayed.0 }, replayed.1)

  abbrev pub audited : Result Error (Unit {0}) → Blockchain → Blockchain × Option Error
  audited (err e) bc = (bc, some e)
  audited (ok done) bc = recompute_state bc

  -- `AuditChain`.
  unfoldable pub audit_chain : ℤ → Blockchain → Blockchain × Option Error
  unfolding audit_from
  audit_chain now bc =
      if length bc.blocks == 0
      then (bc, some Error.empty_chain)
      else audited (audit_from P bc.consensus now bc.blocks 0 none bc.blocks) bc
