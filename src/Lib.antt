-- ===== src/Lib.antt =====
-- NeoCoin's node, blockchain/: what a block may contain, which chain a node follows, and which
-- transactions it keeps pending; the votes, proposals and checkpoints that it keeps beside the chain;
-- and of the packages under internal/ the trie of states, the pool of orphan blocks and the cache.
--
-- The parts and how they interact. A transaction is encoded and hashed (Encoding, Tx), and its sender
-- is the address of its key (Address); a wallet signs it for the next block (Wallet). A block commits to its transactions (Merkle, Header), is mined
-- against a target (Header) that the retarget rule sets (Difficulty), and carries a time that the
-- time rules bound (TimeRules). Its transactions change the balances (Ledger), and its coinbase is
-- paid by the monetary policy (Policy). `AddBlock` keeps a tree of blocks, validates the chain of
-- each new tip from the genesis on, and switches to the chain with the most work (Chain), which
-- rebuilds the indexes that queries read. Until they are mined, transactions wait in the pool
-- (Mempool), from which the miner selects the next block's body (Miner). `AuditChain` checks a whole
-- chain again and replays it (Chain/Audit). Governance, Checkpoints and Tendermint keep a state of
-- their own that blocks do not depend on, and Trie, Orphans and Cache are containers.
--
-- Files, each with its children:
--   Base        Boolean tests, lists, integers, machine words, byte strings, maps and results
--   Types       blockchain/types.go and the parameters of blockchain/difficulty.go
--   Platform    SHA-256, Ed25519 and JSON, as an argument
--   Policy      blockchain/monetary_policy.go: BlockReward, MinerFeeAmount, Validate
--   Address     blockchain/address.go: GenerateAddress, ValidateAddress
--   Encoding    blockchain/encoding_bin.go: writeULEB128, decodeHex32, txSigningPreimageBinaryV1
--   Tx          blockchain/types.go and blockchain/encoding_hash.go: the signing hashes, the ids,
--               Verify and VerifyForConsensus
--   Wallet      blockchain/wallet.go and blockchain/cli.go: WalletFromPrivateKeyBase64 and
--               buildSignedTransferTxWithWallet
--   Merkle      blockchain/merkle.go: MerkleRoot, MerkleProof, VerifyMerkleProof
--   Difficulty  blockchain/difficulty.go and blockchain/work.go
--   TimeRules   blockchain/time_rules.go
--   Ledger      blockchain/chain.go: applyBlockToState and recomputeStateLocked
--   Header      blockchain/types.go, blockchain/versions.go and blockchain/pow.go
--   Chain       blockchain/forks.go and blockchain/chain.go: AddBlock, the walk and the validation of
--               a candidate chain, the indexes, the queries and AuditChain
--   Mempool     blockchain/mempool.go: adding, replacing, evicting and removing
--   Miner       blockchain/chain.go: SelectMempoolTxs, MineTransfers, SubmitTransfer
--   Vm          blockchain/vm.go: VM.Run with its operations, and the balances of TokenContract
--   Governance  blockchain/governance.go: CreateProposal, Vote, ExecuteProposal, AddToTreasury
--   Checkpoints blockchain/checkpoint.go: the map of checkpoints and its binary form
--   Tendermint  blockchain/tendermint.go: AddValidator, GetProposer, Vote and the quorum
--   Trie        internal/trie/trie.go: Put, Get, Delete, GetProof, RootHash and Iterator
--   Orphans     internal/blockchain/orphans.go: adding, removing and LimitSize
--   Cache       internal/cache/lru.go: Set, Get, Delete and Clear
--   Tests       concrete runs, and each result applied to one of them
--
-- How state is modelled. Structs are records and maps are association lists. A method is a function
-- from the old state to the new one with its result. A Go function that returns a value and an error
-- returns a `Result`; where it has changed state before it fails, the changed state is part of its
-- result (`apply_block_to_state`, `add_block`, the operations of the pool). `uint64` and `uint32` are
-- native numbers with the wrap-around written out in `add64`, `sub64`, `mul64` and `to_u32`; `int64`
-- is an integer that `to_i64` wraps. Strings are lists of bytes.
--
-- Bounds and fuel. `uleb128` has ten rounds, enough for 64 bits. The loops over Merkle levels have as
-- many rounds as there are leaves, and each level is about half of the one below. The walk from a tip
-- has one round more than the tree has blocks. `pow_run` takes its number of rounds as an argument,
-- since the source searches without a bound. `run`, the contract machine's loop, takes its rounds as an
-- argument too; two more than the gas limit are enough. The trie's insertion and reads are structural
-- in the path or in the node. `limit_size` takes its rounds as an argument, and one more than its list
-- has entries are enough where the limit is not negative. `binary_encode` visits every height up to the
-- latest, on as many rounds as it is given, and `binary_decode` has a round for each byte.
--
-- What is an argument. `Platform` holds the hash function, of which only is assumed that its result
-- is 32 bytes, the signature check and the JSON texts. The wall clock, the outcome of each write to
-- the store, the answer of the AI filter and the order in which the runtime visits a map are
-- arguments of the operations, as are the comparison of floats in `ExecuteProposal` and the
-- calendar that ends a voting period. `Signer` holds the private half of Ed25519, of which is assumed
-- that its signatures verify and have their sizes; a wallet takes the node's answers as arguments.
--
-- What is not modelled: the files of the store, the genesis and parameter parsers, the network, HTTP,
-- key storage and the other packages under internal/, of which internal/blockchain repeats the files
-- above. Neither are the queries that only read the governance and the orphan pool, nor `TMFromEnv`,
-- which reads the environment.
-- Locks are not modelled: every operation runs under the lock of its object, but for the cache's `Get`,
-- whose two locked parts are steps of their own.
pub mod Base
pub mod Types
pub mod Platform
pub mod Policy
pub mod Address
pub mod Encoding
pub mod Tx
pub mod Wallet
pub mod Merkle
pub mod Difficulty
pub mod TimeRules
pub mod Ledger
pub mod Header
pub mod Chain
pub mod Mempool
pub mod Miner
pub mod Vm
pub mod Trie
pub mod Cache
pub mod Tendermint
pub mod Checkpoints
pub mod Orphans
pub mod Governance
mod Tests
