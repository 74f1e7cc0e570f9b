-- ===== src/Miner.antt =====
-- Building blocks from the pool: `SelectMempoolTxs`, `MineTransfers` and `SubmitTransfer` of
-- blockchain/chain.go, and `EntriesSortedByFeeDesc` of blockchain/mempool.go.
pub mod Select
pub mod SelectLaws
pub mod Mine
pub mod MineLaws
pub mod Extension
