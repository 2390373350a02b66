-- ===== src/Txpool.antt =====
-- The transaction pool: core/txpool.
pub mod TxList
