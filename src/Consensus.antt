-- ===== src/Consensus.antt =====
-- The consensus of consensus/dpos_bft: the producers and the votes on a block.
pub mod Producers
pub mod Bft
