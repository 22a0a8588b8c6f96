-- ===== src/Consensus.antt =====
-- pkg/consensus/validator.go: the rules that a block has to pass, its work, and its insertion.
pub mod Work
pub mod Header
pub mod Insert
pub mod Cache
