-- ===== src/Tests.antt =====
-- Concrete runs and instances of the theorems: a toy set of hash functions of the right sizes, a
-- small specification, its DAG and its chain.
mod Hashes
mod Merkle
mod Miner
mod Solution
mod Chain
mod Cache
mod Disk
mod Dag
mod Numbers
mod P2p
mod Strategy
mod Verify
mod Node
