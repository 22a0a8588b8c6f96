-- ===== src/Lib.antt =====
-- Colossus-X: a proof-of-work chain whose hash reads a large DAG at random, with Merkle-backed
-- solutions that a verifier checks without the whole DAG.
--
-- The parts and the files that model them:
-- - Prelude: names, Boolean tests, lists, integers, xor, and the results of Go calls (a value, a
--   returned error, a panic). Bytes: byte arrays, their equality and their integer encodings.
-- - Spec: colossusx/spec.go. Spec/Validate and Spec/Size are about Validate and the DAG sizes.
-- - Crypto: the hash functions of other packages, which are parameters with known digest sizes.
-- - Hex, Decimal: the texts of bytes and numbers. Target, Nonce: colossusx/target.go and
--   colossusx/nonce.go.
-- - Hash: colossusx/hash.go and colossusx/hash_colossusx_v2.go.
-- - Merkle: colossusx/merkle.go and the streaming root of pkg/consensus/validator.go.
-- - Solution: colossusx/colossusx_solution.go.
-- - Dag: colossusx/dag.go, colossusx/dag_colossusx_v2.go and colossusx/dag_stateless.go;
--   Dag/Prover is a prover of colossusx/merkle.go; Dag/Ranges, Dag/Schedule and Dag/Ending are
--   about the goroutines of the generation.
-- - Types: pkg/types/types.go. Chain and Chain/Memory: the store interface and
--   pkg/chain/memory.go. Chain/Codec: the texts of hashes in pkg/chain/codec.go. Chain/Disk:
--   pkg/chain/store_disk.go and the rest of codec.go (Opening: NewDiskStore, load and the
--   migration; Paths, Writes, Recovery, Reopen and Crash: what is left when calls fail; Views,
--   Refines, StoreBlock, Answers and Simulates: the store next to a memory store).
-- - Consensus: pkg/consensus/validator.go: the work of blocks and the choice of the tip
--   (Consensus/Work), the validation of headers and blocks (Consensus/Header), and InsertBlock
--   over any store (Consensus/Insert). Consensus/Cache has the same validation with the caches
--   of DAGs and Merkle roots, SetMiningBackend and Close.
-- - Miner: colossusx/miner.go, with the goroutines of Mine as a step relation.
-- - Strategy: memory_strategy.go, whose strategies are the allocators of Consensus/Cache.
-- - Node: the header that pkg/node/node.go mines and its handler of received blocks, alone; in
--   Node/Handlers the handlers of several connections, one call of the store at a time, and in
--   Node/Alone one of them with the store to itself.
-- - P2p: the frames of pkg/p2p/peer.go, over a JSON codec that is a parameter. P2p/Peers: the
--   set of peers, and dispatch and handleConn of pkg/p2p/transport.go; P2p/Leaks is about what a
--   connection leaves behind.
-- - Verify: the verify command of cmd/colossusx/main.go; Verify/Agrees is about it and the
--   validator.
-- - Tests: concrete runs and instances, over toy hash functions of the right digest sizes.
--
-- A validator checks a block against the store's parent, the epoch's DAG parameters and the
-- clock, then its solution against the Merkle root of the DAG, and stores it with its total
-- work; the best block by work, then by hash, is the tip.
--
-- Conventions: Go names are in snake case. A uint64 or uint32 is a natural number with its
-- wrap-around written out; big integers are natural numbers; an int64 time is an integer. Loops
-- are structural or count their rounds down; the loops of the Merkle tree run on the number of
-- leaves, which is enough because every level is shorter than the one below. Total work is never
-- negative.
--
-- The disk is a map from paths to contents. A script says which of the calls that write fail, and
-- what a file that was being written then holds; a Rename is done as a whole or not at all, and
-- reads of files that are there succeed. encoding/json is a parameter, with the hypothesis that it
-- decodes the values it encoded. An allocator is a function: it answers alike whenever it is asked
-- for one size.
--
-- Not modelled: device backends, sockets, JSON, the parsing of flags and process set-up. SealBlock and
-- the streaming solution that it builds, Benchmark and the choice of a backend are left out as well. Consensus/Header has the validation without caches: a DAG is computed from its header
-- where the program looks it up first. Logs, progress reports and timings are left out.
pub mod Prelude
pub mod Bytes
pub mod Spec
pub mod Crypto
pub mod Hex
pub mod Decimal
pub mod Target
pub mod Nonce
pub mod Hash
pub mod Merkle
pub mod Solution
pub mod Types
pub mod Chain
pub mod Consensus
pub mod Dag
pub mod Miner
pub mod Strategy
pub mod Node
pub mod Verify
pub mod P2p
pub mod Tests
