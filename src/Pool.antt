-- ===== src/Pool.antt =====
-- src/insitubatch/pool.py: `ChunkPool`, the residency tier and the cache.
pub mod State
pub mod Room
pub mod Pins
pub mod Owners
pub mod Admit
pub mod Lifecycle
pub mod Facts
pub mod Budget
pub mod Holding
pub mod Reclaim
pub mod Complete
pub mod Calls
pub mod Gather
pub mod Manifest
