-- ===== src/Lru.antt =====
-- lru/: a cache that evicts its least recently used entry, and its variant behind a mutex.
pub mod Base
mod Elements
mod Invariant
mod Spec
mod Refinement
mod Deletions
mod Clear
mod Window
mod Runs
pub mod Cache
mod Tests
