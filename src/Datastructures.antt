-- ===== src/Datastructures.antt =====
-- datastructures/: the collections.
pub mod Set
