-- ===== src/Fanout.antt =====
-- fanout: one stream read by several consumers at once.
mod Reader
mod ReadAll
