-- ===== src/Parallel.antt =====
-- parallel/runner.go: a runner of tasks on several threads.
pub mod Runner
