-- ===== src/Tests.antt =====
-- Runs of the program on small inputs, and the theorems at such inputs.
mod Events
mod Work
mod Rest
mod Service
mod Files
mod Rows
mod Rounds
mod Benchmark
