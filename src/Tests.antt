-- ===== src/Tests.antt =====
-- Runs of the model on concrete inputs, and the theorems at concrete inputs.
mod Tables
mod Locks
mod Checksums
mod Moves
mod Files
mod Pages
mod Descriptors
mod Queues
