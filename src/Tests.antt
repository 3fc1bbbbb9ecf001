-- ===== src/Tests.antt =====
-- Runs of the model on concrete inputs, and the theorems applied to them.
pub mod Samples
mod Maps
mod Memories
pub mod Storage
mod Service
mod Limits
mod Users
mod Threads
mod Polling
mod Intervals
mod Systems
mod Interleaving
