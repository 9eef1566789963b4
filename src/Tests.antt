-- ===== src/Tests.antt =====
-- The theorems at small inputs, one module for each part of the package.
mod Money
mod Events
mod Store
mod Ledger
mod Inbox
mod Gate
mod Reconcile
mod Signatures
mod App
mod Cli
mod Log
mod Replay
mod Demo
mod Ended
mod Sim
mod Queue
mod Overflow
