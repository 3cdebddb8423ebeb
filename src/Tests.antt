-- ===== src/Tests.antt =====
-- Runs on the simulated host, and the theorems applied to them.
mod Director
mod Gateway
mod Manager
mod Leading
mod Informers
mod Controller
mod Inert
mod Signals
mod Directed
mod Translated
mod Withdrawn
mod Missing
mod Synced
mod DeepCopy
mod Running
mod Listers
mod Client
mod Clientsets
mod Electing
mod Commands
