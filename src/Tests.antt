-- ===== src/Tests.antt =====
-- Runs at concrete inputs, and the theorems at inputs that meet their hypotheses.
mod Context
mod Latch
mod Plan
mod MarketData
mod Session
mod Store
mod Gateway
mod Assembler
mod Collab
mod Transitions
mod Handoff
mod Lease
mod Operational
mod Contract
mod Evidence
mod Conformance
