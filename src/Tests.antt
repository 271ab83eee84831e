-- ===== src/Tests.antt =====
-- Runs at fixed inputs, and the theorems at concrete inputs.
mod Runs
mod Engine
mod Dispatch
mod Guards
mod Persisted
mod Front
mod Documents
mod Includes
mod Scenarios
mod Drawings
