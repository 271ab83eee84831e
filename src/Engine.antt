-- ===== src/Engine.antt =====
-- engine.rs: the runtime of a topology. The proofs about it are in the modules beside the parts.
pub mod State
pub mod Action
pub mod Reaction
pub mod Dispatch
pub mod Send
pub mod Validate
pub mod Build
pub mod Query
pub mod Holds
pub mod Walk
pub mod TraceJson
pub mod TraceRead
pub mod Commits
pub mod Relations
pub mod Still
pub mod Refine
pub mod Cascades
pub mod Replay
pub mod WellFormed
pub mod Validated
pub mod Built
pub mod Reloaded
pub mod Runs
pub mod Outcome
pub mod Reacts
pub mod GuardInfo
pub mod Atomic
pub mod Agree
pub mod Levels
pub mod Queue
pub mod Schedule
pub mod Joins
pub mod JoinOrder
pub mod Weigh
pub mod LeftOver
pub mod Complete
