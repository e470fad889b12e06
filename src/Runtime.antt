-- ===== src/Runtime.antt =====
-- runtime/: the transition of an artifact line from one state to the next, and its gates.
pub mod World
pub mod Units
pub mod Latest
pub mod Gates
pub mod Plan
pub mod Closure
pub mod Publish
pub mod Relate
pub mod Container
pub mod PlanState
pub mod ContentState
pub mod Transition
