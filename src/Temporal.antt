-- ===== src/Temporal.antt =====
-- claimpipe/temporal: the activities that change the store, and the workflow that calls them.
pub mod Action
pub mod Activities
pub mod Retry
pub mod Faults
pub mod Storing
pub mod Landing
pub mod Order
pub mod Workflow
pub mod Stages
pub mod Keeping
pub mod Facts
pub mod Arriving
pub mod Answering
pub mod Worker
pub mod Pipelines
pub mod Safety
pub mod Announced
pub mod Progress
