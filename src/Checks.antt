-- ===== src/Checks.antt =====
-- Runs of the definitions and instances of the theorems on concrete data.
pub mod Orchestrator
pub mod Deployment
pub mod Generation
pub mod Loading
pub mod Planned
pub mod Whole
pub mod Store
pub mod Manifests
pub mod Api
pub mod Heartbeats
pub mod Checkpoint
pub mod EndToEnd
pub mod Requests
pub mod Start
pub mod Inference
pub mod Scripts
pub mod Machine
pub mod Arrays
pub mod Waits
