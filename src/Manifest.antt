-- ===== src/Manifest.antt =====
-- inference/manifest.py
pub mod Defs
pub mod Values
pub mod Validation
pub mod Accepted
pub mod Sound
pub mod Registry
