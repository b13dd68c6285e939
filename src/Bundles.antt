-- ===== src/Bundles.antt =====
-- src/swf/bundles: signed documents of the cohort, their store, and the pull of them from peers.
pub mod Envelope
pub mod Store
pub mod Verify
pub mod Puller
