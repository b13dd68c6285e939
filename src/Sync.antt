-- ===== src/Sync.antt =====
-- src/swf/sync: the signed, last-writer-wins record store that nodes replicate, and the ring of
-- node events.
pub mod EventLog
pub mod Envelope
pub mod CohortKeys
pub mod Store
pub mod Manifest
pub mod Reachability
pub mod Compare
pub mod Pull
pub mod Loop
pub mod Samples
