-- ===== src/Hub.antt =====
-- internal/realtime/hub.go: the hub that tells the viewers of a record of changes to it, and of who
-- else is looking at it.
pub mod Model
pub mod Snapshot
pub mod Delivery
pub mod Presence
pub mod Reachable
