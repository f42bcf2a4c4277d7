-- ===== src/Tests.antt =====
-- Concrete inputs at which the theorems are applied.
mod Keys
mod Logs
mod Requests
mod Catalogs
mod Groups
mod GroupCatalogs
mod StateMachines
mod Snapshots
mod SnapshotFiles
mod Placements
mod FrontEnds
mod Tokens
