-- ===== src/StateMachine/Refinement.antt =====
-- A request that runs on a batch does what it does on the stored maps.
pub mod Append
pub mod Commands
pub mod Control
pub mod Transactions
pub mod Machine
