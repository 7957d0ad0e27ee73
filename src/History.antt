-- ===== src/History.antt =====
-- What holds of the store after any calls, in any order and by any requests.
pub mod Reach
pub mod Publishing
pub mod Revisions
pub mod Recoveries
pub mod Stops
pub mod Placements
pub mod Creations
pub mod Activations
pub mod Statuses
pub mod Operations
pub mod Requests
pub mod Executions
pub mod Operators
