-- ===== src/Service.antt =====
-- internal/definition/: the service over the store. A call is a chain of steps on the store; each
-- step is one method of the store. `S` is the type of the execution settings.
pub mod Checks
pub mod Publish
pub mod Create
pub mod Configure
pub mod Activation
pub mod Recovery
pub mod Stop
pub mod Read
pub mod Status
pub mod Operations
