-- ===== src/Tests.antt =====
-- The theorems at concrete inputs: small worlds for the parameters, and a run of each theorem.
pub mod World
pub mod Building
pub mod Errors
pub mod Calls
pub mod Policies
pub mod Checks
pub mod Exec
pub mod Stacks
pub mod Children
pub mod Boxes
pub mod Dirs
pub mod Failures
pub mod Crowd
pub mod Pools
pub mod Programs
pub mod Setup
