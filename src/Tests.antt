-- ===== src/Tests.antt =====
-- Runs of src/iterator.cc and src/database.cc on small inputs, with the theorems at concrete inputs.
pub mod Iteration
pub mod Life
pub mod Values
pub mod Storing
pub mod Chains
pub mod Traffic
pub mod Agreeing
pub mod Reading
pub mod Objects
pub mod Together
