-- ===== src/Wrapper.antt =====
-- The JavaScript that wraps the binding: iterator.js and the argument checks of leveldown.js.
-- The base classes of abstract-leveldown, which call it, are not part of the repository.
pub mod Reader
pub mod Flags
pub mod Fetch
pub mod Rows
pub mod Whole
pub mod Given
pub mod Checks
