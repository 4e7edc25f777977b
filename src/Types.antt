-- ===== src/Types.antt =====
-- server/src/types: the types of a program under test, and what the test generator asks of them.
pub mod Kinds
pub mod Queries
pub mod Creation
pub mod Dimension
pub mod Wrapping
pub mod Pointers
pub mod Handler
pub mod Classify
pub mod Sizes
pub mod Support
pub mod Names
pub mod NameRules
mod Examples
mod NameExamples
