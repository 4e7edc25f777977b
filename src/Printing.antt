-- ===== src/Printing.antt =====
-- server/src/printers: the state and the text that the printers of tests share.
pub mod Printer
pub mod Functions
pub mod Constraints
mod ConstraintSizes
pub mod ConstraintLaws
pub mod Braces
mod Examples
