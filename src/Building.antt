-- ===== src/Building.antt =====
-- server/src/building: the command lines of compilers and linkers.
pub mod Command
pub mod Iterators
mod Examples
