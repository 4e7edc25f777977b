-- ===== src/Coverage.antt =====
-- server/src/coverage: the lines and ranges of files that tests cover, and the list of tests to run.
pub mod LineSet
pub mod FileCoverage
pub mod Lines
pub mod Tools
pub mod Gcov
pub mod GcovLines
pub mod TestList
pub mod TestNames
mod Examples
