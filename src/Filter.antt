-- ===== src/Filter.antt =====
-- server/src/FeaturesFilter.cpp: which methods and global parameters of a file tests are generated
-- for.
pub mod PrivateArrays
pub mod Methods
pub mod Globals
pub mod Files
pub mod Accepts
pub mod Server
mod Examples
