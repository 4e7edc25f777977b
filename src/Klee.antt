-- ===== src/Klee.antt =====
-- What the server hands to the symbolic executor and to compilers: server/src/utils/KleeUtils.cpp and
-- server/src/utils/SanitizerUtils.cpp.
pub mod Operators
pub mod Renaming
pub mod EntryPoint
pub mod Sanitizers
mod Examples
