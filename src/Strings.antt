-- ===== src/Strings.antt =====
-- server/src/utils/StringUtils.cpp and StringUtils.h.
pub mod Affixes
pub mod Split
pub mod Trim
pub mod Replace
pub mod Numbers
mod Examples
