-- ===== src/Names.antt =====
-- server/src/NameDecorator.cpp: the names in generated headers that are keywords of C++ alone.
pub mod Keywords
pub mod Decorate
mod Examples
