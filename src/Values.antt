-- ===== src/Values.antt =====
-- server/src/Tests.cpp and Tests.h: the values of a test, read from the bytes of a KLEE object.
pub mod Bytes
pub mod LittleEndian
pub mod BitFields
pub mod FieldCopy
pub mod SignExtension
pub mod Literals
pub mod Decoding
pub mod LiteralText
pub mod Views
pub mod Pointers
pub mod Reading
pub mod Arrays
pub mod Structs
pub mod Union
pub mod StructViews
pub mod Lookup
pub mod FieldSearch
pub mod LookupLaws
mod Examples
