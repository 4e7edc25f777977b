-- ===== src/Paths.antt =====
-- server/src/utils/path/FileSystemPath.h, server/src/Paths.h and Paths.cpp: paths as the program computes
-- with them, with no file system.
pub mod FilePath
pub mod FileNames
pub mod FileKinds
pub mod ProjectDirs
pub mod Project
mod Normal
mod Directories
mod Stems
mod SubPaths
mod TestNames
mod TestPaths
mod Mangling
mod Examples
