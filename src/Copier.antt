-- ===== src/Copier.antt =====
-- HW5/program.c: the parallel directory copier.
pub mod HashTable
pub mod FileNames
pub mod TaskBuffer
pub mod Pool
pub mod CopyFd
pub mod CopyFile
pub mod Traversal
pub mod Setup
mod Tests
