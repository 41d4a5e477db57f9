-- ===== src/FileSystem.antt =====
-- The file system of Chinux (Chinux/fileSystem/newFs.c): bit maps, allocation, inodes, directories, files,
-- paths and links.
pub mod Bitmap
pub mod Alloc
pub mod Memory
pub mod Descriptors
pub mod State
pub mod InodeTable
pub mod Directory
pub mod Create
pub mod Files
pub mod Path
pub mod Tree
pub mod Remove
pub mod Links
mod Sample
mod TreeTests
mod FileTests
mod LinkTests
mod Tests
