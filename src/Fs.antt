-- ===== src/Fs.antt =====
-- The file system TécnicoFS, of fs/state.c and fs/operations.c: an inode table, data blocks in one
-- byte array, a root directory inside a block, and a table of open files.
pub mod Types
pub mod Tables
pub mod Directory
pub mod OpenFiles
pub mod Init
pub mod Operations
pub mod Access
pub mod Validity
pub mod Locking
pub mod Reading
pub mod Handles
pub mod Blocks
pub mod Writing
pub mod Closing
pub mod Exists
pub mod Starting
pub mod Inodes
pub mod RootBlock
pub mod Root
pub mod Unlinking
pub mod Opening
pub mod Allocation
pub mod Contents
pub mod Tests
