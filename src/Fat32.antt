-- ===== src/Fat32.antt =====
-- os/fs/fat32.h: the constants, the error codes and the structures of the FAT32 driver, and the
-- modules of os/fs/fat32.c over them.
pub mod Types
pub mod Memory
pub mod Strings
pub mod Name
pub mod Path
pub mod Chain
pub mod Read
pub mod File
pub mod Directory
pub mod Open
pub mod Mount
pub mod Label
pub mod Load
mod Tests
pub use Types.*
unfoldable pub use Memory.*
