-- ===== src/Fuse.antt =====
-- The file system front end, eventfs-fuse.
pub mod Paths
pub mod Handles
pub mod Inodes
pub mod Codec
