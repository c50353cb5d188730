-- ===== src/Vfs.antt =====
-- The file descriptors of kernel/fs/vfs.c.
pub mod Table
pub mod Files
pub mod Cursor
pub mod Isolation
mod Tests
