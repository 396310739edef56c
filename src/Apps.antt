-- ===== src/Apps.antt =====
-- The programs under apps, which use the interface of libfs/fs.h.
pub mod Calls
pub mod Library
pub mod TestFs
pub mod SimplePrograms
pub mod MountTester
mod Examples
