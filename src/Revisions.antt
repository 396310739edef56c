-- ===== src/Revisions.antt =====
-- libfs/fs2.0.c and libfs/fs3.0.c, two earlier revisions of libfs/fs.c that no build file names.
pub mod Structures
pub mod Creating
pub mod Fs3
pub mod Fs2
pub mod Checking
pub mod Mounting
pub mod Closing
mod Examples
