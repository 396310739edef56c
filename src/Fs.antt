-- ===== src/Fs.antt =====
-- libfs/fs.c: the file system, one module to a group of its functions.
pub mod State
pub mod Samples
pub mod Layout
pub mod Check
pub mod Mount
pub mod Directory
pub mod Descriptors
pub mod Info
pub mod Abstract
pub mod Sessions
