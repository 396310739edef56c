-- ===== src/Lib.antt =====
-- ECS150FS, a FAT file system over a virtual disk: a model of its C code and what holds of it.
--
-- Parts. libfs/disk.c keeps one open host file and moves blocks of 4096 bytes; libfs/fs.c keeps a
-- mounted file system in memory (super block, root directory, FAT) and a table of file descriptors,
-- and goes to the disk only in fs_mount and fs_unmount. libfs/fs.h declares the interface; the
-- programs apps/test_fs.c, apps/simple_writer.c, apps/simple_reader.c and libfs/mount_tester.c are
-- its clients.
--
-- Files. Base has lists, integers and C strings. Disk models libfs/disk.c function by function
-- (block_disk_open, block_disk_close, block_disk_count, block_write, block_read), with the variable
-- `disk` as the record Disk and the system calls as the record Host of Disk.Posix, over a type of
-- host states; the laws of the calls are the record HostLaws, which allows short transfers, and
-- Whole says of a host that it makes none inside a file. Fs models libfs/fs.c: Fs.State has
-- its structures and global variables, Fs.Layout their bytes, Fs.Check sys_error_check, Fs.Mount
-- fs_mount and fs_unmount, Fs.Directory isValidName, fs_create, fs_delete and fs_ls, and
-- Fs.Descriptors fs_open, isValidFD, fs_close, fs_stat, fs_lseek, fs_write and fs_read, and
-- Fs.Info fs_info. Fs.Abstract is an abstract machine for the calls that work in memory,
-- Fs.Sessions has all calls in any order. The children of each module hold its proofs, the
-- modules named Examples its tests.
--
-- Apps models the programs: Apps.Calls has the interface of libfs/fs.h as the record FsApi, with
-- what the programs ask of the host (HostFiles) and how they end (Run); Apps.TestFs the commands
-- and main of apps/test_fs.c, Apps.TestFs.Script its interpreter of scripts; Apps.SimplePrograms
-- the two small programs, Apps.MountTester libfs/mount_tester.c. They take the interface as a
-- parameter; Apps.Library fills it with Fs over Disk (fs_c). Apps.TestFs.Watching watches the
-- calls.
--
-- Revisions models libfs/fs3.0.c and libfs/fs2.0.c, two earlier revisions of libfs/fs.c that no
-- build file names, over the same Disk: Revisions.Structures and Revisions.Creating have what the
-- two share, Revisions.Fs3 and Revisions.Fs2 the functions of each; Revisions.Checking,
-- Revisions.Mounting and Revisions.Closing prove what holds of both. Their argument of
-- block_disk_close is dropped too, `malloc` is a parameter, and `memory` is what it gives for the
-- structure.
--
-- Reading of libfs/fs.c. The file does not compile as it stands, and the model repairs it as
-- follows. `file_size` in fs_mount is `diskNameLen`, DISK_NAME_MAX is the 255 of libfs/fs3.0.c,
-- `fileName` is `filename`, `isvalidFD` is `isValidFD`, FILE_DESCRIPTOR_TABLE_SIZE is the length of
-- fd_table, the argument of block_disk_close is dropped, calloc zeroes the bytes that it is given,
-- `pFAT` points to the 16-bit entries of the FAT, the assignment of a name to an array is strcpy,
-- and the assignment of BLOCK_SIZE to the array `padding` is left out.
--
-- How calls end. A call returns, or it is `undefined`: it follows a null or stale pointer, leaves
-- an array, or reads a variable that was never set. A function that ends with no `return` gives an
-- unspecified value, an argument of the model. A string ends at the end of its array at the latest.
-- Loops are recursions on the entries of an array or on the rounds that are left; none needs fuel.
-- Integers are mathematical ones where their ranges exclude an overflow, and conversions to and
-- from 16, 32 and 64 bits are written out.
--
-- Left out: messages on stderr, malloc and calloc that fail in libfs/fs.c, munmap and free,
-- get_argv (no caller), the part of the command READ of scripts that no line reaches, and what
-- the fs_info of libfs/fs.c and of libfs/fs3.0.c print with a file system in memory: the first line
-- is already undefined.
--
-- Not modelled: the build files, the example script, and the binaries fs_make.x and fs_ref.x.
pub mod Base
pub mod Disk
pub mod Fs
pub mod Apps
pub mod Revisions
