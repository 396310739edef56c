-- ===== src/Apps/MountTester.antt =====
-- libfs/mount_tester.c, over the interface of libfs/fs.h.
pub mod Failing
use ecs150fs.Base.{[], ◌∷◌}
use ecs150fs.Base.Int.{ℤ}
use ecs150fs.Base.Bytes.{Bytes}
use ecs150fs.Apps.Calls.{FsApi, Cmd, ◌>>◌, call, done}

-- "disk.fs", "disk" and "dk.fs"
abbrev pub disk_fs : Bytes
disk_fs = 100 ∷ 105 ∷ 115 ∷ 107 ∷ 46 ∷ 102 ∷ 115 ∷ []

abbrev pub disk_plain : Bytes
disk_plain = 100 ∷ 105 ∷ 115 ∷ 107 ∷ []

abbrev pub dk_fs : Bytes
dk_fs = 100 ∷ 107 ∷ 46 ∷ 102 ∷ 115 ∷ []

-- The program, with the three numbers that it prints.
unfoldable pub mount_tester : {S : Type 0} → FsApi S → Cmd S (ℤ × ℤ × ℤ)
mount_tester fs s =
    (call (fs.fs_mount disk_fs) >> λ a.
    call (fs.fs_mount disk_plain) >> λ b. call (fs.fs_mount dk_fs) >> λ c. done (a, b, c))
      s
