-- ===== src/Apps/Library/Adding.antt =====
-- The command add of apps/test_fs.c, linked with libfs/fs.c: how it ends.
use ecs150fs.Base.{
  ℕ, ◌≡◌, refl, inl, inr, Bool, true, false, List, [], ◌∷◌, Bool-cases, Option-cases,
}
use ecs150fs.Base.Int.{ℤ, is_negative}
use ecs150fs.Base.Bytes.{Bytes}
use ecs150fs.Disk.Posix.{Host}
use ecs150fs.Fs.State.{FsSystem, Outcome}
use ecs150fs.Apps.Calls.{FsApi, HostFiles, call-ends, call_test-ends}
use ecs150fs.Apps.Library.{Machine, fs_c}
use ecs150fs.Apps.TestFs.{failed, umount_die, add_mapped, thread_fs_add}
use ecs150fs.Apps.Library.Linking.{GivesUp, mounted_room, created_unopened, HasRoom}

module _ {W : Type 0} (os : Host W) (memory : FsSystem) (unspecified : Bytes → Machine W → Bool)
    (info : Machine W → Outcome (ℤ × Machine W)) (files : HostFiles (Machine W)) where
  abbrev pub lib : FsApi (Machine W)
  lib = fs_c os memory unspecified info

  umount_die-GivesUp : (m : Machine W) → GivesUp (umount_die lib files m)
  umount_die-GivesUp m = call-ends GivesUp lib.fs_umount _ m (inl refl) (λ _ m' _. inr (m', refl))

  add_mapped-GivesUp :
      (diskname filename : Bytes) (fd : ℤ) (size : ℕ) (buf : Bytes) (m : Machine W)
      → HasRoom m
      → GivesUp (add_mapped lib files diskname filename fd size buf m)
  unfolding add_mapped
  add_mapped-GivesUp diskname filename fd size buf m room =
      call_test-ends GivesUp (lib.fs_mount diskname) failed _ _ m (inl refl)
        (λ _ m1 _ _. inr (m1, refl))
        (λ r m1 mounted _.
          call_test-ends GivesUp (lib.fs_create filename) failed _ _ m1 (inl refl)
            (λ _ m2 _ _. umount_die-GivesUp m2)
            (λ r' m2 made ok.
              let room' = mounted_room os diskname memory m m1 r mounted room in
              rw
                (created_unopened os (unspecified filename m1) (unspecified filename m2) filename m1
                  m2 r' room' made ok)
                (umount_die-GivesUp m2)))

  -- Linked with libfs/fs.c, on a host whose open leaves the program's variables alone, and with no
  -- more opens counted than the table has entries, the command add never succeeds: every run ends
  -- with status 1, or makes an undefined call.
  pub thread_fs_add-GivesUp :
      ((name : Bytes) (m : Machine W) → (files.open_rdonly name m).1.variables ≡ m.variables)
      → (args : List Bytes) (m : Machine W) → HasRoom m
      → GivesUp (thread_fs_add lib files args m)
  unfolding thread_fs_add
  thread_fs_add-GivesUp apart [] m room = inr (m, refl)
  thread_fs_add-GivesUp apart (_ ∷ []) m room = inr (m, refl)
  thread_fs_add-GivesUp apart (diskname ∷ filename ∷ _) m room =
      let fd = (files.open_rdonly filename m).0 in
      let m1 = (files.open_rdonly filename m).1 in
      let room' : HasRoom m1 = rw (apart filename m) room in
      elim (Bool-cases (is_negative fd)) [
        | inl e ↦ rw e (inr (m1, refl))
        | inr e ↦ elim (Option-cases (files.fstat fd m1)) [
          | inl e1 ↦ rw (e, e1) (inr (m1, refl))
          | inr ((true, size), e1) ↦ elim (Option-cases (files.mmap size fd m1)) [
            | inl e2 ↦ rw (e, e1, e2) (inr (m1, refl))
            | inr (buf, e2) ↦
                rw (e, e1, e2) (add_mapped-GivesUp diskname filename fd size buf m1 room')
          ]
          | inr ((false, size), e1) ↦ rw (e, e1) (inr (m1, refl))
        ]
      ]
