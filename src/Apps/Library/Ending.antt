-- ===== src/Apps/Library/Ending.antt =====
-- The commands stat and cat of apps/test_fs.c, linked with libfs/fs.c: how they end.
use ecs150fs.Base.{ℕ, ◌≡◌, refl, Bool, true, List, [], ◌∷◌}
use ecs150fs.Base.Int.{ℤ, is_negative}
use ecs150fs.Base.Bytes.{Bytes}
use ecs150fs.Disk.Posix.{Host}
use ecs150fs.Fs.State.{FsSystem, Outcome}
use ecs150fs.Apps.Calls.{
  FsApi, HostFiles, empty_file, Run, goes_on, exits, crashes, call-ends, call_test-ends,
}
use ecs150fs.Apps.Library.{Machine, fs_c}
use ecs150fs.Apps.TestFs.{failed, umount_die, thread_fs_stat, thread_fs_cat}
use ecs150fs.Apps.Library.Linking.{new_size}

module _ {W : Type 0} (os : Host W) (memory : FsSystem) (unspecified : Bytes → Machine W → Bool)
    (info : Machine W → Outcome (ℤ × Machine W)) (files : HostFiles (Machine W)) where
  abbrev pub lib : FsApi (Machine W)
  lib = fs_c os memory unspecified info

  -- A normal end has said that the file is empty; any other has status 1.
  abbrev pub SaysEmpty : Run (Machine W) ℕ → Type 0
  SaysEmpty (goes_on _ m) = (m' : Machine W) × (m ≡ files.print empty_file m')
  SaysEmpty (exits status _) = status ≡ 1
  SaysEmpty crashes = true ≡ true

  umount_die-SaysEmpty : (m : Machine W) → SaysEmpty (umount_die lib files m)
  umount_die-SaysEmpty m = call-ends SaysEmpty lib.fs_umount _ m refl (λ _ _ _. refl)

  thread_fs_cat-SaysEmpty :
      (args : List Bytes) (m : Machine W) → SaysEmpty (thread_fs_cat lib files args m)
  unfolding thread_fs_cat
  thread_fs_cat-SaysEmpty [] m = refl
  thread_fs_cat-SaysEmpty (_ ∷ []) m = refl
  thread_fs_cat-SaysEmpty (diskname ∷ filename ∷ _) m =
      call_test-ends SaysEmpty (lib.fs_mount diskname) failed _ _ m refl (λ _ _ _ _. refl)
        (λ _ m1 _ _.
          call_test-ends SaysEmpty (lib.fs_open filename) is_negative _ _ m1 refl
            (λ _ m2 _ _. umount_die-SaysEmpty m2)
            (λ fd m2 opened up.
              rw (new_size os (unspecified filename m1) filename m1 fd m2 opened up) (m2, refl)))

  thread_fs_stat-SaysEmpty :
      (args : List Bytes) (m : Machine W) → SaysEmpty (thread_fs_stat lib files args m)
  unfolding thread_fs_stat
  thread_fs_stat-SaysEmpty [] m = refl
  thread_fs_stat-SaysEmpty (_ ∷ []) m = refl
  thread_fs_stat-SaysEmpty (diskname ∷ filename ∷ _) m =
      call_test-ends SaysEmpty (lib.fs_mount diskname) failed _ _ m refl (λ _ _ _ _. refl)
        (λ _ m1 _ _.
          call_test-ends SaysEmpty (lib.fs_open filename) is_negative _ _ m1 refl
            (λ _ m2 _ _. umount_die-SaysEmpty m2)
            (λ fd m2 opened up.
              rw (new_size os (unspecified filename m1) filename m1 fd m2 opened up) (
                call-ends SaysEmpty (lib.fs_close fd) _ m2 refl
                  (λ _ m3 _. call-ends SaysEmpty lib.fs_umount _ m3 refl (λ _ m4 _. (m4, refl))))))

  -- Linked with libfs/fs.c, the commands stat and cat never show a file: a run of either that ends
  -- normally has said, as the last thing that it printed, that the file is empty, and a run that
  -- ends otherwise has status 1 or makes an undefined call.
  pub stat_cat_ends :
      (args : List Bytes) (m : Machine W)
      → SaysEmpty (thread_fs_stat lib files args m) × SaysEmpty (thread_fs_cat lib files args m)
  stat_cat_ends args m = (thread_fs_stat-SaysEmpty args m, thread_fs_cat-SaysEmpty args m)
