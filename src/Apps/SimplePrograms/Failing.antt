-- ===== src/Apps/SimplePrograms/Failing.antt =====
-- apps/simple_writer.c and apps/simple_reader.c, linked with libfs/fs.c.
use ecs150fs.Base.{refl, inl, inr, Bool, not, List, [], ◌∷◌}
use ecs150fs.Base.Int.{ℤ, pos, is_negative, ◌==ℤ◌}
use ecs150fs.Base.Bytes.{Bytes}
use ecs150fs.Disk.Posix.{Host}
use ecs150fs.Fs.State.{FsSystem, Outcome}
use ecs150fs.Fs.Descriptors.{fs_read}
use ecs150fs.Apps.Calls.{FsApi, call-ends, call_test-ends}
use ecs150fs.Apps.Library.{Machine, fs_c}
use ecs150fs.Apps.Library.Linking.{HasRoom, created_unopened, mounted_room, GivesUp}
use ecs150fs.Apps.SimplePrograms.{simple_writer, simple_reader, myfile}

module _ {W : Type 0} (os : Host W) (memory : FsSystem) (unspecified : Bytes → Machine W → Bool)
    (info : Machine W → Outcome (ℤ × Machine W)) where
  abbrev pub lib : FsApi (Machine W)
  lib = fs_c os memory unspecified info

  abbrev failed : ℤ → Bool
  failed ret = not (ret ==ℤ pos 0)

  simple_writer-GivesUp :
      (args : List Bytes) (m : Machine W) → HasRoom m → GivesUp (simple_writer lib args m)
  unfolding simple_writer
  simple_writer-GivesUp [] m room = inl refl
  simple_writer-GivesUp (diskname ∷ _) m room =
      call_test-ends GivesUp (lib.fs_mount diskname) failed _ _ m (inl refl)
        (λ _ m1 _ _. inr (m1, refl))
        (λ r m1 mounted _.
          call_test-ends GivesUp (lib.fs_create myfile) failed _ _ m1 (inl refl)
            (λ _ m2 _ _. inr (m2, refl))
            (λ r' m2 made ok.
              rw
                (created_unopened os (unspecified myfile m1) (unspecified myfile m2) myfile m1 m2 r'
                  (mounted_room os diskname memory m m1 r mounted room) made ok)
                (inr (m2, refl))))

  simple_reader-GivesUp :
      (buf : Bytes) (args : List Bytes) (m : Machine W) → GivesUp (simple_reader lib buf args m)
  unfolding simple_reader fs_read
  simple_reader-GivesUp buf [] m = inl refl
  simple_reader-GivesUp buf (diskname ∷ _) m =
      call_test-ends GivesUp (lib.fs_mount diskname) failed _ _ m (inl refl)
        (λ _ m1 _ _. inr (m1, refl))
        (λ r m1 _ _.
          call_test-ends GivesUp (lib.fs_open myfile) is_negative _ _ m1 (inl refl)
            (λ _ m2 _ _. inr (m2, refl))
            (λ fd m2 _ _.
              call-ends GivesUp (lib.fs_lseek fd 12) _ m2 (inl refl) (λ _ m3 _. inr (_, refl))))

  -- Linked with libfs/fs.c, with no more opens counted than the table has entries, neither
  -- simple_writer nor simple_reader ends with status 0: every run ends with status 1, or makes an
  -- undefined call.
  pub simple_programs_fail :
      (buf : Bytes) (args : List Bytes) (m : Machine W)
      → HasRoom m
      → GivesUp (simple_writer lib args m) × GivesUp (simple_reader lib buf args m)
  simple_programs_fail buf args m room =
      (simple_writer-GivesUp args m room, simple_reader-GivesUp buf args m)
