-- ===== src/Revisions/Fs2/Unmounting.antt =====
-- fs_unmount of libfs/fs2.0.c, and fs_mount with a disk open.
use ecs150fs.Base.{ℕ, ◌≡◌, inl, inr, true, ◌||◌, List, ltb, ◌==◌, Bool-cases}
use ecs150fs.Base.Int.{ℤ, pos, minus_one, pos_part}
use ecs150fs.Base.Bytes.{Bytes, strlen}
use ecs150fs.Disk.{Disk, is_open, block_disk_open}
use ecs150fs.Disk.Posix.{Host}
use ecs150fs.Fs.State.{Pointer, returns, >>=-eq-returns, fs_filename_len}
use ecs150fs.Revisions.Structures.{FsSystem, State, follow, free_fat}
use ecs150fs.Revisions.Fs2.{fs_mount, fs_unmount, write_fat_of}

module _ {W : Type 0} (os : Host W) where
  -- While a disk is open every mount fails.
  mount_open :
      (malloc : ℕ → Pointer (List ℕ)) (name : Bytes) (memory : FsSystem) (s : State) (d : Disk)
      (w : W)
      → is_open d ≡ true
      → fs_mount os malloc name memory s d w ≡ returns (minus_one, s, d, w)
  unfolding fs_mount block_disk_open
  mount_open malloc name memory s d w op =
      elim (Bool-cases (ltb fs_filename_len (strlen name) || strlen name == 0)) [
        | inl y ↦ rw y
        | inr n ↦ rw (n, block_disk_open, op)
      ]

  -- An fs_unmount of fs2.0.c that returns, with the disk open, returns 0 and leaves the disk open:
  -- every fs_mount from then on returns -1 and changes nothing.
  pub fs_unmount_stuck :
      (s s' : State) (d d' : Disk) (w w' : W) (r : ℤ)
      → is_open d ≡ true
      → fs_unmount os s d w ≡ returns (r, s', d', w')
      → (r ≡ pos 0)
        × (d' ≡ d)
        × ((malloc : ℕ → Pointer (List ℕ)) (name : Bytes) (memory : FsSystem)
            → fs_mount os malloc name memory s' d' w' ≡ returns (minus_one, s', d', w'))
  unfolding fs_unmount
  fs_unmount_stuck s s' d d' w w' r op h =
      let (fs, on, e) = >>=-eq-returns (follow s) _ h in
      let (w1, written, e1) =
        >>=-eq-returns (write_fat_of os fs.fat_blocks (pos_part fs.sp.fat_blck_amount) d w) _ e in
      let (fat, gone, e2) = >>=-eq-returns (free_fat fs.fat_blocks) _ e1 in
      let same : d' ≡ d = cc in
      (cc, same, λ malloc name memory. mount_open malloc name memory s' d' w' (rw same op))
