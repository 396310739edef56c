-- ===== src/Fs/Mount/Keeping.antt =====
-- fs_mount of libfs/fs.c and the table of file descriptors.
use ecs150fs.Base.{◌≡◌, refl, ap, ◌∙◌, ◌||◌, some, ltb, ◌==◌, inl, inr, Bool-cases}
use ecs150fs.Base.Int.{ℤ, pos, ◌==ℤ◌, pos_part}
use ecs150fs.Base.Bytes.{Bytes, strlen}
use ecs150fs.Disk.Posix.{Host}
use ecs150fs.Disk.{Disk, block_disk_open, block_read}
use ecs150fs.Fs.State.{FsSystem, State, live, returns, >>=-eq-returns}
use ecs150fs.Fs.Layout.{store_superblock}
use ecs150fs.Fs.Check.{sys_error_check}
use ecs150fs.Fs.Mount.{fs_mount, mount_super, mount_tables, with_super, read_fat, disk_name_max}
use ecs150fs.Fs.Mount.Failing.{parts}

abbrev pub SameTable : State → State → Type 0
SameTable s t = (t.fd_table ≡ s.fd_table) × (t.fd_open_count ≡ s.fd_open_count)

pub same_table : (s t u : State) → u ≡ t → SameTable s t → SameTable s u
same_table s t u e (a, b) =
    (ap (λ (x : State). x.fd_table) e ∙ a, ap (λ (x : State). x.fd_open_count) e ∙ b)

module _ {W : Type 0} (os : Host W) where
  mount_tables-SameTable :
      (fs : FsSystem) (s : State) (d : Disk) (w : W) {r : ℤ} {s1 : State} {d1 : Disk} {w1 : W}
      → mount_tables os fs s d w ≡ returns (r, s1, d1, w1)
      → SameTable s s1
  unfolding mount_tables
  mount_tables-SameTable fs s d w h =
      let ((fat, w'), _, e) =
        >>=-eq-returns (read_fat os (pos_part fs.sp.fat_blck_amount) 0 d _ w) _ h in
      let (_, e', _, _) = parts e in same_table s _ _ e' (refl, refl)

  mount_super-SameTable :
      (diskname : Bytes) (memory : FsSystem) (s : State) (d : Disk) (w : W) {r : ℤ} {s1 : State}
      {d1 : Disk} {w1 : W}
      → mount_super os diskname memory s d w ≡ returns (r, s1, d1, w1)
      → SameTable s s1
  unfolding mount_super
  mount_super-SameTable diskname memory s d w h =
      let fs = with_super memory (block_read os d 0 (store_superblock memory.sp) w).1 in
      let s' = record s { file_system = live fs } in
      let w' = (block_read os d 0 (store_superblock memory.sp) w).2 in
      let (error, _, e) = >>=-eq-returns (sys_error_check (strlen diskname) diskname d fs.sp) _ h in
      elim (Bool-cases (error ==ℤ pos 0)) [
        | inl ok ↦ mount_tables-SameTable fs s' d w' (rw ok at e)
        | inr bad ↦ let (_, e', _, _) = parts (rw bad at e) in same_table s s' _ e' (refl, refl)
      ]

  -- A call of `fs_mount` that returns has not touched the table.
  pub fs_mount-SameTable :
      (diskname : Bytes) (memory : FsSystem) (s : State) (d : Disk) (w : W) {r : ℤ} {s1 : State}
      {d1 : Disk} {w1 : W}
      → fs_mount os diskname memory s d w ≡ returns (r, s1, d1, w1)
      → SameTable s s1
  unfolding fs_mount
  fs_mount-SameTable diskname memory s d w h =
      elim (Bool-cases (ltb disk_name_max (strlen diskname) || strlen diskname == 0)) [
        | inl y ↦ let (_, e, _, _) = parts (rw y at h) in same_table s s _ e (refl, refl)
        | inr n ↦ elim (Bool-cases ((block_disk_open os (some diskname) d w).0 ==ℤ pos 0)) [
          | inl ok ↦ mount_super-SameTable diskname memory s _ _ (rw (n, ok) at h)
          | inr bad ↦ let (_, e, _, _) = parts (rw (n, bad) at h) in same_table s s _ e (refl, refl)
        ]
      ]
