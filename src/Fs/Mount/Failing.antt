-- ===== src/Fs/Mount/Failing.antt =====
-- How fs_mount of libfs/fs.c ends.
use ecs150fs.Base.{
  ℕ, zero, suc, ◌≡◌, refl, ◌⊎◌, inl, inr, ap, ◌∙◌, true, ◌||◌, none, some, List, ltb, ◌==◌,
  Bool-cases,
}
use ecs150fs.Base.Int.{ℤ, pos, minus_one, ◌==ℤ◌, ==ℤ_iff, pos_part}
use ecs150fs.Base.Lists.{length}
use ecs150fs.Base.Bytes.{Bytes, strlen}
use ecs150fs.Disk.Posix.{Host}
use ecs150fs.Disk.{Disk, is_open, block_disk_open, block_read}
use ecs150fs.Disk.Opening.{block_disk_open-Opened}
use ecs150fs.Fs.State.{FsSystem, State, live, Outcome, returns, >>=-eq-returns, fs_file_max_count}
use ecs150fs.Fs.Layout.{load_entries, store_superblock}
use ecs150fs.Fs.Check.{sys_error_check}
use ecs150fs.Fs.Mount.{fs_mount, mount_super, mount_tables, with_super, read_fat, disk_name_max}

length-load_entries : (n : ℕ) (bytes : Bytes) → length (load_entries n bytes) ≡ n
unfolding load_entries
length-load_entries zero bytes = refl
length-load_entries (suc n) bytes = ap suc (length-load_entries n _)

pub parts :
    {W : Type 0} {r r' : ℤ} {s s' : State} {d d' : Disk} {w w' : W}
    → ◌≡◌ {A = Outcome (ℤ × State × Disk × W)} (returns (r, s, d, w)) (returns (r', s', d', w'))
    → (r' ≡ r) × (s' ≡ s) × (d' ≡ d) × (w' ≡ w)
parts h = (cc, cc, cc, cc)

module _ {W : Type 0} (os : Host W) where
  -- On an open disk every call fails.
  fs_mount_open :
      (diskname : Bytes) (memory : FsSystem) (s : State) (d : Disk) (w : W)
      → is_open d ≡ true
      → fs_mount os diskname memory s d w ≡ returns (minus_one, s, d, w)
  unfolding fs_mount block_disk_open
  fs_mount_open diskname memory s d w op =
      elim (Bool-cases (ltb disk_name_max (strlen diskname) || strlen diskname == 0)) [
        | inl y ↦ rw y
        | inr n ↦ rw (n, block_disk_open, op)
      ]

  -- The file system that a call has left is one that it did not finish.
  abbrev pub HalfMounted : State → Type 0
  HalfMounted s = (fs : FsSystem) × (s.file_system ≡ live fs) × (fs.fat_blocks ≡ none)

  -- It is one whose super block was accepted, with a FAT and a full directory.
  abbrev pub Mounted : Bytes → State → Disk → Type 0
  Mounted diskname s d =
      (fs : FsSystem) × (fat : List ℕ) × (s.file_system ≡ live fs)
      × (sys_error_check (strlen diskname) diskname d fs.sp ≡ returns (pos 0))
      × (fs.fat_blocks ≡ some fat)
      × (length fs.root_dir ≡ fs_file_max_count)

  mount_tables-returns :
      (diskname : Bytes) (fs : FsSystem) (s : State) (d : Disk) (w : W) {r : ℤ} {s1 : State}
      {d1 : Disk} {w1 : W}
      → sys_error_check (strlen diskname) diskname d fs.sp ≡ returns (pos 0)
      → mount_tables os fs s d w ≡ returns (r, s1, d1, w1)
      → (r ≡ pos 0) × (d1 ≡ d) × Mounted diskname s1 d
  unfolding mount_tables
  mount_tables-returns diskname fs s d w ok h =
      let ((fat, w'), _, e) =
        >>=-eq-returns (read_fat os (pos_part fs.sp.fat_blck_amount) 0 d _ w) _ h in
      let (r, s1, d1, _) = parts e in
      (
        r,
        d1,
        (
          _,
          fat,
          ap (λ (t : State). t.file_system) s1,
          ok,
          refl,
          length-load_entries fs_file_max_count _,
        ),
      )

  mount_super-returns :
      (diskname : Bytes) (memory : FsSystem) (s : State) (d : Disk) (w : W) {r : ℤ} {s1 : State}
      {d1 : Disk} {w1 : W}
      → mount_super os diskname memory s d w ≡ returns (r, s1, d1, w1)
      → (d1 ≡ d) × (((r ≡ minus_one) × HalfMounted s1) ⊎ ((r ≡ pos 0) × Mounted diskname s1 d))
  unfolding mount_super
  mount_super-returns diskname memory s d w h =
      let fs = with_super memory (block_read os d 0 (store_superblock memory.sp) w).1 in
      let s' = record s { file_system = live fs } in
      let w' = (block_read os d 0 (store_superblock memory.sp) w).2 in
      let check = sys_error_check (strlen diskname) diskname d fs.sp in
      let (error, checked, e) = >>=-eq-returns check _ h in
      elim (Bool-cases (error ==ℤ pos 0)) [
        | inl ok ↦
            let fine : check ≡ returns (pos 0) =
              checked ∙ ap returns ((==ℤ_iff error (pos 0)).0 ok) in
            let (r, d1, m) = mount_tables-returns diskname fs s' d w' fine (rw ok at e) in
            (d1, inr (r, m))
        | inr bad ↦
            let (r, s1, d1, _) = parts (rw bad at e) in
            (d1, inl (r, (fs, ap (λ (t : State). t.file_system) s1, refl)))
      ]

  -- A call of fs_mount that returns ends in one of three ways: -1 with all variables as they were;
  -- -1 with the disk open and a structure whose FAT was never set; or 0 with the super block
  -- checked, a FAT and 128 directory entries. After the last two every further fs_mount returns -1
  -- and changes nothing.
  pub fs_mount_ends :
      (diskname : Bytes) (memory : FsSystem) (s s1 : State) (d d1 : Disk) (w w1 : W) (r : ℤ)
      → fs_mount os diskname memory s d w ≡ returns (r, s1, d1, w1)
      → ((r ≡ minus_one) × (s1 ≡ s) × (d1 ≡ d))
        ⊎ ((is_open d1 ≡ true)
            × (((r ≡ minus_one) × HalfMounted s1) ⊎ ((r ≡ pos 0) × Mounted diskname s1 d1))
            × ((name : Bytes) (memory' : FsSystem)
                → fs_mount os name memory' s1 d1 w1 ≡ returns (minus_one, s1, d1, w1)))
  unfolding fs_mount
  fs_mount_ends diskname memory s s1 d d1 w w1 r h =
      elim (Bool-cases (ltb disk_name_max (strlen diskname) || strlen diskname == 0)) [
        | inl y ↦ let (r', s', d', _) = parts (rw y at h) in inl (r', s', d')
        | inr n ↦ elim (block_disk_open-Opened os d w diskname) [
          | inl (fail, same) ↦
              let (r', s', d', _) = parts (rw (n, fail) at h) in inl (r', s', d' ∙ same)
          | inr (ok, _, op, _, _) ↦
              let (d', end) = mount_super-returns diskname memory s _ _ (rw (n, ok) at h) in
              let op' : is_open d1 ≡ true = rw d' op in
              inr (op', rw d' end, λ name memory'. fs_mount_open name memory' s1 d1 w1 op')
        ]
      ]
