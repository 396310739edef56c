-- ===== src/Fs/Mount.antt =====
-- fs_mount and fs_unmount of libfs/fs.c, over the disk and the host's system calls. `malloc` and
-- `calloc` are taken to succeed; `memory` is what the memory holds that `malloc` returns.
pub mod Failing
pub mod Unmounting
pub mod Keeping
pub mod Persisting
pub mod Loading
pub mod Remounting
pub mod Overlapping
pub mod Examples
use ecs150fs.Base.{
  ℕ, zero, suc, ◌+◌, ◌*◌, ◌/◌, ◌%◌, ◌^◌, Bool, true, false, not, ◌||◌, ◌&&◌, Option, none, some,
  List, ◌++◌, ltb, ◌==◌, if◌then◌else◌,
}
use ecs150fs.Base.Int.{ℤ, pos, minus_one, pos_part, pattern_of, ◌==ℤ◌}
use ecs150fs.Base.Lists.{length, take, drop, replicate}
use ecs150fs.Base.Bytes.{Bytes, strlen}
use ecs150fs.Disk.Posix.{Host}
use ecs150fs.Disk.{
  Disk, block_size, block_disk_open, block_disk_close, block_read, block_write, reaches_buffer,
}
use ecs150fs.Fs.State.{
  SuperBlock, FsSystem, State, live, freed, Outcome, returns, undefined, ◌>>=◌, deref,
  fs_file_max_count,
}
use ecs150fs.Fs.Layout.{
  store_superblock, load_superblock, store_entries, load_entries, store_words, load_words,
}
use ecs150fs.Fs.Check.{sys_error_check}

-- DISK_NAME_MAX, which libfs/fs3.0.c defines.
abbrev pub disk_name_max : ℕ
disk_name_max = 255

-- Entries of the FAT in a block.
abbrev pub entries : ℕ
entries = block_size / 2

-- The structure in fresh memory, after its super block was read.
abbrev pub with_super : FsSystem → Bytes → FsSystem
with_super memory bytes = record {
  sp = load_superblock bytes;
  root_dir = memory.root_dir;
  fat_blocks = none;
}

module _ {W : Type 0} (os : Host W) where
  -- The loop that reads the FAT, `rounds` being those left: block `i` of the FAT goes to the
  -- address of entry `i`, which is taken to be computed as it is meant to be. Bytes that would leave
  -- the array are undefined; a block_read that fails stores none.
  unfoldable pub read_fat : (rounds i : ℕ) → Disk → List ℕ → W → Outcome (List ℕ × W)
  read_fat zero i d fat w = returns (fat, w)
  read_fat (suc rounds) i d fat w =
      let (_, bytes, w1) = block_read os d (1 + i) (store_words (take entries (drop i fat))) w in
      elim (ltb (length (drop i fat) * 2) (length bytes)) [
        | true ↦ undefined
        | false ↦
            read_fat rounds (i + 1) d (take i fat ++ (load_words bytes ++ drop (i + entries) fat))
              w1
      ]

  -- The loop that writes the FAT back, from the same addresses. A block_write that gets to its
  -- buffer reads a whole block from the array.
  unfoldable pub write_fat : (rounds i : ℕ) → Disk → List ℕ → W → Outcome W
  write_fat zero i d fat w = returns w
  write_fat (suc rounds) i d fat w =
      elim (ltb (length fat) (i + entries) && reaches_buffer os d (1 + i) w) [
        | true ↦ undefined
        | false ↦
            let (_, w1) = block_write os d (1 + i) (store_words (take entries (drop i fat))) w in
            write_fat rounds (i + 1) d fat w1
      ]

  -- `fs_mount` behind its check: the FAT and the root directory.
  pub mount_tables : FsSystem → State → Disk → W → Outcome (ℤ × State × Disk × W)
  unfolding read_fat
  mount_tables fs s d w =
      let blocks = pattern_of (2 ^ 32) fs.sp.fat_blck_amount in
      read_fat (pos_part fs.sp.fat_blck_amount) 0 d (replicate ((blocks * entries) % 2 ^ 32) 0) w
      >>= λ (fat, w1).
          let (_, bytes, w2) =
            block_read os d (pattern_of (2 ^ 64) fs.sp.root_dir_index) (store_entries fs.root_dir)
              w1 in
          let mounted : FsSystem = record {
            sp = fs.sp;
            root_dir = load_entries fs_file_max_count bytes;
            fat_blocks = some fat;
          } in
          returns (pos 0, record s { file_system = live mounted }, d, w2)

  -- `fs_mount` once the disk is open: the super block and its check. The pointer is set first.
  pub mount_super : Bytes → FsSystem → State → Disk → W → Outcome (ℤ × State × Disk × W)
  unfolding mount_tables
  mount_super diskname memory s d w =
      let (_, bytes, w1) = block_read os d 0 (store_superblock memory.sp) w in
      let fs = with_super memory bytes in
      let s' = record s { file_system = live fs } in
      sys_error_check (strlen diskname) diskname d fs.sp >>= λ error.
      if not (error ==ℤ pos 0) then returns (minus_one, s', d, w1) else mount_tables fs s' d w1

  unfoldable pub fs_mount :
      Bytes → (memory : FsSystem) → State → Disk → W → Outcome (ℤ × State × Disk × W)
  unfolding mount_super
  fs_mount diskname memory s d w =
      let disk_name_len = strlen diskname in
      if ltb disk_name_max disk_name_len || disk_name_len == 0
      then returns (minus_one, s, d, w)
      else let (r, d1, w1) = block_disk_open os (some diskname) d w in
        if not (r ==ℤ pos 0)
        then returns (minus_one, s, d1, w1)
        else mount_super diskname memory s d1 w1

  -- The end of `fs_unmount`. A FAT pointer that was never set cannot be given to `free`.
  pub release_system : Option (List ℕ) → State → Disk → W → Outcome (ℤ × State × Disk × W)
  release_system none s d w = undefined
  release_system (some fat) s d w =
      let s' = record s { file_system = freed } in
      let (r, d1, w1) = block_disk_close os d w in
      if not (r ==ℤ pos 0) then returns (minus_one, s', d1, w1) else returns (pos 0, s', d1, w1)

  pub write_fat_of : Option (List ℕ) → ℕ → Disk → W → Outcome W
  unfolding write_fat
  write_fat_of none rounds d w = if rounds == 0 then returns w else undefined
  write_fat_of (some fat) rounds d w = write_fat rounds 0 d fat w

  unfoldable pub fs_unmount : State → Disk → W → Outcome (ℤ × State × Disk × W)
  unfolding write_fat_of release_system
  fs_unmount s d w = deref s.file_system >>= λ fs.
      write_fat_of fs.fat_blocks (pos_part fs.sp.fat_blck_amount) d w >>= λ w1.
      let (_, w2) =
        block_write os d (pattern_of (2 ^ 64) fs.sp.root_dir_index) (store_entries fs.root_dir)
          w1 in
      release_system fs.fat_blocks s d w2
