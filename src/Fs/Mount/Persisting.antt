-- ===== src/Fs/Mount/Persisting.antt =====
-- fs_unmount of libfs/fs.c: what it leaves on a disk with a FAT of one block.
use ecs150fs.Base.{
  ℕ, ◌*◌, ◌^◌, ◌≤◌, ◌≡◌, refl, ◌∙◌, sym, ap, ltb, true, false, some, List, [], ◌∷◌, arith, ◌==◌,
  ==_iff, if◌then◌else◌,
}
use mathlib.Core.List.{append-nil}
use ecs150fs.Base.Int.{pos, pattern_of}
use ecs150fs.Base.Lists.{length, take, replicate, take_all, length-take, length-replicate}
use ecs150fs.Base.Bytes.{Bytes}
use ecs150fs.Disk.Posix.{Host, HostLaws, Whole}
use ecs150fs.Disk.{Disk, is_open, block_size, invalid_fd, block_write, block_read, block_disk_close}
use ecs150fs.Disk.Blocks.{Backed, block_at, block_write-whole}
use ecs150fs.Disk.Reading.{block_read-block_write}
use ecs150fs.Fs.State.{FsSystem, State, live, freed, returns}
use ecs150fs.Fs.Layout.{store_words, store_entries}
use ecs150fs.Fs.Layout.RoundTrip.{load_words-store_words}
use ecs150fs.Fs.Mount.{fs_unmount, write_fat, read_fat, write_fat_of, release_system, entries}

pub ltb-false : (n m : ℕ) → m ≤ n → ltb n m ≡ false
ltb-false n m h = ground arith

pub length-store_words : (us : List ℕ) → length (store_words us) ≡ length us * 2
unfolding store_words
length-store_words [] = refl
length-store_words (u ∷ us) = omega (arith, length-store_words us)

take-take : (buf : Bytes) → take block_size (take block_size buf) ≡ take block_size buf
take-take buf =
    take_all block_size (take block_size buf) (omega (arith, length-take block_size buf))

module _ {W : Type 0} (os : Host W) (d : Disk) (b : ℕ) (buf : Bytes) (w : W) where
  -- No more than a block is written.
  pub block_write-take : block_write os d b (take block_size buf) w ≡ block_write os d b buf w
  unfolding block_write
  block_write-take = rw (take-take buf)

  open_of_write : (block_write os d b buf w).0 ≡ pos 0 → is_open d ≡ true
  unfolding block_write
  open_of_write h = ground arith

module _ {W : Type 0} {os : Host W} (laws : HostLaws os) (d : Disk) (w : W) (s : State)
    (fs : FsSystem) (fat : List ℕ) where
  abbrev root_block : ℕ
  root_block = pattern_of (2 ^ 64) fs.sp.root_dir_index

  -- The host after each of the two transfers.
  abbrev pub fat_written : W
  fat_written = (block_write os d 1 (store_words fat) w).1

  abbrev pub root_written : W
  root_written = (block_write os d root_block (store_entries fs.root_dir) fat_written).1

  write_fat-one : length fat ≡ entries → write_fat_of os (some fat) 1 d w ≡ returns fat_written
  unfolding write_fat_of write_fat
  write_fat-one size = rw (write_fat, size, take_all entries fat (omega arith))

  -- On a disk whose file holds all its blocks, and on a host whose transfers inside a file are not
  -- short, an fs_unmount of a file system with one block of FAT whose two transfers succeed, with a
  -- directory of at least 4096 bytes, returns 0 and closes the disk, whatever descriptors are open.
  -- Before it closes the disk, the file has the FAT in block 1, the first 4096 bytes of the
  -- directory in the block of root_dir_index, another block than 1, and every other block as it
  -- was.
  pub fs_unmount_persists :
      s.file_system ≡ live fs
      → fs.fat_blocks ≡ some fat
      → length fat ≡ entries
      → fs.sp.fat_blck_amount ≡ pos 1
      → block_size ≤ length (store_entries fs.root_dir)
      → (1 == root_block) ≡ false
      → Whole laws
      → Backed laws d w
      → (block_write os d 1 (store_words fat) w).0 ≡ pos 0
      → (block_write os d root_block (store_entries fs.root_dir) fat_written).0 ≡ pos 0
      → (fs_unmount os s d w
          ≡ returns (
            pos 0,
            record s { file_system = freed },
            record d { fd = invalid_fd },
            os.close_fd d.fd root_written,
          ))
        × (block_at laws d root_written 1 ≡ store_words fat)
        × (block_at laws d root_written root_block ≡ take block_size (store_entries fs.root_dir))
        × ((c : ℕ)
            → (c == 1) ≡ false
            → (c == root_block) ≡ false
            → block_at laws d root_written c ≡ block_at laws d w c)
  unfolding fs_unmount release_system block_disk_close
  fs_unmount_persists on table size one full apart long backed put put' =
      let (backed', first) =
        block_write-whole laws d 1 w (store_words fat) backed
          (length-store_words fat ∙ omega (arith, size)) long put in
      let cut = block_write-take os d root_block (store_entries fs.root_dir) fat_written in
      let (_, second) =
        block_write-whole laws d root_block fat_written
          (take block_size (store_entries fs.root_dir)) backed'
          (omega (arith, length-take block_size (store_entries fs.root_dir), full)) long
          (ap (λ x. x.0) cut ∙ put') in
      let after : (c : ℕ)
          → block_at laws d root_written c ≡ (
              if c == root_block
              then take block_size (store_entries fs.root_dir)
              else block_at laws d fat_written c) =
        λ c. ap (λ x. block_at laws d x.1 c) (sym cut) ∙ second c in
      (
        rw (on, table, one, write_fat-one size, open_of_write os d 1 (store_words fat) w put),
        after 1 ∙ rw (apart, first 1),
        after root_block ∙ rw ((==_iff root_block root_block).1 refl),
        λ c other elsewhere. after c ∙ rw (elsewhere, first c, other),
      )

-- The array of zeros, of one block, that `calloc` gives.
abbrev pub zeros : Bytes
zeros = store_words (replicate entries 0)

pub length-zeros : length zeros ≡ block_size
length-zeros =
    length-store_words (replicate entries 0) ∙ omega (arith, length-replicate {A = ℕ} entries 0)

-- The loop of fs_mount reads the FAT that the block has.
pub read_fat-one :
    {W : Type 0} (os : Host W) (d : Disk) (w : W) (fat : List ℕ)
    → length fat ≡ entries
    → (block_read os d 1 zeros w).1 ≡ store_words fat
    → read_fat os 1 0 d (replicate entries 0) w ≡ returns (fat, (block_read os d 1 zeros w).2)
unfolding read_fat
read_fat-one os d w fat size got =
    let fits : ltb (length (replicate {A = ℕ} entries 0) * 2) (length (store_words fat)) ≡ false =
      ltb-false _ _
        (omega (arith, length-store_words fat, size, length-replicate {A = ℕ} entries 0)) in
    rw (read_fat, got, fits, got, load_words-store_words fat, append-nil fat) refl

module _ {W : Type 0} {os : Host W} (laws : HostLaws os) (d : Disk) (w : W) (fat : List ℕ) where
  abbrev pub stored : W
  stored = (block_write os d 1 (store_words fat) w).1

  -- On a disk whose file holds all its blocks, for a FAT of one block and transfers that succeed:
  -- what fs_unmount's loop writes of the FAT, fs_mount's loop reads back into its zeroed array.
  pub read_fat-write_fat :
      length fat ≡ entries
      → Whole laws
      → Backed laws d w
      → (block_write os d 1 (store_words fat) w).0 ≡ pos 0
      → (block_read os d 1 (store_words (replicate entries 0)) stored).0 ≡ pos 0
      → (write_fat os 1 0 d fat w ≡ returns stored)
        × (read_fat os 1 0 d (replicate entries 0) stored
            ≡ returns (fat, (block_read os d 1 (store_words (replicate entries 0)) stored).2))
  unfolding write_fat
  read_fat-write_fat size long backed put got =
      let all : take entries fat ≡ fat = take_all entries fat (omega (arith, size)) in
      let same =
        block_read-block_write laws d 1 w (store_words fat) zeros long backed
          (length-store_words fat ∙ omega (arith, size)) length-zeros put got in
      (rw (write_fat, size, all) refl, read_fat-one os d stored fat size same)
