-- ===== src/Fs/Mount/Loading.antt =====
-- fs_mount of libfs/fs.c from a disk that holds a file system with one block of FAT.
use ecs150fs.Base.{ℕ, ◌^◌, ◌*◌, ◌%◌, ◌≡◌, ◌<◌, refl, sym, ◌∙◌, ap, none, some, List, arith}
use mathlib.Core.Path.{subst}
use ecs150fs.Base.Int.{ℤ, pos, pos_part, pattern_of}
use ecs150fs.Base.Lists.{length, replicate}
use ecs150fs.Base.Bytes.{Bytes, strlen}
use ecs150fs.Disk.Posix.{Host, HostLaws, Whole}
use ecs150fs.Disk.{Disk, block_size, fill, block_read, block_write}
use ecs150fs.Disk.Blocks.{Backed, block_at}
use ecs150fs.Disk.Reading.{
  block_read-fill, block_read-block, Backed-block_read, block_at-block_read,
}
use ecs150fs.Fs.State.{SuperBlock, FsSystem, State, live, returns, fs_file_max_count}
use ecs150fs.Fs.Layout.{store_superblock, load_superblock, store_words, store_entries, load_entries}
use ecs150fs.Fs.Layout.RoundTrip.{FitsSuperBlock, load_superblock-store_superblock}
use ecs150fs.Fs.Check.{sys_error_check}
use ecs150fs.Fs.Mount.{mount_super, mount_tables, read_fat, entries}
use ecs150fs.Fs.Mount.Persisting.{zeros, length-zeros, read_fat-one}

-- The host fails no transfer of a block that the disk has.
pub record Serves {W : Type 0} (os : Host W) (d : Disk) : Type 0 where
  pub reads : (b : ℕ) (buf : Bytes) (w : W) → b < d.bcount → (block_read os d b buf w).0 ≡ pos 0
  pub writes : (b : ℕ) (buf : Bytes) (w : W) → b < d.bcount → (block_write os d b buf w).0 ≡ pos 0

-- The blocks of the disk: a super block, the FAT, and the root directory behind it.
pub record Holds {W : Type 0} {os : Host W} (laws : HostLaws os) (d : Disk) (w : W)
    (sp : SuperBlock) (fat : List ℕ) (root : Bytes) : Type 0 where
  pub super_block : block_at laws d w 0 ≡ store_superblock sp
  pub fat_block : block_at laws d w 1 ≡ store_words fat
  pub root_block : block_at laws d w 2 ≡ root

read_fat-amount :
    {W : Type 0} (os : Host W) (d : Disk) (w : W) (fat : List ℕ) (amount : ℤ)
    → amount ≡ pos 1
    → length fat ≡ entries
    → (block_read os d 1 zeros w).1 ≡ store_words fat
    → read_fat os
        (pos_part amount)
        0
        d
        (replicate ((pattern_of (2 ^ 32) amount * entries) % 2 ^ 32) 0)
        w
      ≡ returns (fat, (block_read os d 1 zeros w).2)
read_fat-amount os d w fat amount one size got =
    subst
      (λ z.
        read_fat os (pos_part z) 0 d (replicate ((pattern_of (2 ^ 32) z * entries) % 2 ^ 32) 0) w
        ≡ returns (fat, (block_read os d 1 zeros w).2))
      (sym one) (read_fat-one os d w fat size got)

module _ {W : Type 0} {os : Host W} (laws : HostLaws os) (d : Disk) (serves : Serves os d)
    (room : 2 < d.bcount) (sp : SuperBlock) (fat : List ℕ) (root : Bytes)
    (size : length fat ≡ entries) where
  -- The root directory that is left in memory: the block, and behind it what was there.
  abbrev pub loaded : FsSystem → FsSystem
  loaded memory = record {
    sp = sp;
    root_dir = load_entries fs_file_max_count (fill root (store_entries memory.root_dir));
    fat_blocks = some fat;
  }

  mount_tables-loaded :
      (memory : FsSystem) (s : State) (w : W)
      → Whole laws
      → Backed laws d w
      → Holds laws d w sp fat root
      → sp.fat_blck_amount ≡ pos 1
      → sp.root_dir_index ≡ pos 2
      → (w' : W) × (mount_tables os
            (record { sp = sp; root_dir = memory.root_dir; fat_blocks = none })
            s
            d
            w
          ≡ returns (pos 0, record s { file_system = live (loaded memory) }, d, w'))
  unfolding mount_tables
  mount_tables-loaded memory s w long k h one two =
      let w1 = (block_read os d 1 zeros w).2 in
      let table = read_fat-amount os d w fat sp.fat_blck_amount one size (
        block_read-block laws d 1 w zeros long k length-zeros (serves.reads 1 zeros w (omega arith))
        ∙ h.fat_block) in
      let buf = store_entries memory.root_dir in
      let got : (block_read os d 2 buf w1).1 ≡ fill root buf =
        block_read-fill laws d 2 w1 buf long (Backed-block_read laws d 1 w zeros k)
          (serves.reads 2 buf w1 room)
        ∙ ap (λ r. fill r buf) (block_at-block_read laws d 1 w zeros 2 ∙ h.root_block) in
      ((block_read os d 2 buf w1).2, rw (table, two, got) refl)

  pub mount_super-loaded :
      (name : Bytes) (memory : FsSystem) (s : State) (w : W)
      → Whole laws
      → Backed laws d w
      → Holds laws d w sp fat root
      → FitsSuperBlock sp
      → length (store_superblock memory.sp) ≡ block_size
      → sys_error_check (strlen name) name d sp ≡ returns (pos 0)
      → sp.fat_blck_amount ≡ pos 1
      → sp.root_dir_index ≡ pos 2
      → (w' : W) × (mount_super os name memory s d w
          ≡ returns (pos 0, record s { file_system = live (loaded memory) }, d, w'))
  unfolding mount_super
  mount_super-loaded name memory s w long k h fits whole checked one two =
      let buf = store_superblock memory.sp in
      let w1 = (block_read os d 0 buf w).2 in
      let keeps = block_at-block_read laws d 0 w buf in
      let h' : Holds laws d w1 sp fat root = record {
        super_block = keeps 0 ∙ h.super_block;
        fat_block = keeps 1 ∙ h.fat_block;
        root_block = keeps 2 ∙ h.root_block;
      } in
      let got : load_superblock (block_read os d 0 buf w).1 ≡ sp =
        ap load_superblock (
          block_read-block laws d 0 w buf long k whole (serves.reads 0 buf w (omega arith))
          ∙ h.super_block)
        ∙ load_superblock-store_superblock sp fits in
      let (w', made) =
        mount_tables-loaded memory
          (record s {
            file_system = live (record { sp = sp; root_dir = memory.root_dir; fat_blocks = none });
          })
          w1 long (Backed-block_read laws d 0 w buf k) h' one two in
      (w', rw (got, checked) made)
