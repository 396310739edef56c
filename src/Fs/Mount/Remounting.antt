-- ===== src/Fs/Mount/Remounting.antt =====
-- fs_mount of libfs/fs.c after its fs_unmount, for a file system with one block of FAT.
use ecs150fs.Base.{
  ℕ, ◌^◌, ◌≤◌, ◌<◌, ◌≡◌, refl, ◌∙◌, ap, sym, false, ◌||◌, some, List, arith, ltb, ◌==◌,
}
use ecs150fs.Base.Int.{pos, pattern_of}
use ecs150fs.Base.Lists.{length, take, All}
use ecs150fs.Base.Bytes.{Bytes, strlen}
use ecs150fs.Disk.Posix.{Host, HostLaws, Whole}
use ecs150fs.Disk.{Disk, block_size, invalid_fd, block_disk_open}
use ecs150fs.Disk.Blocks.{Backed, block_at}
use ecs150fs.Fs.State.{FsSystem, State, live, freed, returns, fs_file_max_count}
use ecs150fs.Fs.Layout.{store_superblock, store_words, store_entries}
use ecs150fs.Fs.Layout.RoundTrip.{FitsSuperBlock}
use ecs150fs.Fs.Layout.Entries.{FitsEntry}
use ecs150fs.Fs.Layout.Cutting.{take-load_entries, length-store_entries}
use ecs150fs.Fs.Check.{sys_error_check}
use ecs150fs.Fs.Mount.{fs_mount, fs_unmount, mount_super, entries, disk_name_max}
use ecs150fs.Fs.Mount.Persisting.{root_written, fs_unmount_persists}
use ecs150fs.Fs.Mount.Loading.{Serves, Holds, loaded, mount_super-loaded}

-- A file system with one block of FAT, its members in the ranges of their types.
pub record Complete (fs : FsSystem) (fat : List ℕ) : Type 0 where
  pub has_fat : fs.fat_blocks ≡ some fat
  pub fat_size : length fat ≡ entries
  pub files : length fs.root_dir ≡ fs_file_max_count
  pub entries_fit : All FitsEntry fs.root_dir
  pub super_block_fits : FitsSuperBlock fs.sp
  pub one_block : fs.sp.fat_blck_amount ≡ pos 1
  pub root_behind : fs.sp.root_dir_index ≡ pos 2

-- The file of an open disk that can be used.
pub record Usable {W : Type 0} {os : Host W} (laws : HostLaws os) (d : Disk) (w : W) : Type 0 where
  pub unshort : Whole laws
  pub backed : Backed laws d w
  pub serves : Serves os d
  pub room : 2 < d.bcount

open_and_load :
    {W : Type 0} (os : Host W) (name : Bytes) (memory : FsSystem) (s : State) (d d' : Disk)
    (w w' : W)
    → 0 < strlen name
    → strlen name ≤ disk_name_max
    → block_disk_open os (some name) d w ≡ (pos 0, d', w')
    → fs_mount os name memory s d w ≡ mount_super os name memory s d' w'
unfolding fs_mount
open_and_load os name memory s d d' w w' some_name short opened =
    let good : (ltb disk_name_max (strlen name) || strlen name == 0) ≡ false = ground arith in
    rw (good, opened) refl

module _ {W : Type 0} {os : Host W} (laws : HostLaws os) (d d' : Disk) (w w' : W) (s : State)
    (fs memory : FsSystem) (fat : List ℕ) (name : Bytes) where
  -- Take a mounted file system with one block of FAT, the directory of 128 entries behind it, and
  -- members in the ranges of their types, on an open disk of at least three blocks whose file holds
  -- them all, whose transfers are neither failing nor short, and whose block 0 is the super block.
  -- Whatever descriptors are open, fs_unmount returns 0. If block_disk_open then opens a disk with
  -- the same blocks, as usable, and sys_error_check accepts the super block under the name, of 1 to
  -- 255 characters, fs_mount returns 0 with the same super block, the same FAT and the same first
  -- 113 entries of the directory into memory whose super block has the size of a block.
  pub fs_mount-fs_unmount :
      s.file_system ≡ live fs
      → Complete fs fat
      → Usable laws d w
      → block_at laws d w 0 ≡ store_superblock fs.sp
      → let w1 = root_written laws d w s fs fat in
        let shut = record d { fd = invalid_fd } in
        block_disk_open os (some name) shut (os.close_fd d.fd w1) ≡ (pos 0, d', w')
        → Usable laws d' w'
        → ((c : ℕ) → block_at laws d' w' c ≡ block_at laws d w1 c)
        → 0 < strlen name
        → strlen name ≤ disk_name_max
        → length (store_superblock memory.sp) ≡ block_size
        → sys_error_check (strlen name) name d' fs.sp ≡ returns (pos 0)
        → (s1 : State) × (d1 : Disk) × (w1 : W) × (fs' : FsSystem) × (w2 : W) × (fs_unmount os s d w
            ≡ returns (pos 0, s1, d1, w1))
          × (fs_mount os name memory s1 d1 w1
              ≡ returns (pos 0, record s { file_system = live fs' }, d', w2))
          × (fs'.sp ≡ fs.sp)
          × (fs'.fat_blocks ≡ some fat)
          × (take 113 fs'.root_dir ≡ take 113 fs.root_dir)
  fs_mount-fs_unmount on whole usable intact opened usable' same some_name short size checked =
      let bytes = store_entries fs.root_dir in
      let two : pattern_of (2 ^ 64) fs.sp.root_dir_index ≡ 2 = rw (whole.root_behind) refl in
      let put = usable.serves.writes 1 (store_words fat) w (omega (arith, usable.room)) in
      let full : block_size ≤ length bytes =
        omega (arith, length-store_entries fs.root_dir whole.entries_fit, whole.files) in
      let (unmounted, first, second, others) =
        fs_unmount_persists laws d w s fs fat on whole.has_fat whole.fat_size whole.one_block full
          (rw two refl) usable.unshort usable.backed put
          (usable.serves.writes _ bytes _ (rw two usable.room)) in
      let held : Holds laws d' w' fs.sp fat (take block_size bytes) = record {
        super_block = same 0 ∙ others 0 refl (rw two refl) ∙ intact;
        fat_block = same 1 ∙ first;
        root_block =
            same 2 ∙ ap (block_at laws d (root_written laws d w s fs fat)) (sym two) ∙ second;
      } in
      let (w2, made) =
        mount_super-loaded laws d' usable'.serves usable'.room fs.sp fat (take block_size bytes)
          whole.fat_size name memory (record s { file_system = freed }) w' usable'.unshort
          usable'.backed held whole.super_block_fits size checked whole.one_block
          whole.root_behind in
      (
        _,
        _,
        _,
        loaded laws d' usable'.serves usable'.room fs.sp fat (take block_size bytes) whole.fat_size
            memory,
        w2,
        unmounted,
        open_and_load os name memory _ _ d' _ w' some_name short opened ∙ made,
        refl,
        refl,
        take-load_entries 113 128 block_size fs.root_dir _ whole.entries_fit
            (omega (arith, whole.files)) (omega arith) (omega arith),
      )
