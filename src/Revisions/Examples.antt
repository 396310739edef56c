-- ===== src/Revisions/Examples.antt =====
-- The theorems on the earlier revisions at a small directory and at formatted disks.
use ecs150fs.Base.{ℕ, ◌≤◌, ◌≡◌, ◌≢◌, refl, inr, true, some, none, List, [], ◌∷◌, ◌++◌, ◌*◌, arith}
use ecs150fs.Base.Int.{ℤ, pos, minus_one, double, ◌-ℤ◌}
use ecs150fs.Base.Lists.{length, replicate, get_elem?, drop, length-append}
use ecs150fs.Base.Bytes.{Bytes}
use ecs150fs.Disk.{
  Disk, closed_disk, block_disk_open, block_disk_count, block_read, block_write, block_disk_close,
  block_size,
}
use ecs150fs.Disk.Examples.{World, host, host_laws, blank, two_blocks}
use ecs150fs.Disk.Posix.{bytes_from}
use ecs150fs.Disk.Posix.Splice.{length-bytes_from}
use ecs150fs.Fs.State.{SuperBlock, Pointer, null, live, freed, Outcome, returns, undefined}
use ecs150fs.Fs.Samples.{name_a, name_b, array_of, super_block}
use ecs150fs.Fs.Layout.{store_superblock}
use ecs150fs.Fs.Check.{signature_matches}
use ecs150fs.Fs.Directory.{is_valid_name}
use ecs150fs.Fs.Check.Geometry.{Geometry}
use ecs150fs.Revisions.Structures.{
  RootEntry, FsSystem, State, load_superblock, store_entries, listing, read_super, mount_tables,
}
use ecs150fs.Revisions.Creating.Erasing.{listing_behind}
use ecs150fs.Revisions.Fs2
use ecs150fs.Revisions.Fs2.Unmounting.{fs_unmount_stuck}
use ecs150fs.Revisions.Fs3
use ecs150fs.Revisions.Fs3.Creation.{fs_create_erases}
use ecs150fs.Disk.Blocks.{Backed, block_at}
use ecs150fs.Fs.Mount.{read_fat, write_fat}
use ecs150fs.Fs.Mount.Loading.{Serves}
use ecs150fs.Revisions.Fs3.Unmounting.{fs_unmount_skips}
use ecs150fs.Revisions.Checking.{format_refused}
use ecs150fs.Revisions.Mounting.{Fits, HasNoFat, ReadsBlock, mount_without_fat}

abbrev entry : Bytes → RootEntry
entry name = record {
  filename = array_of name;
  file_size = pos 5;
  file_first_index = pos 1;
  padding = replicate 10 0;
}

abbrev system : FsSystem
system = record {
  sp = super_block;
  root_dir = entry name_b ∷ entry name_a ∷ entry name_b ∷ [];
  fat_blocks = some null;
}

valid_a : is_valid_name true name_a ≡ true
unfolding is_valid_name
valid_a = refl

-- "b" is erased in front of "a", and stays behind it.
erases :
    (s' : State) × (Fs3.fs_create true name_a (live system) ≡ returns (minus_one, s'))
    × (Fs3.fs_ls s' ≡ returns (pos 0, (1, name_a) ∷ (2, name_b) ∷ []))
unfolding listing
erases = fs_create_erases true name_a system valid_a

fs_create_erases_example :
    (s' : State) × (Fs3.fs_create true name_a (live system) ≡ returns (minus_one, s'))
    × (Fs3.fs_ls s' ≡ returns (pos 0, listing_behind name_a 0 system.root_dir))
fs_create_erases_example = fs_create_erases true name_a system valid_a

deleted : State
deleted = live (record system {
  root_dir =
      entry name_b
      ∷ record (entry name_a) { file_size = pos 0; file_first_index = minus_one }
      ∷ entry name_b
      ∷ [];
})

deletes : Fs3.fs_delete name_a (live system) ≡ returns (pos 0, deleted)
unfolding Fs3.fs_delete deleted
deletes = refl

abbrev large : Disk
large = record { fd = pos 3; bcount = 2048 }

-- The super block with zeros behind its numbers.
abbrev padded : SuperBlock
padded = record super_block { padding = 0 ∷ [] }

abbrev padded_Geometry : Geometry 2048 padded
padded_Geometry = record {
  total_blocks = refl;
  fat_blocks = refl;
  data_blocks = refl;
  root_block = refl;
  first_data_block = refl;
}

format_refused_example :
    (Fs2.sys_error_check 8 padded.signature large (load_superblock (store_superblock padded))
      ≢ returns (pos 0))
    × (Fs3.sys_error_check 8 padded.signature large (load_superblock (store_superblock padded))
        ≢ returns (pos 0))
format_refused_example =
    format_refused 8 padded.signature large padded [] refl (omega arith) (omega arith)
      padded_Geometry refl refl

-- A file system without FAT, so that `fs_unmount` has nothing to write.
abbrev bare : FsSystem
bare = record system { sp = record super_block { fat_blck_amount = pos 0 } }

unmounts :
    Fs2.fs_unmount host (live bare) two_blocks blank ≡ returns (pos 0, live bare, two_blocks, blank)
unfolding Fs2.fs_unmount write_fat
unmounts = refl

fs_unmount_stuck_example :
    (pos 0 ≡ pos 0)
    × (two_blocks ≡ two_blocks)
    × ((malloc : ℕ → Pointer (List ℕ)) (name : Bytes) (memory : FsSystem)
        → Fs2.fs_mount host malloc name memory (live bare) two_blocks blank
          ≡ returns (minus_one, live bare, two_blocks, blank))
fs_unmount_stuck_example =
    fs_unmount_stuck host (live bare) (live bare) two_blocks two_blocks blank blank (pos 0) refl
      unmounts

-- A disk of 100 blocks whose super block has the layout of these revisions.
abbrev old_layout : SuperBlock
old_layout = record {
  signature = super_block.signature ++ replicate 8 0;
  dsk_blck_amount = pos 100;
  root_dir_index = pos 1;
  data_blck_index = pos 2;
  data_blck_amount = pos 98;
  fat_blck_amount = pos 0;
  padding = [];
}

abbrev old_disk : World
old_disk = record {
  image = λ a. elim (get_elem? (store_superblock old_layout) a) [ none ↦ 0 | some b ↦ b ];
  offset = 0;
  size = 100 * 4096;
}

abbrev no_memory : ℕ → Pointer (List ℕ)
no_memory n = null

no_memory-Fits : Fits no_memory
no_memory-Fits n fat h = cc

abbrev run : Outcome (ℤ × State × Disk × World)
run = Fs3.fs_mount host no_memory super_block.signature system null closed_disk old_disk

-- What a call has left, if it returned.
state_of : Outcome (ℤ × State × Disk × World) → State
state_of (returns (_, s, _, _)) = s
state_of undefined = null

world_of : Outcome (ℤ × State × Disk × World) → World
world_of (returns (_, _, _, w)) = w
world_of undefined = old_disk

mounts : run ≡ returns (pos 0, state_of run, record { fd = pos 3; bcount = 100 }, world_of run)
unfolding Fs3.fs_mount Fs3.sys_error_check block_disk_open block_disk_count block_read bytes_from
    store_superblock state_of world_of load_superblock read_super mount_tables signature_matches
    double ◌-ℤ◌ read_fat
mounts = refl

reads_block :
    ReadsBlock host (block_disk_open host (some super_block.signature) closed_disk old_disk).1
unfolding block_read block_disk_open
reads_block buf w =
    let got = bytes_from w.image 4096 4096 in
    omega (arith, length-append got (drop (length got) buf), length-bytes_from w.image 4096 4096)

mount_without_fat_example : HasNoFat (state_of run)
mount_without_fat_example =
    mount_without_fat host no_memory no_memory-Fits super_block.signature system null closed_disk
      old_disk reads_block (inr mounts)

-- A file system with two blocks of FAT and a directory of 128 entries.
abbrev two_fat_blocks : FsSystem
two_fat_blocks = record {
  sp = record super_block { fat_blck_amount = pos 2; root_dir_index = pos 3 };
  root_dir = replicate 128 (entry name_b);
  fat_blocks = some (live (replicate 4096 7));
}

abbrev zeros : World
zeros = record { image = λ a. 0; offset = 0; size = 2048 * 4096 }

large-Serves : Serves host large
unfolding block_read block_write
large-Serves = record {
  reads = λ b buf w below. ground arith;
  writes = λ b buf w below. ground arith;
}

large-Backed : Backed host_laws large zeros
large-Backed = omega arith

directory_room : block_size ≤ length (store_entries two_fat_blocks.root_dir)
unfolding store_entries
directory_room = omega arith

abbrev left : World
left = world_of (Fs3.fs_unmount host (live two_fat_blocks) large zeros)

skips :
    Fs3.fs_unmount host (live two_fat_blocks) large zeros
    ≡ returns (pos 0, freed, record { fd = minus_one; bcount = 2048 }, left)
unfolding Fs3.fs_unmount block_write block_disk_close write_fat world_of
skips = refl

fs_unmount_skips_example :
    (w1 : World) × (left ≡ w1) × (block_at host_laws large w1 1 ≡ block_at host_laws large zeros 1)
fs_unmount_skips_example =
    fs_unmount_skips host_laws large large-Serves two_fat_blocks freed
      (record { fd = minus_one; bcount = 2048 }) zeros left (pos 0) large-Backed directory_room refl
      refl skips
