-- ===== src/Fs/Mount/Examples.antt =====
-- The theorems on fs_mount and fs_unmount at a host with one file.
mod Disks
use ecs150fs.Fs.Mount.Persisting.{
  length-store_words, fat_written, root_written, fs_unmount_persists,
}
use ecs150fs.Disk.Blocks.{Backed, block_at}
use ecs150fs.Base.{
  inl, ◌++◌, ℕ, zero, suc, ◌*◌, ap, sym, ◌∙◌, ◌≤◌, List, ◌==◌, arith, ◌≡◌, refl, ◌⊎◌, true, false,
  some, [], ◌∷◌, if◌then◌else◌,
}
use ecs150fs.Base.Int.{ℤ, pos, minus_one, double, ◌-ℤ◌}
use ecs150fs.Base.Lists.{All, drop, replicate, take, length, length-replicate, replicate}
use ecs150fs.Base.Bytes.{Bytes}
use ecs150fs.Disk.{
  block_size, Disk, closed_disk, is_open, block_disk_count, block_disk_open, block_disk_close,
  block_read, block_write,
}
use ecs150fs.Disk.Posix.{bytes_from}
use ecs150fs.Disk.Examples.{World, host_laws, host_laws-Whole, World, host, blank, two_blocks}
use ecs150fs.Fs.State.{
  SuperBlock, FsSystem, State, live, null, freed, Outcome, returns, undefined, state,
}
use ecs150fs.Fs.Samples.{super_block, free_entry, with_entries, closed_fd}
use ecs150fs.Fs.Layout.{store_words, store_entries, store_superblock, load_superblock}
use ecs150fs.Fs.Check.{sys_error_check}
use ecs150fs.Fs.Directory.{fs_ls, fs_delete}
use ecs150fs.Fs.Mount.{read_fat, entries, fs_mount, fs_unmount, with_super}
use ecs150fs.Disk.Posix.{splice}
use ecs150fs.Disk.Posix.Splice.{bytes_from-splice_self, bytes_from-splice_apart}
use ecs150fs.Fs.Layout.Entries.{FitsEntry}
use ecs150fs.Fs.Mount.Loading.{Serves}
use ecs150fs.Fs.Mount.Overlapping.{HasFat, overlapped, read_fat-overlapped}
use ecs150fs.Fs.Mount.Remounting.{Complete, Usable, fs_mount-fs_unmount}
use ecs150fs.Fs.Mount.Failing.{HalfMounted, Mounted, fs_mount_ends}
use ecs150fs.Fs.Mount.Unmounting.{fs_unmount_ends}

abbrev pub unmounted : State
unmounted = state null (closed_fd ∷ []) 0

abbrev pub diskname : Bytes
diskname = 100 ∷ []

abbrev pub memory : FsSystem
memory = with_entries []

-- The blank disk has no signature.
abbrev pub half : State
half = record unmounted {
  file_system =
      live (with_super memory (block_read host two_blocks 0 (store_superblock memory.sp) blank).1);
}

abbrev pub after : World
after = (block_read host two_blocks 0 (store_superblock memory.sp) blank).2

pub refuses :
    fs_mount host diskname memory unmounted closed_disk blank
    ≡ returns (minus_one, half, two_blocks, after)
unfolding fs_mount block_disk_open block_read sys_error_check load_superblock bytes_from
refuses = refl

fs_mount_ends_example :
    ((minus_one ≡ minus_one) × (half ≡ unmounted) × (two_blocks ≡ closed_disk))
    ⊎ ((is_open two_blocks ≡ true)
        × (((minus_one ≡ minus_one) × HalfMounted host half)
            ⊎ ((minus_one ≡ pos 0) × Mounted host diskname half two_blocks))
        × ((name : Bytes) (memory' : FsSystem)
            → fs_mount host name memory' half two_blocks after
              ≡ returns (minus_one, half, two_blocks, after)))
fs_mount_ends_example =
    fs_mount_ends host diskname memory unmounted half closed_disk two_blocks blank after minus_one
      refuses

-- A file system with one block of FAT on a disk of three blocks.
abbrev pub mounted : State
mounted =
    state (live (record (with_entries []) { fat_blocks = some (replicate 2048 5) }))
      (closed_fd ∷ []) 0

abbrev pub three_blocks : Disk
three_blocks = record { fd = pos 3; bcount = 3 }

abbrev released : State
released = record mounted { file_system = freed }

abbrev pub shut : Disk
shut = record three_blocks { fd = minus_one }

unfoldable pub world_of : Outcome (ℤ × State × Disk × World) → World
world_of undefined = blank
world_of (returns (_, _, _, w)) = w

abbrev written : World
written = world_of (fs_unmount host mounted three_blocks blank)

unmounts : fs_unmount host mounted three_blocks blank ≡ returns (pos 0, released, shut, written)
unfolding fs_unmount block_write block_disk_close world_of
unmounts = refl

fs_unmount_ends_example :
    (pos 0 ≡ (if is_open three_blocks then pos 0 else minus_one))
    × (is_open shut ≡ false)
    × (released.file_system ≡ freed)
    × (fs_unmount host released shut written ≡ undefined)
    × (fs_ls released ≡ undefined)
    × ((f : Bytes) → fs_delete f released ≡ undefined)
fs_unmount_ends_example =
    fs_unmount_ends host mounted released three_blocks shut blank written (pos 0) unmounts

-- A disk of four blocks, and a file system on it with a FAT of one block and a full directory.
abbrev four_blocks : Disk
four_blocks = record { fd = pos 3; bcount = 4 }

abbrev four_blank : World
four_blank = record { image = λ a. 0; offset = 0; size = 16384 }

abbrev zero_fat : List ℕ
zero_fat = replicate entries 0

abbrev whole_system : FsSystem
whole_system = record {
  sp = super_block;
  root_dir = replicate 128 free_entry;
  fat_blocks = some zero_fat;
}

abbrev whole_state : State
whole_state = state (live whole_system) (closed_fd ∷ []) 0

abbrev end_of_fat : World
end_of_fat = fat_written host_laws four_blocks four_blank whole_state whole_system zero_fat

abbrev end_of_root : World
end_of_root = root_written host_laws four_blocks four_blank whole_state whole_system zero_fat

four_blank-Backed : Backed host_laws four_blocks four_blank
four_blank-Backed = omega arith

directory_room : block_size ≤ length (store_entries (replicate 128 free_entry))
unfolding store_entries
directory_room = omega arith

fat_put : (block_write host four_blocks 1 (store_words zero_fat) four_blank).0 ≡ pos 0
unfolding block_write
fat_put = refl

root_put :
    (block_write host four_blocks 2 (store_entries (replicate 128 free_entry)) end_of_fat).0 ≡ pos 0
unfolding block_write
root_put = refl

fs_unmount_persists_example :
    (fs_unmount host whole_state four_blocks four_blank
      ≡ returns (
        pos 0,
        record whole_state { file_system = freed },
        record { fd = minus_one; bcount = 4 },
        end_of_root,
      ))
    × (block_at host_laws four_blocks end_of_root 1 ≡ store_words zero_fat)
    × (block_at host_laws four_blocks end_of_root 2
        ≡ take block_size (store_entries (replicate 128 free_entry)))
    × ((c : ℕ)
        → (c == 1) ≡ false
        → (c == 2) ≡ false
        → block_at host_laws four_blocks end_of_root c
          ≡ block_at host_laws four_blocks four_blank c)
fs_unmount_persists_example =
    fs_unmount_persists host_laws four_blocks four_blank whole_state whole_system zero_fat refl refl
      (length-replicate {A = ℕ} entries 0) refl directory_room refl host_laws-Whole
      four_blank-Backed fat_put root_put
