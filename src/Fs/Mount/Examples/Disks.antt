-- ===== src/Fs/Mount/Examples/Disks.antt =====
-- The theorems on mounting at disks that hold a file system.
use ecs150fs.Fs.Mount.Persisting.{length-store_words, root_written}
use ecs150fs.Disk.Blocks.{Backed, block_at}
use ecs150fs.Base.{
  inl, ◌++◌, ℕ, zero, suc, ◌*◌, ap, sym, ◌∙◌, List, arith, ◌≡◌, refl, some, [], ◌∷◌,
}
use ecs150fs.Base.Int.{pos, minus_one, double, ◌-ℤ◌}
use ecs150fs.Base.Lists.{All, drop, replicate, take, length, length-replicate, replicate}
use ecs150fs.Disk.{block_size, Disk, block_disk_count, block_disk_open, block_read, block_write}
use ecs150fs.Disk.Posix.{bytes_from}
use ecs150fs.Disk.Examples.{World, host_laws, host_laws-Whole, World, host}
use ecs150fs.Fs.State.{SuperBlock, FsSystem, State, live, returns, state}
use ecs150fs.Fs.Samples.{super_block, free_entry, closed_fd}
use ecs150fs.Fs.Layout.{store_words, store_superblock}
use ecs150fs.Fs.Check.{sys_error_check}
use ecs150fs.Fs.Mount.{read_fat, entries, fs_mount, fs_unmount}
use ecs150fs.Disk.Posix.{splice}
use ecs150fs.Disk.Posix.Splice.{bytes_from-splice_self, bytes_from-splice_apart}
use ecs150fs.Fs.Layout.Entries.{FitsEntry}
use ecs150fs.Fs.Mount.Loading.{Serves}
use ecs150fs.Fs.Mount.Overlapping.{HasFat, overlapped, read_fat-overlapped}
use ecs150fs.Fs.Mount.Remounting.{Complete, Usable, fs_mount-fs_unmount}
use ecs150fs.Fs.Mount.Examples.{zero_fat, four_blocks}

-- The super block of a disk of 2048 blocks, with its padding, and the disk with just this block.
abbrev padded : SuperBlock
padded = record super_block { padding = replicate 4079 0 }

abbrev large : Disk
large = record { fd = pos 3; bcount = 2048 }

abbrev formatted : World
formatted = record {
  image = splice (λ a. 0) 0 (store_superblock padded);
  offset = 0;
  size = 2048 * 4096;
}

length-padded : length (store_superblock padded) ≡ block_size
unfolding store_superblock
length-padded = omega (arith, length-replicate {A = ℕ} 4079 0)

formatted-intact : block_at host_laws large formatted 0 ≡ store_superblock padded
unfolding block_at
formatted-intact =
    ap (bytes_from formatted.image 0) (sym length-padded)
    ∙ bytes_from-splice_self (λ a. 0) 0 (store_superblock padded)

large-Serves : Serves host large
unfolding block_read block_write
large-Serves = record {
  reads = λ b buf w below. ground arith;
  writes = λ b buf w below. ground arith;
}

abbrev large_system : FsSystem
large_system = record {
  sp = padded;
  root_dir = replicate 128 free_entry;
  fat_blocks = some zero_fat;
}

abbrev large_state : State
large_state = state (live large_system) (closed_fd ∷ []) 0

free_entries-FitsEntry : (n : ℕ) → All FitsEntry (replicate n free_entry)
free_entries-FitsEntry zero = tt
free_entries-FitsEntry (suc n) = (omega arith, free_entries-FitsEntry n)

large-Complete : Complete large_system zero_fat
large-Complete = record {
  has_fat = refl;
  fat_size = length-replicate {A = ℕ} entries 0;
  files = refl;
  entries_fit = free_entries-FitsEntry 128;
  super_block_fits = omega arith;
  one_block = refl;
  root_behind = refl;
}

abbrev end_of_large : World
end_of_large = root_written host_laws large formatted large_state large_system zero_fat

formatted-Usable : Usable host_laws large formatted
formatted-Usable = record {
  unshort = host_laws-Whole;
  backed = omega arith;
  serves = large-Serves;
  room = omega arith;
}

end_of_large-Usable : Usable host_laws large end_of_large
unfolding block_write
end_of_large-Usable = record {
  unshort = host_laws-Whole;
  backed = omega arith;
  serves = large-Serves;
  room = omega arith;
}

opens_large :
    block_disk_open host (some super_block.signature) (record large { fd = minus_one }) end_of_large
    ≡ (pos 0, large, end_of_large)
unfolding block_disk_open block_write
opens_large = refl

accepts_large : sys_error_check 8 super_block.signature large padded ≡ returns (pos 0)
unfolding sys_error_check block_disk_count double ◌-ℤ◌
accepts_large = refl

fs_mount-fs_unmount_example :
    (s1 : State) × (d1 : Disk) × (w1 : World) × (fs' : FsSystem) × (w2 : World) × (fs_unmount host
        large_state large formatted
      ≡ returns (pos 0, s1, d1, w1))
    × (fs_mount host super_block.signature large_system s1 d1 w1
        ≡ returns (pos 0, record large_state { file_system = live fs' }, large, w2))
    × (fs'.sp ≡ padded)
    × (fs'.fat_blocks ≡ some zero_fat)
    × (take 113 fs'.root_dir ≡ take 113 (replicate 128 free_entry))
fs_mount-fs_unmount_example =
    fs_mount-fs_unmount host_laws large large formatted end_of_large large_state large_system
      large_system zero_fat super_block.signature refl large-Complete formatted-Usable
      formatted-intact opens_large end_of_large-Usable (λ c. refl) (omega arith) (omega arith)
      length-padded accepts_large

-- A disk with two blocks of FAT, one of fives and one of sixes.
abbrev fives : List ℕ
fives = replicate entries 5

abbrev sixes : List ℕ
sixes = replicate entries 6

length-block : (v : ℕ) → length (store_words (replicate entries v)) ≡ block_size
length-block v =
    length-store_words (replicate entries v) ∙ omega (arith, length-replicate {A = ℕ} entries v)

abbrev two_fat_blocks : World
two_fat_blocks = record {
  image = splice (splice (λ a. 0) 4096 (store_words fives)) 8192 (store_words sixes);
  offset = 0;
  size = 16384;
}

four_blocks-Serves : Serves host four_blocks
unfolding block_read block_write
four_blocks-Serves = record {
  reads = λ b buf w below. ground arith;
  writes = λ b buf w below. ground arith;
}

two_fat_blocks-HasFat : HasFat host_laws four_blocks two_fat_blocks 0 (fives ∷ sixes ∷ [])
unfolding block_at
two_fat_blocks-HasFat = (
  bytes_from-splice_apart (splice (λ a. 0) 4096 (store_words fives)) 8192 (store_words sixes) 4096
        block_size (inl (omega arith))
      ∙ ap (bytes_from (splice (λ a. 0) 4096 (store_words fives)) 4096) (sym (length-block 5))
      ∙ bytes_from-splice_self (λ a. 0) 4096 (store_words fives),
  (
    ap (bytes_from two_fat_blocks.image 8192) (sym (length-block 6))
        ∙ bytes_from-splice_self (splice (λ a. 0) 4096 (store_words fives)) 8192
            (store_words sixes),
    tt,
  ),
)

two_fat_blocks-Backed : Backed host_laws four_blocks two_fat_blocks
two_fat_blocks-Backed = omega arith

fives_and_sixes : All (λ g. length g ≡ entries) (fives ∷ sixes ∷ [])
fives_and_sixes = (length-replicate {A = ℕ} entries 5, (length-replicate {A = ℕ} entries 6, tt))

read_fat-overlapped_example :
    (w' : World) × (read_fat host 2 0 four_blocks (replicate 4096 0) two_fat_blocks
      ≡ returns (overlapped fives (sixes ∷ []) ++ drop 2049 (replicate 4096 0), w'))
read_fat-overlapped_example =
    read_fat-overlapped host_laws four_blocks four_blocks-Serves fives (sixes ∷ [])
      (replicate 4096 0) two_fat_blocks host_laws-Whole two_fat_blocks-Backed two_fat_blocks-HasFat
      fives_and_sixes (omega arith) (omega (arith, length-replicate {A = ℕ} 4096 0))
