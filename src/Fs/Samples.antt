-- ===== src/Fs/Samples.antt =====
-- Small states of libfs/fs.c for the tests: names "a" and "b", and directories of one or two
-- entries, where the program's has 128.
use ecs150fs.Base.{ℕ, List, [], ◌∷◌, some, false, true}
use ecs150fs.Base.Int.{pos, minus_one}
use ecs150fs.Base.Lists.{replicate}
use ecs150fs.Base.Bytes.{Bytes}
use ecs150fs.Fs.State.{SuperBlock, RootEntry, FdTableEntry, FsSystem, State, live, state}

abbrev pub name_a : Bytes
name_a = 97 ∷ []

abbrev pub name_b : Bytes
name_b = 98 ∷ []

abbrev pub array_of : Bytes → Bytes
array_of (c ∷ []) = c ∷ replicate 15 0
array_of _ = replicate 16 0

-- The super block of a disk of 2048 blocks that is named "ECS150FS".
abbrev pub super_block : SuperBlock
super_block = record {
  signature = 69 ∷ 67 ∷ 83 ∷ 49 ∷ 53 ∷ 48 ∷ 70 ∷ 83 ∷ [];
  dsk_blck_amount = pos 2048;
  root_dir_index = pos 2;
  data_blck_index = pos 3;
  data_blck_amount = pos 2045;
  fat_blck_amount = pos 1;
  padding = [];
}

abbrev pub file_entry : Bytes → ℕ → ℕ → RootEntry
file_entry name size first = record {
  filename = array_of name;
  file_size = pos size;
  file_first_index = pos first;
  padding = replicate 10 0;
  is_empty = 0;
  unused = replicate 3 0;
}

abbrev pub free_entry : RootEntry
free_entry = record {
  filename = array_of [];
  file_size = pos 0;
  file_first_index = minus_one;
  padding = replicate 10 0;
  is_empty = 1;
  unused = replicate 3 0;
}

-- A FAT in which the chain 1, 3 ends at the end mark, and entry 0 is taken.
abbrev pub small_fat : List ℕ
small_fat = 65535 ∷ 3 ∷ 0 ∷ 65535 ∷ []

abbrev pub closed_fd : FdTableEntry
closed_fd = record { filename = array_of []; offset = 0; used = false }

abbrev pub open_fd : Bytes → FdTableEntry
open_fd name = record { filename = array_of name; offset = 0; used = true }

abbrev pub with_entries : List RootEntry → FsSystem
with_entries entries = record { sp = super_block; root_dir = entries; fat_blocks = some small_fat }

-- Two descriptors, none of them open.
abbrev pub fresh : List RootEntry → State
fresh entries = state (live (with_entries entries)) (closed_fd ∷ closed_fd ∷ []) 0
