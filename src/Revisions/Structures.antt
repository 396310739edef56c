-- ===== src/Revisions/Structures.antt =====
-- What libfs/fs2.0.c and libfs/fs3.0.c share: their structures, which differ in names only, and the
-- parts of fs_mount and fs_unmount that have the same text. The names are those of libfs/fs3.0.c;
-- dsk_block_length, data_blck_length, fat_length and rootEntries in libfs/fs2.0.c.
use ecs150fs.Base.{
  ℕ, Bool, true, false, zero, suc, ◌+◌, ◌*◌, ◌%◌, ◌^◌, Option, none, some, List, [], ◌∷◌, ◌++◌,
  ◌==◌, not, if◌then◌else◌,
}
use ecs150fs.Base.Int.{ℤ, pos, pos_part, signed, pattern_of}
use ecs150fs.Base.Lists.{take, drop}
use ecs150fs.Base.Bytes.{Bytes, c_str, strlen}
use ecs150fs.Disk.{Disk, block_size, block_read}
use ecs150fs.Disk.Posix.{Host}
use ecs150fs.Fs.State.{
  SuperBlock, Pointer, null, freed, live, Outcome, returns, undefined, ◌>>=◌, fs_file_max_count,
}
use ecs150fs.Fs.Layout.{word16, bytes16, word32, bytes32, byte_at, store_superblock}
use ecs150fs.Fs.Mount.{read_fat}

-- No flag tells whether an entry is empty.
pub record RootEntry : Type 0 where
  pub filename : Bytes
  pub file_size : ℤ
  pub file_first_index : ℤ
  pub padding : Bytes

-- `fat_blocks` is nothing while the pointer is not yet set; its array has 16-bit entries.
pub record FsSystem : Type 0 where
  pub sp : SuperBlock
  pub root_dir : List RootEntry
  pub fat_blocks : Option (Pointer (List ℕ))

-- The one global variable is `file_system`.
abbrev pub State : Type 0
State = Pointer FsSystem

abbrev pub follow : {A : Type 0} → Pointer A → Outcome A
follow (live a) = returns a
follow _ = undefined

abbrev pub is_null_state : State → Bool
is_null_state null = true
is_null_state _ = false

-- The signature has FS_FILENAME_LEN bytes, 16, where the format has 8: the structure is 8 bytes longer
-- than a block, and every number is read 8 bytes too far. `store_superblock` writes the members in
-- order, whatever the length of the signature.
unfoldable pub load_superblock : Bytes → SuperBlock
load_superblock bytes = record {
  signature = take 16 bytes;
  dsk_blck_amount = signed (2 ^ 16) (word16 (drop 16 bytes));
  root_dir_index = signed (2 ^ 16) (word16 (drop 18 bytes));
  data_blck_index = signed (2 ^ 16) (word16 (drop 20 bytes));
  data_blck_amount = signed (2 ^ 16) (word16 (drop 22 bytes));
  fat_blck_amount = signed 256 (byte_at (drop 24 bytes));
  padding = drop 25 bytes;
}

-- `struct root_entry`: 16 + 4 + 2 + 10 bytes.
unfoldable pub store_entry : RootEntry → Bytes → Bytes
store_entry e rest =
    e.filename
    ++ bytes32 (pattern_of (2 ^ 32) e.file_size)
        (bytes16 (pattern_of (2 ^ 16) e.file_first_index) (e.padding ++ rest))

unfoldable pub load_entry : Bytes → RootEntry
load_entry bytes = record {
  filename = take 16 bytes;
  file_size = signed (2 ^ 32) (word32 (drop 16 bytes));
  file_first_index = signed (2 ^ 16) (word16 (drop 20 bytes));
  padding = take 10 (drop 22 bytes);
}

unfoldable pub store_entries : List RootEntry → Bytes
unfolding store_entry
store_entries [] = []
store_entries (e ∷ es) = store_entry e (store_entries es)

unfoldable pub load_entries : ℕ → Bytes → List RootEntry
unfolding load_entry
load_entries zero bytes = []
load_entries (suc n) bytes = load_entry bytes ∷ load_entries n (drop 32 bytes)

-- The bytes that `malloc` is asked for: the amount, a signed byte, times the size of a pointer.
abbrev pub fat_bytes : SuperBlock → ℕ
fat_bytes sp = (pattern_of (2 ^ 64) sp.fat_blck_amount * 8) % 2 ^ 64

-- `free(file_system->fat_blocks)`.
abbrev pub free_fat : Option (Pointer (List ℕ)) → Outcome (Pointer (List ℕ))
free_fat none = undefined
free_fat (some null) = returns null
free_fat (some freed) = undefined
free_fat (some (live _)) = returns freed

-- What the loop of `fs_ls` prints of each entry that has a name: its index and the name.
unfoldable pub listing : ℕ → List RootEntry → List (ℕ × Bytes)
listing i [] = []
listing i (e ∷ es) =
    let rest = listing (i + 1) es in
    if not (strlen e.filename == 0) then (i, c_str e.filename) ∷ rest else rest

module _ {W : Type 0} (os : Host W) where
  -- The loop of `fs_mount` over the FAT. A null pointer is the address of an array without entries.
  unfoldable pub read_fat_to : Pointer (List ℕ) → ℕ → Disk → W → Outcome (Pointer (List ℕ) × W)
  read_fat_to null rounds d w = read_fat os rounds 0 d [] w >>= λ (_, w1). returns (null, w1)
  read_fat_to freed rounds d w = undefined
  read_fat_to (live fat) rounds d w =
      read_fat os rounds 0 d fat w >>= λ (fat', w1). returns (live fat', w1)

  -- The super block is read into the first block of its structure.
  unfoldable pub read_super : FsSystem → Disk → W → SuperBlock × W
  read_super memory d w =
      let old = store_superblock memory.sp in
      let (_, bytes, w1) = block_read os d 0 (take block_size old) w in
      (load_superblock (bytes ++ drop block_size old), w1)

  -- `fs_mount` behind its check. `malloc` gives the array of 16-bit entries, or a null pointer.
  unfoldable pub mount_tables :
      (malloc : ℕ → Pointer (List ℕ)) → FsSystem → Disk → W → Outcome (ℤ × State × Disk × W)
  unfolding read_fat_to
  mount_tables malloc fs d w =
      read_fat_to (malloc (fat_bytes fs.sp)) (pos_part fs.sp.fat_blck_amount) d w >>= λ (fat, w1).
      let (_, bytes, w2) =
        block_read os d (pattern_of (2 ^ 64) fs.sp.root_dir_index) (store_entries fs.root_dir) w1 in
      let mounted : FsSystem = record {
        sp = fs.sp;
        root_dir = load_entries fs_file_max_count bytes;
        fat_blocks = some fat;
      } in
      returns (pos 0, live mounted, d, w2)
