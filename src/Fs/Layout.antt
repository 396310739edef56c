-- ===== src/Fs/Layout.antt =====
-- The memory of the structures of libfs/fs.c, which it reads from and writes to whole blocks:
-- little-endian words, members at their offsets, and the array elements one after the other.
pub mod RoundTrip
pub mod Entries
pub mod Cutting
use ecs150fs.Base.{ℕ, zero, suc, ◌+◌, ◌*◌, ◌/◌, ◌%◌, ◌^◌, List, [], ◌∷◌, ◌++◌}
use ecs150fs.Base.Int.{ℤ, signed, pattern_of}
use ecs150fs.Base.Lists.{take, drop}
use ecs150fs.Base.Bytes.{Bytes}
use ecs150fs.Fs.State.{SuperBlock, RootEntry}

-- The two bytes of a 16-bit pattern, and the pattern at the front of some bytes.
abbrev pub bytes16 : ℕ → Bytes → Bytes
bytes16 u rest = u % 256 ∷ u / 256 ∷ rest

abbrev pub word16 : Bytes → ℕ
word16 [] = 0
word16 (a ∷ []) = a
word16 (a ∷ b ∷ rest) = a + 256 * b

abbrev pub bytes32 : ℕ → Bytes → Bytes
bytes32 u rest = bytes16 (u % 2 ^ 16) (bytes16 (u / 2 ^ 16) rest)

abbrev pub word32 : Bytes → ℕ
word32 bytes = word16 bytes + 2 ^ 16 * word16 (drop 2 bytes)

abbrev pub byte_at : Bytes → ℕ
byte_at [] = 0
byte_at (a ∷ rest) = a

-- `struct superBlock`: 8 + 2 + 2 + 2 + 2 + 1 + 4079 bytes.
abbrev pub store_numbers : SuperBlock → Bytes
store_numbers sp = bytes16 (pattern_of (2 ^ 16) sp.dsk_blck_amount) (
    bytes16 (pattern_of (2 ^ 16) sp.root_dir_index) (
      bytes16 (pattern_of (2 ^ 16) sp.data_blck_index) (
        bytes16 (pattern_of (2 ^ 16) sp.data_blck_amount)
          (pattern_of 256 sp.fat_blck_amount ∷ sp.padding))))

unfoldable pub store_superblock : SuperBlock → Bytes
store_superblock sp = sp.signature ++ store_numbers sp

unfoldable pub load_superblock : Bytes → SuperBlock
load_superblock bytes = record {
  signature = take 8 bytes;
  dsk_blck_amount = signed (2 ^ 16) (word16 (drop 8 bytes));
  root_dir_index = signed (2 ^ 16) (word16 (drop 10 bytes));
  data_blck_index = signed (2 ^ 16) (word16 (drop 12 bytes));
  data_blck_amount = signed (2 ^ 16) (word16 (drop 14 bytes));
  fat_blck_amount = signed 256 (byte_at (drop 16 bytes));
  padding = drop 17 bytes;
}

-- `struct root_entry`: 16 + 4 + 2 + 10 + 1 bytes, and 3 that align the next one.
abbrev pub root_entry_size : ℕ
root_entry_size = 36

unfoldable pub store_entry : RootEntry → Bytes → Bytes
store_entry e rest =
    e.filename
    ++ bytes32 (pattern_of (2 ^ 32) e.file_size) (
        bytes16 (pattern_of (2 ^ 16) e.file_first_index)
          (e.padding ++ (e.is_empty ∷ (e.unused ++ rest))))

unfoldable pub load_entry : Bytes → RootEntry
load_entry bytes = record {
  filename = take 16 bytes;
  file_size = signed (2 ^ 32) (word32 (drop 16 bytes));
  file_first_index = signed (2 ^ 16) (word16 (drop 20 bytes));
  padding = take 10 (drop 22 bytes);
  is_empty = byte_at (drop 32 bytes);
  unused = take 3 (drop 33 bytes);
}

unfoldable pub store_entries : List RootEntry → Bytes
unfolding store_entry
store_entries [] = []
store_entries (e ∷ es) = store_entry e (store_entries es)

unfoldable pub load_entries : ℕ → Bytes → List RootEntry
unfolding load_entry
load_entries zero bytes = []
load_entries (suc n) bytes = load_entry bytes ∷ load_entries n (drop root_entry_size bytes)

-- An array of `uint16_t`.
unfoldable pub store_words : List ℕ → Bytes
store_words [] = []
store_words (u ∷ us) = bytes16 u (store_words us)

unfoldable pub load_words : Bytes → List ℕ
load_words [] = []
load_words (a ∷ []) = a ∷ []
load_words (a ∷ b ∷ rest) = (a + 256 * b) ∷ load_words rest
