-- ===== src/Fs/Layout/Entries.antt =====
-- The entries of the root directory of libfs/fs.c read back from the bytes that they occupy.
use ecs150fs.Base.{ℕ, ◌+◌, ◌^◌, ◌≡◌, refl, ap, ◌∙◌, List, [], ◌∷◌, ◌++◌, arith}
use mathlib.Core.Path.{ap₂}
use ecs150fs.Base.Int.{ℤ, pos, negsuc, signed, pattern_of}
use ecs150fs.Base.Lists.{length, take, drop, All}
use ecs150fs.Base.Bytes.{Bytes}
use ecs150fs.Fs.State.{RootEntry}
use ecs150fs.Fs.Layout.{
  bytes16, bytes32, word16, word32, byte_at, store_entry, load_entry, store_entries, load_entries,
  root_entry_size,
}
use ecs150fs.Fs.Layout.RoundTrip.{
  InRange, drop-append, take-append, signed-pattern16, word16-bytes16,
}

-- The values that the members of an entry can have.
pub record FitsEntry (e : RootEntry) : Type 0 where
  pub filename : length e.filename ≡ 16
  pub file_size : InRange (2 ^ 31) e.file_size
  pub file_first_index : InRange (2 ^ 15) e.file_first_index
  pub padding : length e.padding ≡ 10
  pub unused : length e.unused ≡ 3

signed-pattern32 : (z : ℤ) → InRange (2 ^ 31) z → signed (2 ^ 32) (pattern_of (2 ^ 32) z) ≡ z
signed-pattern32 (pos n) h = ground arith
signed-pattern32 (negsuc n) h = ground arith

word32-bytes32 : (u : ℕ) (rest : Bytes) → word32 (bytes32 u rest) ≡ u
word32-bytes32 u rest = omega arith

module _ (e : RootEntry) (rest : Bytes) (fits : FitsEntry e) where
  -- The bytes behind the name, and those behind the numbers.
  abbrev tail : Bytes
  tail = e.padding ++ e.is_empty ∷ (e.unused ++ rest)

  abbrev numbers : Bytes
  numbers =
      bytes32 (pattern_of (2 ^ 32) e.file_size)
        (bytes16 (pattern_of (2 ^ 16) e.file_first_index) tail)

  behind_name : (k : ℕ) → drop (16 + k) (store_entry e rest) ≡ drop k numbers
  unfolding store_entry
  behind_name k = drop-append 16 k e.filename numbers fits.filename

  pub load_entry-store_entry : load_entry (store_entry e rest) ≡ e
  unfolding load_entry store_entry
  load_entry-store_entry =
      let size : signed (2 ^ 32) (word32 (drop 16 (store_entry e rest))) ≡ e.file_size =
        rw (behind_name 0, word32-bytes32 (pattern_of (2 ^ 32) e.file_size) [])
          (signed-pattern32 e.file_size fits.file_size) in
      let first : signed (2 ^ 16) (word16 (drop 20 (store_entry e rest))) ≡ e.file_first_index =
        rw (behind_name 4, word16-bytes16 (pattern_of (2 ^ 16) e.file_first_index) [])
          (signed-pattern16 e.file_first_index fits.file_first_index) in
      let pad : take 10 (drop 22 (store_entry e rest)) ≡ e.padding =
        rw (behind_name 6) (take-append 10 e.padding _ fits.padding) in
      let flag : byte_at (drop 32 (store_entry e rest)) ≡ e.is_empty =
        rw (behind_name 16) (ap byte_at (drop-append 10 0 e.padding _ fits.padding)) in
      let align : take 3 (drop 33 (store_entry e rest)) ≡ e.unused =
        rw
          (
            behind_name 17,
            drop-append 10 1 e.padding (e.is_empty ∷ (e.unused ++ rest)) fits.padding,
          )
          (take-append 3 e.unused rest fits.unused) in
      λ i. record {
        filename = take-append 16 e.filename numbers fits.filename i;
        file_size = size i;
        file_first_index = first i;
        padding = pad i;
        is_empty = flag i;
        unused = align i;
      }

  pub drop-store_entry : drop root_entry_size (store_entry e rest) ≡ rest
  drop-store_entry =
      behind_name 20
      ∙ drop-append 10 4 e.padding (e.is_empty ∷ (e.unused ++ rest)) fits.padding
      ∙ drop-append 3 0 e.unused rest fits.unused

-- Root entries with names of 16 bytes, 10 bytes of padding, 3 of alignment and numbers in the
-- ranges of their types are what is read back from the bytes that their array occupies.
pub load_entries-store_entries :
    (es : List RootEntry) → All FitsEntry es → load_entries (length es) (store_entries es) ≡ es
unfolding load_entries store_entries
load_entries-store_entries [] fits = refl
load_entries-store_entries (e ∷ es) (fit, fits) =
    ap₂ ◌∷◌ (load_entry-store_entry e (store_entries es) fit) (
      ap (load_entries (length es)) (drop-store_entry e (store_entries es) fit)
      ∙ load_entries-store_entries es fits)
