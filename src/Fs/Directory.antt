-- ===== src/Fs/Directory.antt =====
-- isValidName, fs_create, fs_delete and fs_ls of libfs/fs.c. The loops over the root directory are
-- recursions on the list of its entries.
pub mod Naming
pub mod Creation
pub mod Making
pub mod Deletion
pub mod Chain
pub mod Owning
pub mod Freeing
pub mod Examples
use ecs150fs.Base.{
  ℕ, zero, suc, ◌+◌, ◌-◌, ◌/◌, ◌^◌, Bool, true, false, not, ◌&&◌, ◌||◌, Option, none, some, List,
  [], ◌∷◌, map, ltb, ◌==◌, if◌then◌else◌,
}
use ecs150fs.Base.Int.{ℤ, pos, negsuc, minus_one, div_const, signed, pattern_of}
use ecs150fs.Base.Lists.{get_elem?, set}
use ecs150fs.Base.Bytes.{Bytes, c_str, strlen, same_string, strcpy}
use ecs150fs.Disk.{block_size}
use ecs150fs.Fs.State.{
  RootEntry, FsSystem, State, Pointer, live, Outcome, returns, undefined, ◌>>=◌, deref, is_null,
  fs_filename_len,
}

-- A name of good length reaches the end of the function with no `return` unless its last
-- character is the terminator; `unspecified` is what the caller then finds.
unfoldable pub is_valid_name : (unspecified : Bool) → Bytes → Bool
is_valid_name unspecified filename =
    let file_len = strlen filename in
    if ltb 0 file_len && ltb file_len fs_filename_len
    then elim (get_elem? filename (file_len - 1)) [
      | none ↦ unspecified
      | some c ↦ if c == 0 then true else unspecified
    ]
    else false

-- The search for an entry with the name.
unfoldable pub name_taken : Bytes → List RootEntry → Bool
name_taken filename [] = false
name_taken filename (e ∷ es) = same_string e.filename filename || name_taken filename es

abbrev pub empty : RootEntry → Bool
empty e = not (e.is_empty == 0)

abbrev pub new_entry : Bytes → RootEntry → RootEntry
new_entry filename e = record e {
  filename = strcpy e.filename filename;
  file_size = pos 0;
  file_first_index = minus_one;
  is_empty = 0;
}

-- The search for free entries, with the flag `foundFreeEntry`: the loop does not stop at the first.
unfoldable pub fill_free : Bytes → List RootEntry → Bool × List RootEntry
fill_free filename [] = (false, [])
fill_free filename (e ∷ es) =
    let (found, es') = fill_free filename es in
    if empty e then (true, new_entry filename e ∷ es') else (found, e ∷ es')

unfoldable pub fs_create : (unspecified : Bool) → Bytes → State → Outcome (ℤ × State)
fs_create unspecified filename s =
    if is_null s.file_system
    then returns (minus_one, s)
    else if not (is_valid_name unspecified filename)
    then returns (minus_one, s)
    else deref s.file_system >>= λ fs.
        if name_taken filename fs.root_dir
        then returns (minus_one, s)
        else let (found, entries) = fill_free filename fs.root_dir in
          let s' = record s { file_system = live (record fs { root_dir = entries }) } in
          if found then returns (pos 0, s') else returns (minus_one, s')

abbrev pub reset_entry : RootEntry → RootEntry
reset_entry e = record e { file_size = pos 0; file_first_index = minus_one; is_empty = 1 }

-- The entries with the name are reset; `delete_file` is what the last of them held.
unfoldable pub reset_named : Bytes → List RootEntry → Option RootEntry × List RootEntry
reset_named filename [] = (none, [])
reset_named filename (e ∷ es) =
    let (later, es') = reset_named filename es in
    if same_string filename e.filename
    then (elim later [ none ↦ some e | some l ↦ some l ], reset_entry e ∷ es')
    else (later, e ∷ es')

-- The loop over the blocks of the file, `rounds` being those left. An index outside the array is
-- undefined, the end mark FAT_EOC too.
pub free_chain : (rounds : ℕ) → (current_index : ℤ) → List ℕ → Outcome (List ℕ)
free_chain zero current_index fat = returns fat
free_chain (suc rounds) (negsuc _) fat = undefined
free_chain (suc rounds) (pos i) fat = elim (get_elem? fat i) [
  | none ↦ undefined
  | some next_index ↦ free_chain rounds (signed (2 ^ 16) next_index) (set fat i 0)
]

-- `file_blck_size`, an `unsigned`.
abbrev pub blocks_of : RootEntry → ℕ
blocks_of e = pattern_of (2 ^ 32) (div_const e.file_size block_size)

-- The walk over the FAT; with no block to visit the array is not touched.
pub free_blocks : RootEntry → Option (List ℕ) → Outcome (Option (List ℕ))
unfolding free_chain
free_blocks e none = if blocks_of e == 0 then returns none else undefined
free_blocks e (some fat) =
    free_chain (blocks_of e) e.file_first_index fat >>= λ fat'. returns (some fat')

-- Part 3 of `fs_delete`. The variable `delete_file` is unset if no entry had the name.
pub release : Option RootEntry → List RootEntry → FsSystem → State → Outcome (ℤ × State)
release none entries fs s = undefined
release (some delete_file) entries fs s = free_blocks delete_file fs.fat_blocks >>= λ fat.
    returns
      (pos 0, record s { file_system = live (record fs { root_dir = entries; fat_blocks = fat }) })

unfoldable pub fs_delete : Bytes → State → Outcome (ℤ × State)
unfolding release
fs_delete filename s = deref s.file_system >>= λ fs.
    let (deleted, entries) = reset_named filename fs.root_dir in release deleted entries fs s

-- What the loop prints of each entry that has a name: its index and the name.
pub listing : ℕ → List RootEntry → List (ℕ × Bytes)
listing i [] = []
listing i (e ∷ es) =
    let rest = listing (i + 1) es in
    if not (strlen e.filename == 0) then (i, c_str e.filename) ∷ rest else rest

unfoldable pub fs_ls : State → Outcome (ℤ × List (ℕ × Bytes))
fs_ls s = deref s.file_system >>= λ fs. returns (pos 0, listing 0 fs.root_dir)
