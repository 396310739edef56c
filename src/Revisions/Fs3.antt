-- ===== src/Revisions/Fs3.antt =====
-- libfs/fs3.0.c. `malloc` of the structure is taken to succeed, and `memory` is what it then holds.
pub mod Creation
pub mod Unmounting
use ecs150fs.Base.{
  ℕ, ◌-◌, ◌^◌, Bool, true, false, not, ◌||◌, Option, none, some, List, [], ◌∷◌, ltb, ◌==◌,
  if◌then◌else◌,
}
use ecs150fs.Base.Int.{
  ℤ, pos, minus_one, pos_part, pattern_of, div_const, double, ◌+ℤ◌, ◌-ℤ◌, ◌==ℤ◌,
}
use ecs150fs.Base.Bytes.{Bytes, strlen, same_string}
use ecs150fs.Disk.{
  Disk, block_size, block_disk_open, block_disk_close, block_disk_count, block_write,
}
use ecs150fs.Disk.Posix.{Host}
use ecs150fs.Fs.State.{SuperBlock, Pointer, null, freed, live, Outcome, returns, undefined, ◌>>=◌}
use ecs150fs.Fs.Check.{signature_matches}
use ecs150fs.Fs.Mount.{write_fat, disk_name_max}
use ecs150fs.Fs.Directory.{is_valid_name}
use ecs150fs.Revisions.Creating.{create_entry}
use ecs150fs.Revisions.Structures.{
  RootEntry, FsSystem, State, follow, is_null_state, store_entries, free_fat, listing, read_super,
  mount_tables,
}

-- The comparisons behind the loop over the signature.
unfoldable pub numbers_match : Disk → SuperBlock → Bool
numbers_match d sp =
    let disk_blocks = block_disk_count d in
    let disk_fat_count = div_const (double disk_blocks) block_size in
    let disk_data_blcks = disk_blocks -ℤ (pos 2 +ℤ disk_fat_count) in
    if not (disk_blocks ==ℤ sp.dsk_blck_amount)
    then false
    else if not (disk_fat_count ==ℤ sp.fat_blck_amount)
    then false
    else if not (disk_data_blcks ==ℤ sp.data_blck_amount)
    then false
    else if not (disk_fat_count +ℤ pos 1 ==ℤ sp.root_dir_index)
    then false
    else if not (disk_fat_count +ℤ pos 2 ==ℤ sp.data_blck_index)
    then false
    else true

unfoldable pub sys_error_check : ℕ → Bytes → Disk → SuperBlock → Outcome ℤ
unfolding numbers_match
sys_error_check file_size diskname d sp =
    signature_matches file_size sp.signature diskname >>= λ same.
    if not same
    then returns minus_one
    else if numbers_match d sp
    then returns (pos 0)
    else returns minus_one

module _ {W : Type 0} (os : Host W) where
  unfoldable pub fs_mount :
      (malloc : ℕ → Pointer (List ℕ))
      → Bytes
      → (memory : FsSystem) → State
      → Disk
      → W
      → Outcome (ℤ × State × Disk × W)
  fs_mount malloc diskname memory s d w =
      let disk_name_len = strlen diskname in
      if ltb disk_name_max disk_name_len || disk_name_len == 0
      then returns (minus_one, s, d, w)
      else let (r, d1, w1) = block_disk_open os (some diskname) d w in
        if not (r ==ℤ pos 0)
        then returns (minus_one, s, d1, w1)
        else let (sp, w2) = read_super os memory d1 w1 in
          let fs = record memory { sp = sp; fat_blocks = none } in
          sys_error_check disk_name_len diskname d1 sp >>= λ error.
          if not (error ==ℤ pos 0)
          then returns (minus_one, live fs, d1, w2)
          else mount_tables os malloc fs d1 w2

  -- The loop over the FAT starts at block 2. Nothing of a null pointer's array can be read.
  unfoldable pub write_fat_of : Option (Pointer (List ℕ)) → (amount : ℕ) → Disk → W → Outcome W
  write_fat_of (some (live fat)) amount d w = write_fat os (amount - 1) 1 d fat w
  write_fat_of (some null) amount d w = write_fat os (amount - 1) 1 d [] w
  write_fat_of _ amount d w = if ltb 1 amount then undefined else returns w

  unfoldable pub fs_unmount : State → Disk → W → Outcome (ℤ × State × Disk × W)
  unfolding write_fat_of
  fs_unmount s d w = follow s >>= λ fs.
      write_fat_of fs.fat_blocks (pos_part fs.sp.fat_blck_amount) d w >>= λ w1.
      let (_, w2) =
        block_write os d (pattern_of (2 ^ 64) fs.sp.root_dir_index) (store_entries fs.root_dir)
          w1 in
      free_fat fs.fat_blocks >>= λ _.
      let (r, d1, w3) = block_disk_close os d w2 in
      if not (r ==ℤ pos 0)
      then returns (minus_one, freed, d1, w3)
      else returns (pos 0, freed, d1, w3)

-- With a file system in memory, `printf` is given a number for `%s`.
unfoldable pub fs_info : State → Outcome ℤ
fs_info null = returns minus_one
fs_info _ = undefined

unfoldable pub fs_create : (unspecified : Bool) → Bytes → State → Outcome (ℤ × State)
fs_create unspecified filename s =
    if is_null_state s
    then returns (minus_one, s)
    else if not (is_valid_name unspecified filename)
    then returns (minus_one, s)
    else follow s >>= λ fs. create_entry filename fs

abbrev pub reset_entry : RootEntry → RootEntry
reset_entry e = record e { file_size = pos 0; file_first_index = minus_one }

-- The entries with the name are reset; `delete_file` is what the last of them held.
unfoldable pub reset_named : Bytes → List RootEntry → Option RootEntry × List RootEntry
reset_named filename [] = (none, [])
reset_named filename (e ∷ es) =
    let (later, es') = reset_named filename es in
    if same_string filename e.filename
    then (elim later [ none ↦ some e | some l ↦ some l ], reset_entry e ∷ es')
    else (later, e ∷ es')

-- The loop over the blocks of the file reads `next_index`, which is never set, in its first round.
-- `delete_file` is unset if no entry had the name.
unfoldable pub follow_chain : Option RootEntry → Outcome ℤ
follow_chain none = undefined
follow_chain (some delete_file) =
    if pattern_of (2 ^ 32) (div_const delete_file.file_size block_size) == 0
    then returns (pos 0)
    else undefined

unfoldable pub fs_delete : Bytes → State → Outcome (ℤ × State)
unfolding reset_named follow_chain
fs_delete filename s = follow s >>= λ fs.
    let (delete_file, entries) = reset_named filename fs.root_dir in
    follow_chain delete_file >>= λ r. returns (r, live (record fs { root_dir = entries }))

unfoldable pub fs_ls : State → Outcome (ℤ × List (ℕ × Bytes))
fs_ls s = follow s >>= λ fs. returns (pos 0, listing 0 fs.root_dir)

-- `fs_open`, `fs_stat`, `fs_lseek`, `fs_write` and `fs_read`: not implemented by the program.
unfoldable pub fs_open : Bytes → State → Outcome (ℤ × State)
fs_open filename s = returns (pos 0, s)

unfoldable pub fs_stat : ℤ → State → Outcome (ℤ × State)
fs_stat fd s = returns (pos 0, s)

unfoldable pub fs_lseek : ℤ → ℕ → State → Outcome (ℤ × State)
fs_lseek fd offset s = returns (pos 0, s)

unfoldable pub fs_write : ℤ → Bytes → ℕ → State → Outcome (ℤ × State)
fs_write fd buf count s = returns (pos 0, s)

unfoldable pub fs_read : ℤ → Bytes → ℕ → State → Outcome (ℤ × State)
fs_read fd buf count s = returns (pos 0, s)

-- Whatever the descriptor, the file system is given back.
unfoldable pub fs_close : ℤ → State → Outcome (ℤ × State)
fs_close fd null = returns (pos 0, null)
fs_close fd freed = undefined
fs_close fd (live fs) = returns (pos 0, freed)
