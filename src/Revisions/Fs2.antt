-- ===== src/Revisions/Fs2.antt =====
-- libfs/fs2.0.c, an earlier revision than libfs/fs3.0.c. `malloc` of the structure is taken to
-- succeed, and `memory` is what it then holds.
pub mod Refusing
pub mod Unmounting
use ecs150fs.Base.{
  ℕ, ◌+◌, Bool, true, false, not, ◌||◌, Option, none, some, List, [], ◌∷◌, ltb, ◌==◌, if◌then◌else◌,
}
use ecs150fs.Base.Int.{ℤ, pos, minus_one, pos_part, div_const, double, ◌+ℤ◌, ◌-ℤ◌, ◌==ℤ◌}
use ecs150fs.Base.Bytes.{Bytes, c_str, strlen}
use ecs150fs.Disk.{Disk, block_size, block_disk_open, block_disk_count}
use ecs150fs.Disk.Posix.{Host}
use ecs150fs.Fs.State.{
  SuperBlock, Pointer, null, freed, live, Outcome, returns, undefined, ◌>>=◌, fs_filename_len,
}
use ecs150fs.Fs.Check.{signature_matches}
use ecs150fs.Fs.Mount.{write_fat}
use ecs150fs.Revisions.Creating.{create_entry}
use ecs150fs.Revisions.Structures.{
  FsSystem, State, follow, is_null_state, free_fat, listing, read_super, mount_tables,
}

-- The comparisons behind the loop over the signature, with the two numbers that are computed first.
unfoldable pub numbers_match : (blocks fat_count : ℤ) → SuperBlock → Bool
numbers_match blocks fat_count sp =
    if not (blocks ==ℤ sp.dsk_blck_amount)
    then false
    else if not (fat_count ==ℤ sp.fat_blck_amount)
    then false
    else let data_blck_len = blocks -ℤ (pos 2 +ℤ fat_count) in
      if not (data_blck_len ==ℤ sp.data_blck_amount)
      then false
      else if not (fat_count +ℤ pos 1 ==ℤ sp.root_dir_index)
      then false
      else if not (fat_count +ℤ pos 2 ==ℤ sp.data_blck_index)
      then false
      else true

-- In C `blocks * 2` overflows from 2^30 blocks on, where no super block has the number of blocks.
unfoldable pub sys_error_check : ℕ → Bytes → Disk → SuperBlock → Outcome ℤ
unfolding numbers_match
sys_error_check file_size diskname d sp =
    let blocks = block_disk_count d in
    let fat_count = div_const (double blocks) block_size in
    signature_matches file_size sp.signature diskname >>= λ same.
    if not same
    then returns minus_one
    else if numbers_match blocks fat_count sp
    then returns (pos 0)
    else returns minus_one

module _ {W : Type 0} (os : Host W) where
  unfoldable pub fs_mount :
      (malloc : ℕ → Pointer (List ℕ))
      → Bytes
      → (memory : FsSystem) → State
      → Disk
      → W
      → Outcome (ℤ × State × Disk × W)
  fs_mount malloc diskname memory s d w =
      let file_size = strlen diskname in
      if ltb fs_filename_len file_size || file_size == 0
      then returns (minus_one, s, d, w)
      else let (r, d1, w1) = block_disk_open os (some diskname) d w in
        if not (r ==ℤ pos 0)
        then returns (minus_one, s, d1, w1)
        else let (sp, w2) = read_super os memory d1 w1 in
          let fs = record memory { sp = sp; fat_blocks = none } in
          sys_error_check file_size diskname d1 sp >>= λ error.
          if error ==ℤ minus_one
          then returns (minus_one, live fs, d1, w2)
          else mount_tables os malloc fs d1 w2

  -- Nothing of a null pointer's array can be read.
  unfoldable pub write_fat_of : Option (Pointer (List ℕ)) → (rounds : ℕ) → Disk → W → Outcome W
  write_fat_of (some (live fat)) rounds d w = write_fat os rounds 0 d fat w
  write_fat_of (some null) rounds d w = write_fat os rounds 0 d [] w
  write_fat_of _ rounds d w = if rounds == 0 then returns w else undefined

  -- Neither the root directory is written nor the disk closed; the structure stays.
  unfoldable pub fs_unmount : State → Disk → W → Outcome (ℤ × State × Disk × W)
  unfolding write_fat_of
  fs_unmount s d w = follow s >>= λ fs.
      write_fat_of fs.fat_blocks (pos_part fs.sp.fat_blck_amount) d w >>= λ w1.
      free_fat fs.fat_blocks >>= λ fat.
      returns (pos 0, live (record fs { fat_blocks = some fat }), d, w1)

-- What is printed: the signature and the numbers. The signature ends at a terminator, and it is
-- undefined to print one that has none.
pub record Info : Type 0 where
  pub signature : Bytes
  pub dsk_block_length : ℤ
  pub root_dir_index : ℤ
  pub data_blck_index : ℤ
  pub data_blck_length : ℤ
  pub fat_length : ℤ

abbrev pub has_terminator : Bytes → Bool
has_terminator [] = false
has_terminator (c ∷ s) = c == 0 || has_terminator s

unfoldable pub fs_info : State → Outcome (ℤ × Option Info)
fs_info s =
    if is_null_state s
    then returns (minus_one, none)
    else follow s >>= λ fs.
        if not (has_terminator fs.sp.signature)
        then undefined
        else let printed : Info = record {
          signature = c_str fs.sp.signature;
          dsk_block_length = fs.sp.dsk_blck_amount;
          root_dir_index = fs.sp.root_dir_index;
          data_blck_index = fs.sp.data_blck_index;
          data_blck_length = fs.sp.data_blck_amount;
          fat_length = fs.sp.fat_blck_amount;
        } in
          returns (pos 0, some printed)

-- The loop of `isValidName` over the characters: `isNullTerminated` and `count`, from their values so
-- far.
unfoldable pub count_characters : Bytes → Bool × ℕ → Bool × ℕ
count_characters [] (is_null_terminated, count) = (is_null_terminated, count)
count_characters (c ∷ s) (is_null_terminated, count) =
    count_characters s (c == 0 || is_null_terminated, count + 1)

unfoldable pub is_valid_name : Bytes → ℤ
unfolding count_characters
is_valid_name filename =
    let (is_null_terminated, count) = count_characters (c_str filename) (false, 0) in
    if ltb fs_filename_len count || not is_null_terminated then minus_one else pos 0

unfoldable pub fs_create : Bytes → State → Outcome (ℤ × State)
unfolding is_valid_name
fs_create filename s =
    if is_null_state s
    then returns (minus_one, s)
    else if not (is_valid_name filename ==ℤ pos 0)
    then returns (minus_one, s)
    else follow s >>= λ fs. create_entry filename fs

unfoldable pub fs_ls : State → Outcome (ℤ × List (ℕ × Bytes))
fs_ls s = follow s >>= λ fs. returns (pos 0, listing 0 fs.root_dir)

-- `fs_delete`, `fs_open`, `fs_stat`, `fs_lseek`, `fs_write` and `fs_read`: not implemented by the
-- program.
unfoldable pub fs_delete : Bytes → State → Outcome (ℤ × State)
fs_delete filename s = returns (pos 0, s)

unfoldable pub fs_open : Bytes → State → Outcome (ℤ × State)
fs_open filename s = returns (pos 0, s)

unfoldable pub fs_stat : ℤ → State → Outcome (ℤ × State)
fs_stat fd s = returns (pos 0, s)

unfoldable pub fs_lseek : ℤ → ℕ → State → Outcome (ℤ × State)
fs_lseek fd offset s = returns (pos 0, s)

unfoldable pub fs_write : ℤ → Bytes → ℕ → State → Outcome (ℤ × State)
fs_write fd buf count s = returns (pos 0, s)

unfoldable pub fs_read : ℤ → Bytes → ℕ → State → Outcome (ℤ × State)
fs_read fd buf count s = returns (pos 0, s)

-- Whatever the descriptor, the file system is given back.
unfoldable pub fs_close : ℤ → State → Outcome (ℤ × State)
fs_close fd null = returns (pos 0, null)
fs_close fd freed = undefined
fs_close fd (live fs) = returns (pos 0, freed)
