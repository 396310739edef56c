-- ===== src/Fs/Check.antt =====
-- sys_error_check of libfs/fs.c: is the super block that of the open disk?
pub mod Geometry
mod Examples
use ecs150fs.Base.{ℕ, zero, suc, Bool, true, false, not, [], ◌∷◌, ◌==◌, if◌then◌else◌}
use ecs150fs.Base.Int.{ℤ, pos, minus_one, ◌+ℤ◌, ◌-ℤ◌, ◌==ℤ◌, double, div_const}
use ecs150fs.Base.Bytes.{Bytes}
use ecs150fs.Disk.{Disk, block_disk_count, block_size}
use ecs150fs.Fs.State.{SuperBlock, Outcome, returns, undefined, ◌>>=◌}

-- The loop over the first `file_size` characters of the signature and the name. It is undefined to
-- look behind the end of the signature.
unfoldable pub signature_matches : ℕ → Bytes → Bytes → Outcome Bool
signature_matches zero signature diskname = returns true
signature_matches (suc n) (s ∷ signature) (c ∷ diskname) =
    let rest = signature_matches n signature diskname in if s == c then rest else returns false
signature_matches (suc n) _ _ = undefined

-- The five comparisons behind the loop, in the order of the code.
unfoldable pub numbers_match : Disk → SuperBlock → Bool
numbers_match d sp =
    let disk_blocks = block_disk_count d in
    if not (disk_blocks ==ℤ sp.dsk_blck_amount)
    then false
    else let disk_fat_count = div_const (double disk_blocks) block_size in
      if not (disk_fat_count ==ℤ sp.fat_blck_amount)
      then false
      else let disk_data_blcks = disk_blocks -ℤ (pos 2 +ℤ disk_fat_count) in
        if not (disk_data_blcks ==ℤ sp.data_blck_amount)
        then false
        else if not (disk_fat_count +ℤ pos 1 ==ℤ sp.root_dir_index)
        then false
        else if not (disk_fat_count +ℤ pos 2 ==ℤ sp.data_blck_index)
        then false
        else true

unfoldable pub sys_error_check : ℕ → Bytes → Disk → SuperBlock → Outcome ℤ
unfolding signature_matches numbers_match
sys_error_check file_size diskname d sp =
    signature_matches file_size sp.signature diskname >>= λ same.
    if not same
    then returns minus_one
    else if numbers_match d sp
    then returns (pos 0)
    else returns minus_one
