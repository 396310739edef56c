-- ===== src/Revisions/Checking.antt =====
-- sys_error_check in the three revisions, and the disks that it accepts with their layouts.
use ecs150fs.Base.{
  ℕ, ◌*◌, ◌/◌, ◌^◌, ◌<◌, ◌≡◌, ◌≢◌, refl, ap, sym, ◌∙◌, Bool, true, not, ◌∷◌, arith, if◌then◌else◌,
}
use ecs150fs.Base.Int.{pos, minus_one, signed, pattern_of, double, div_const}
use ecs150fs.Base.Lists.{length}
use ecs150fs.Base.Bytes.{Bytes}
use ecs150fs.Disk.{Disk, is_open, block_disk_count, block_size}
use ecs150fs.Fs.State.{SuperBlock, returns, ◌>>=◌, >>=-eq-returns}
use ecs150fs.Fs.Layout.{store_superblock, store_numbers}
use ecs150fs.Fs.Layout.RoundTrip.{drop-append}
use ecs150fs.Fs.Check
use ecs150fs.Fs.Check.{signature_matches}
use ecs150fs.Fs.Check.Geometry.{Geometry, numbers_match-Geometry}
use ecs150fs.Revisions.Structures.{load_superblock}
use ecs150fs.Revisions.Fs2
use ecs150fs.Revisions.Fs3

module _ (d : Disk) (sp : SuperBlock) where
  numbers3 : Fs3.numbers_match d sp ≡ Check.numbers_match d sp
  unfolding Fs3.numbers_match Check.numbers_match
  numbers3 = refl

  numbers2 :
      Fs2.numbers_match (block_disk_count d) (div_const (double (block_disk_count d)) block_size) sp
      ≡ Check.numbers_match d sp
  unfolding Fs2.numbers_match Check.numbers_match
  numbers2 = refl

  -- The three revisions of sys_error_check give the same result for the same super block.
  pub sys_error_check_same :
      (n : ℕ) (name : Bytes)
      → (Fs2.sys_error_check n name d sp ≡ Check.sys_error_check n name d sp)
        × (Fs3.sys_error_check n name d sp ≡ Check.sys_error_check n name d sp)
  unfolding Fs2.sys_error_check Fs3.sys_error_check Check.sys_error_check
  sys_error_check_same n name = (
    ap
        (λ (b : Bool). signature_matches n sp.signature name >>= λ same.
          if not same then returns minus_one else if b then returns (pos 0) else returns minus_one)
        numbers2,
    ap
        (λ (b : Bool). signature_matches n sp.signature name >>= λ same.
          if not same then returns minus_one else if b then returns (pos 0) else returns minus_one)
        numbers3,
  )

-- The number of blocks, as the two revisions read it from a super block with zeros behind its
-- numbers: the bytes of the amount of FAT blocks and of the padding.
misread_blocks :
    (sp : SuperBlock) (rest : Bytes)
    → length sp.signature ≡ 8
    → sp.padding ≡ 0 ∷ rest
    → (load_superblock (store_superblock sp)).dsk_blck_amount
      ≡ signed (2 ^ 16) (pattern_of 256 sp.fat_blck_amount)
unfolding load_superblock store_superblock
misread_blocks sp rest len pad =
    rw (drop-append 8 8 sp.signature (store_numbers sp) len, pad) (ground arith)

numbers_of_accepted :
    (n : ℕ) (name : Bytes) (d : Disk) (sp : SuperBlock)
    → Check.sys_error_check n name d sp ≡ returns (pos 0)
    → Check.numbers_match d sp ≡ true
unfolding Check.sys_error_check
numbers_of_accepted n name d sp h =
    let (same, _, e) = >>=-eq-returns (signature_matches n sp.signature name) _ h in ground arith

-- On an open disk of 1 to 2^31-1 blocks, a super block that has the numbers of the disk's layout, a
-- signature of 8 bytes and a zero behind its numbers, as fs.c lays it out, is refused by
-- sys_error_check of fs2.0.c and of fs3.0.c, which read it into their structure with a signature of
-- 16 bytes, for every name.
pub format_refused :
    (n : ℕ) (name : Bytes) (d : Disk) (sp : SuperBlock) (rest : Bytes)
    → is_open d ≡ true
    → 0 < d.bcount
    → d.bcount < 2 ^ 31
    → Geometry d.bcount sp
    → length sp.signature ≡ 8
    → sp.padding ≡ 0 ∷ rest
    → let read = load_superblock (store_superblock sp) in
      (Fs2.sys_error_check n name d read ≢ returns (pos 0))
      × (Fs3.sys_error_check n name d read ≢ returns (pos 0))
format_refused n name d sp rest op some_blocks small g len pad =
    let (same2, same3) = sys_error_check_same d (load_superblock (store_superblock sp)) n name in
    (λ h. refused (sym same2 ∙ h), λ h. refused (sym same3 ∙ h))
  where
    refused :
        Check.sys_error_check n name d (load_superblock (store_superblock sp)) ≢ returns (pos 0)
    refused h =
        let g' = (numbers_match-Geometry d _ op small).0 (numbers_of_accepted n name d _ h) in
        let misread = misread_blocks sp rest len pad in
        let same : pos d.bcount
            ≡ signed (2 ^ 16) (pattern_of 256 (pos (d.bcount * 2 / block_size))) =
          sym g'.total_blocks
          ∙ misread
          ∙ ap (λ amount. signed (2 ^ 16) (pattern_of 256 amount)) g.fat_blocks in
        ground arith
