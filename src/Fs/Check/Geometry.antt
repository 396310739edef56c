-- ===== src/Fs/Check/Geometry.antt =====
-- What sys_error_check of libfs/fs.c accepts, against a description of the disk's layout.
use native.Mathlib.Nat.{add_comm}
use ecs150fs.Base.{
  ℕ, ◌+◌, ◌*◌, ◌/◌, ◌^◌, ◌≤◌, ◌<◌, ◌≡◌, ◌≢◌, refl, ◌↔◌, inl, inr, ap, ◌∙◌, sym, Bool, true, false,
  not, [], ◌∷◌, arith, ◌==◌, if◌then◌else◌, Bool-cases,
}
use ecs150fs.Base.Int.{ℤ, pos, minus_one, sub_ℕ, ◌==ℤ◌, ==ℤ_iff, double_pos, pos-+ℤ, pos--ℤ}
use ecs150fs.Base.Lists.{length, take}
use ecs150fs.Base.Bytes.{Bytes, c_str, strlen, bytes_eq, bytes_eq_iff}
use ecs150fs.Disk.{Disk, is_open, block_disk_count, block_size}
use ecs150fs.Fs.State.{SuperBlock, returns, undefined}
use ecs150fs.Fs.Check.{signature_matches, numbers_match, sys_error_check}

-- The blocks of a disk in order: one super block, the FAT with two bytes for each block of the disk,
-- rounded down to whole blocks, one block of root directory, and the data.
pub record Geometry (total : ℕ) (sp : SuperBlock) : Type 0 where
  pub total_blocks : sp.dsk_blck_amount ≡ pos total
  pub fat_blocks : sp.fat_blck_amount ≡ pos (total * 2 / block_size)
  pub data_blocks : sp.data_blck_amount ≡ sub_ℕ total (total * 2 / block_size + 2)
  pub root_block : sp.root_dir_index ≡ pos (total * 2 / block_size + 1)
  pub first_data_block : sp.data_blck_index ≡ pos (total * 2 / block_size + 2)

block_disk_count_lem :
    (d : Disk) → is_open d ≡ true → d.bcount < 2 ^ 31 → block_disk_count d ≡ pos d.bcount
unfolding block_disk_count
block_disk_count_lem d op small = rw op (ground arith)

-- The five tests, for the numbers that the code computes them from.
abbrev chain : SuperBlock → (disk fat data_blocks root first : ℤ) → Bool
chain sp disk fat data_blocks root first =
    if not (disk ==ℤ sp.dsk_blck_amount)
    then false
    else if not (fat ==ℤ sp.fat_blck_amount)
    then false
    else if not (data_blocks ==ℤ sp.data_blck_amount)
    then false
    else if not (root ==ℤ sp.root_dir_index)
    then false
    else if not (first ==ℤ sp.data_blck_index)
    then false
    else true

chain_iff :
    (sp : SuperBlock) (disk fat data_blocks root first : ℤ)
    → (chain sp disk fat data_blocks root first ≡ true) ↔ (
        (disk ≡ sp.dsk_blck_amount)
        × (fat ≡ sp.fat_blck_amount)
        × (data_blocks ≡ sp.data_blck_amount)
        × (root ≡ sp.root_dir_index)
        × (first ≡ sp.data_blck_index))
chain_iff sp disk fat data_blocks root first = ground (
  arith,
  ==ℤ_iff disk sp.dsk_blck_amount,
  ==ℤ_iff fat sp.fat_blck_amount,
  ==ℤ_iff data_blocks sp.data_blck_amount,
  ==ℤ_iff root sp.root_dir_index,
  ==ℤ_iff first sp.data_blck_index,
)

pub numbers_match-Geometry :
    (d : Disk) (sp : SuperBlock)
    → is_open d ≡ true
    → d.bcount < 2 ^ 31
    → (numbers_match d sp ≡ true) ↔ Geometry d.bcount sp
unfolding numbers_match
numbers_match-Geometry d sp op small =
    let n = d.bcount in
    let q = n * 2 / block_size in
    let (to, from) = chain_iff sp (pos n) (pos q) (sub_ℕ n (2 + q)) (pos (q + 1)) (pos (q + 2)) in
    rw
      (
        block_disk_count_lem d op small,
        double_pos n,
        pos-+ℤ 2 q,
        pos--ℤ n (2 + q),
        pos-+ℤ q 1,
        pos-+ℤ q 2,
      )
      (
        λ h.
            let (e1, e2, e3, e4, e5) = to h in
            record {
              total_blocks = sym e1;
              fat_blocks = sym e2;
              data_blocks = sym e3 ∙ rw (add_comm 2 q);
              root_block = sym e4;
              first_data_block = sym e5;
            },
        λ g. from (
          sym g.total_blocks,
          sym g.fat_blocks,
          rw (add_comm 2 q) (sym g.data_blocks),
          sym g.root_block,
          sym g.first_data_block,
        ),
      )

signature_matches-c_str :
    (signature name : Bytes)
    → strlen name ≤ length signature
    → signature_matches (strlen name) signature name
      ≡ returns (bytes_eq (take (strlen name) signature) (c_str name))
unfolding signature_matches
signature_matches-c_str signature [] h = refl
signature_matches-c_str [] (c ∷ name) h = elim (Bool-cases (c == 0)) [
  | inl z ↦ rw z
  | inr n ↦ absurd (ground arith)
]
signature_matches-c_str (x ∷ signature) (c ∷ name) h = elim (Bool-cases (c == 0)) [
  | inl z ↦ rw z
  | inr n ↦ rw n (ground (arith, signature_matches-c_str signature name))
]

signature_matches_long :
    (signature name : Bytes)
    → length signature < strlen name
    → take (length signature) (c_str name) ≡ signature
    → signature_matches (strlen name) signature name ≡ undefined
unfolding signature_matches
signature_matches_long signature [] h same = absurd (omega arith)
signature_matches_long [] (c ∷ name) h same = elim (Bool-cases (c == 0)) [
  | inl z ↦ absurd (ground arith)
  | inr n ↦ rw n
]
signature_matches_long (x ∷ signature) (c ∷ name) h same = elim (Bool-cases (c == 0)) [
  | inl z ↦ absurd (ground arith)
  | inr n ↦
      let first : c ∷ take (length signature) (c_str name) ≡ x ∷ signature = rw n at same in
      let rest : take (length signature) (c_str name) ≡ signature = cc in
      rw n (ground (arith, signature_matches_long signature name))
]

accepts_iff :
    (same numbers : Bool)
    → ((if not same
          then returns minus_one
          else if numbers
          then returns (pos 0)
          else returns minus_one)
        ≡ returns (pos 0))
      ↔ ((same ≡ true) × (numbers ≡ true))
accepts_iff true true = (λ _. (refl, refl), λ _. refl)
accepts_iff true false = (λ h. cc, λ h. cc)
accepts_iff false numbers = (λ h. cc, λ h. cc)

-- For an open disk of less than 2^31 blocks and a name no longer than the signature,
-- sys_error_check returns 0 just if the signature begins with the name and the five numbers are
-- those of the disk's layout.
pub sys_error_check_iff :
    (name : Bytes) (d : Disk) (sp : SuperBlock)
    → is_open d ≡ true
    → d.bcount < 2 ^ 31
    → strlen name ≤ length sp.signature
    → (sys_error_check (strlen name) name d sp ≡ returns (pos 0))
      ↔ ((take (strlen name) sp.signature ≡ c_str name) × Geometry d.bcount sp)
unfolding sys_error_check
sys_error_check_iff name d sp op small short =
    let (to, from) = numbers_match-Geometry d sp op small in
    let (eq_to, eq_from) = bytes_eq_iff (take (strlen name) sp.signature) (c_str name) in
    let accepts =
      accepts_iff (bytes_eq (take (strlen name) sp.signature) (c_str name)) (numbers_match d sp) in
    rw (signature_matches-c_str sp.signature name short) (
      λ h. let (same, numbers) = accepts.0 h in (eq_to same, to numbers),
      λ (same, numbers). accepts.1 (eq_from same, from numbers),
    )

-- If the disk's name goes on behind a signature that it begins with, sys_error_check looks past the
-- end of the signature.
pub sys_error_check_long :
    (name : Bytes) (d : Disk) (sp : SuperBlock)
    → length sp.signature < strlen name
    → take (length sp.signature) (c_str name) ≡ sp.signature
    → sys_error_check (strlen name) name d sp ≡ undefined
unfolding sys_error_check
sys_error_check_long name d sp long same = rw (signature_matches_long sp.signature name long same)

-- On an open disk of less than 2048 blocks, with a name no longer than the signature,
-- sys_error_check accepts no super block that has a FAT.
pub sys_error_check_small :
    (name : Bytes) (d : Disk) (sp : SuperBlock)
    → is_open d ≡ true
    → d.bcount < 2048
    → strlen name ≤ length sp.signature
    → sp.fat_blck_amount ≢ pos 0
    → sys_error_check (strlen name) name d sp ≢ returns (pos 0)
sys_error_check_small name d sp op small short some_fat accepted =
    let (_, g) = (sys_error_check_iff name d sp op (omega arith) short).0 accepted in
    let zero_blocks : d.bcount * 2 / block_size ≡ 0 = omega arith in
    some_fat (g.fat_blocks ∙ ap pos zero_blocks)
