-- ===== src/Fs/Layout/RoundTrip.antt =====
-- The structures of libfs/fs.c read back from the bytes that they occupy.
use Prim.Native.Nat.add
use ecs150fs.Base.{
  ℕ, zero, suc, ◌+◌, ◌-◌, ◌^◌, ◌≤◌, ◌<◌, ◌≡◌, refl, ap, ◌∙◌, List, [], ◌∷◌, ◌++◌, arith,
}
use mathlib.Core.Path.{ap₂}
use ecs150fs.Base.Int.{ℤ, pos, negsuc, pos_part, neg_part, signed, pattern_of}
use ecs150fs.Base.Lists.{length, take, drop, All}
use ecs150fs.Base.Bytes.{Bytes}
use ecs150fs.Fs.State.{SuperBlock}
use ecs150fs.Fs.Layout.{
  store_numbers, store_superblock, load_superblock, word16, bytes16, byte_at, store_words,
  load_words,
}

-- A number that `w` bits hold in two's complement, `half` being 2 ^ (w - 1).
abbrev pub InRange : ℕ → ℤ → Type 0
InRange half z = (pos_part z < half) × (neg_part z ≤ half)

pub signed-pattern16 : (z : ℤ) → InRange (2 ^ 15) z → signed (2 ^ 16) (pattern_of (2 ^ 16) z) ≡ z
signed-pattern16 (pos n) h = ground arith
signed-pattern16 (negsuc n) h = ground arith

signed-pattern8 : (z : ℤ) → InRange 128 z → signed 256 (pattern_of 256 z) ≡ z
signed-pattern8 (pos n) h = ground arith
signed-pattern8 (negsuc n) h = ground arith

pattern16-lt : (z : ℤ) → pattern_of (2 ^ 16) z < 2 ^ 16
pattern16-lt (pos n) = omega arith
pattern16-lt (negsuc n) = omega arith

pub word16-bytes16 : (u : ℕ) (rest : Bytes) → word16 (bytes16 u rest) ≡ u
word16-bytes16 u rest = omega arith

pub drop-append : (n k : ℕ) (xs ys : Bytes) → length xs ≡ n → drop (n + k) (xs ++ ys) ≡ drop k ys
drop-append zero k [] ys h = rw add.zero
drop-append zero k (x ∷ xs) ys h = absurd (omega arith)
drop-append (suc n) k [] ys h = absurd (omega arith)
drop-append (suc n) k (x ∷ xs) ys h = rw add.suc (drop-append n k xs ys (omega arith))

pub take-append : (n : ℕ) (xs ys : Bytes) → length xs ≡ n → take n (xs ++ ys) ≡ xs
take-append zero [] ys h = refl
take-append zero (x ∷ xs) ys h = absurd (omega arith)
take-append (suc n) [] ys h = absurd (omega arith)
take-append (suc n) (x ∷ xs) ys h = ap (◌∷◌ x) (take-append n xs ys (omega arith))

-- The values that the members of a super block can have.
pub record FitsSuperBlock (sp : SuperBlock) : Type 0 where
  pub signature : length sp.signature ≡ 8
  pub dsk_blck_amount : InRange (2 ^ 15) sp.dsk_blck_amount
  pub root_dir_index : InRange (2 ^ 15) sp.root_dir_index
  pub data_blck_index : InRange (2 ^ 15) sp.data_blck_index
  pub data_blck_amount : InRange (2 ^ 15) sp.data_blck_amount
  pub fat_blck_amount : InRange 128 sp.fat_blck_amount

field16 :
    (k : ℕ) (sp : SuperBlock) (z : ℤ)
    → length sp.signature ≡ 8
    → word16 (drop k (store_numbers sp)) ≡ word16 (bytes16 (pattern_of (2 ^ 16) z) [])
    → InRange (2 ^ 15) z
    → signed (2 ^ 16) (word16 (drop (8 + k) (store_superblock sp))) ≡ z
unfolding store_superblock
field16 k sp z len at fits =
    rw
      (
        drop-append 8 k sp.signature (store_numbers sp) len,
        at,
        word16-bytes16 (pattern_of (2 ^ 16) z) [],
      )
      (signed-pattern16 z fits)

-- A super block with a signature of 8 bytes and numbers in the ranges of their types is what is
-- read back from the bytes that it occupies.
pub load_superblock-store_superblock :
    (sp : SuperBlock) → FitsSuperBlock sp → load_superblock (store_superblock sp) ≡ sp
unfolding load_superblock store_superblock
load_superblock-store_superblock sp fits =
    let len = fits.signature in
    let fat : signed 256 (byte_at (drop 16 (store_superblock sp))) ≡ sp.fat_blck_amount =
      ap (λ b. signed 256 (byte_at b)) (drop-append 8 8 sp.signature (store_numbers sp) len)
      ∙ signed-pattern8 sp.fat_blck_amount fits.fat_blck_amount in
    λ i. record {
      signature = take-append 8 sp.signature (store_numbers sp) len i;
      dsk_blck_amount = field16 0 sp sp.dsk_blck_amount len refl fits.dsk_blck_amount i;
      root_dir_index = field16 2 sp sp.root_dir_index len refl fits.root_dir_index i;
      data_blck_index = field16 4 sp sp.data_blck_index len refl fits.data_blck_index i;
      data_blck_amount = field16 6 sp sp.data_blck_amount len refl fits.data_blck_amount i;
      fat_blck_amount = fat i;
      padding = drop-append 8 9 sp.signature (store_numbers sp) len i;
    }

-- An array of 16-bit words is what is read back from its bytes.
pub load_words-store_words : (us : List ℕ) → load_words (store_words us) ≡ us
unfolding load_words store_words
load_words-store_words [] = refl
load_words-store_words (u ∷ us) = ap₂ ◌∷◌ (omega arith) (load_words-store_words us)

-- Whole words of bytes are what is stored again of the array read from them.
pub store_words-load_words :
    (n : ℕ) (bytes : Bytes)
    → length bytes ≡ n + n
    → All (λ b. b < 256) bytes
    → store_words (load_words bytes) ≡ bytes
unfolding load_words store_words
store_words-load_words n [] even small = refl
store_words-load_words n (a ∷ []) even small = absurd (omega arith)
store_words-load_words n (a ∷ b ∷ rest) even (lo, (hi, small)) =
    ap₂ ◌∷◌ (omega arith)
      (ap₂ ◌∷◌ (omega arith) (store_words-load_words (n - 1) rest (omega arith) small))
