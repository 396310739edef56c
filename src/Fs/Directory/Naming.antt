-- ===== src/Fs/Directory/Naming.antt =====
-- What isValidName of libfs/fs.c decides.
use ecs150fs.Base.{
  ℕ, zero, suc, ◌-◌, ◌≡◌, ◌≢◌, refl, Bool, ◌&&◌, some, [], ◌∷◌, arith, ltb, Bool-cases, inl, inr,
}
use ecs150fs.Base.Lists.{get_elem?}
use ecs150fs.Base.Bytes.{Bytes, strlen}
use ecs150fs.Fs.State.{fs_filename_len}
use ecs150fs.Fs.Directory.{is_valid_name}

-- The last character of a string is not its terminator.
last_char : (s : Bytes) (n : ℕ) → strlen s ≡ suc n → (c : ℕ) × (get_elem? s n ≡ some c) × (c ≢ 0)
last_char [] n h = absurd (omega arith)
last_char (c ∷ s) zero h = (c, refl, ground arith)
last_char (c ∷ s) (suc n) h = last_char s n (ground arith)

abbrev pub good_length : Bytes → Bool
good_length s = ltb 0 (strlen s) && ltb (strlen s) fs_filename_len

-- isValidName returns false for a name of bad length and never returns true: for a name of 1 to 15
-- characters the result is the unspecified value that the caller finds.
pub is_valid_name_lem :
    (unspecified : Bool) (filename : Bytes)
    → is_valid_name unspecified filename ≡ (good_length filename && unspecified)
unfolding is_valid_name
is_valid_name_lem unspecified filename = elim (Bool-cases (good_length filename)) [
  | inl good ↦
      let (c, at, ne) = last_char filename (strlen filename - 1) (ground arith) in
      rw (good, at) (ground arith)
  | inr bad ↦ rw bad
]
