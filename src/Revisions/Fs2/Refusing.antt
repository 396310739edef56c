-- ===== src/Revisions/Fs2/Refusing.antt =====
-- isValidName and fs_create of libfs/fs2.0.c.
use ecs150fs.Base.{ℕ, ◌+◌, ◌≡◌, refl, inl, inr, false, [], ◌∷◌, ◌==◌, Bool-cases, arith}
use ecs150fs.Base.Int.{minus_one}
use ecs150fs.Base.Bytes.{Bytes, c_str}
use ecs150fs.Fs.State.{live, freed, null, returns}
use ecs150fs.Revisions.Structures.{State}
use ecs150fs.Revisions.Fs2.{count_characters, is_valid_name, fs_create}

-- A string has no terminator among its characters.
no_terminator : (s : Bytes) (count : ℕ) → (count_characters (c_str s) (false, count)).0 ≡ false
unfolding count_characters
no_terminator [] count = refl
no_terminator (c ∷ s) count = elim (Bool-cases (c == 0)) [
  | inl z ↦ rw z
  | inr n ↦ rw (n, count_characters, n) (no_terminator s (count + 1))
]

never_valid : (f : Bytes) → is_valid_name f ≡ minus_one
unfolding is_valid_name
never_valid f = rw (no_terminator f 0) (ground arith)

-- fs_create of fs2.0.c returns -1 and changes nothing, for every name and state: its isValidName
-- finds no terminator among the characters of a string.
pub fs_create_refused : (f : Bytes) (s : State) → fs_create f s ≡ returns (minus_one, s)
unfolding fs_create
fs_create_refused f null = refl
fs_create_refused f freed = rw (never_valid f) refl
fs_create_refused f (live fs) = rw (never_valid f) refl
