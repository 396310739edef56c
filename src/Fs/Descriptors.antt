-- ===== src/Fs/Descriptors.antt =====
-- fs_open, isValidFD, fs_close, fs_stat, fs_lseek, fs_write and fs_read of libfs/fs.c: the table
-- of file descriptors.
pub mod Opening
pub mod Closing
pub mod Seeking
pub mod Invariant
pub mod Deleting
mod Examples
use ecs150fs.Base.{
  ℕ, zero, suc, ◌+◌, ◌-◌, ◌^◌, Bool, true, false, not, ◌&&◌, ◌||◌, Option, none, some, List, [],
  ◌∷◌, ltb, leb, ◌==◌, if◌then◌else◌,
}
use ecs150fs.Base.Int.{ℤ, pos, negsuc, minus_one, pattern_of}
use ecs150fs.Base.Lists.{length, get_elem?, set}
use ecs150fs.Base.Bytes.{Bytes, strlen, same_string, strcpy}
use ecs150fs.Fs.State.{
  RootEntry, FdTableEntry, FsSystem, State, Pointer, live, Outcome, returns, undefined, ◌>>=◌,
  deref, is_null,
}
use ecs150fs.Fs.Directory.{is_valid_name, name_taken}

-- `fd_table[i] = f(fd_table[i])`, undefined outside the table.
unfoldable pub update_fd : ℕ → (FdTableEntry → FdTableEntry) → State → Outcome State
update_fd i f s = elim (get_elem? s.fd_table i) [
  | none ↦ undefined
  | some e ↦ returns (record s { fd_table = set s.fd_table i (f e) })
]

unfoldable pub fs_open : (unspecified : Bool) → Bytes → State → Outcome (ℤ × State)
fs_open unspecified filename s =
    if is_null s.file_system
    then returns (minus_one, s)
    else if not (is_valid_name unspecified filename)
    then returns (minus_one, s)
    else if s.fd_open_count == length s.fd_table
    then returns (minus_one, s)
    else deref s.file_system >>= λ fs.
        if name_taken filename fs.root_dir
        then returns (minus_one, s)
        else update_fd s.fd_open_count
            (λ e. record { filename = strcpy e.filename filename; offset = 0; used = true }) s
          >>= λ s'. returns (pos s.fd_open_count, record s' { fd_open_count = s.fd_open_count + 1 })

unfoldable pub is_valid_fd : ℤ → State → Bool
is_valid_fd (negsuc _) s = false
is_valid_fd (pos i) s =
    if is_null s.file_system
    then false
    else elim (get_elem? s.fd_table i) [ none ↦ false | some e ↦ not (strlen e.filename == 0) ]

-- `memset(filename, 0, sizeof(char))` clears one character.
unfoldable pub fs_close : ℤ → State → Outcome (ℤ × State)
fs_close fd s = if not (is_valid_fd fd s) then returns (minus_one, s) else elim fd [
  | negsuc _ ↦ undefined
  | pos i ↦
      update_fd i (λ e. record { filename = set e.filename 0 0; offset = 0; used = false }) s
      >>= λ s'. returns (pos 0, s')
]

-- The size of the first entry with the name, and 0 if there is none.
pub size_of_name : Bytes → List RootEntry → ℤ
size_of_name name [] = pos 0
size_of_name name (e ∷ es) =
    if same_string name e.filename then e.file_size else size_of_name name es

unfoldable pub fs_stat : ℤ → State → Outcome ℤ
fs_stat fd s = if not (is_valid_fd fd s) then returns minus_one else elim fd [
  | negsuc _ ↦ undefined
  | pos i ↦ elim (get_elem? s.fd_table i) [
    | none ↦ undefined
    | some e ↦ deref s.file_system >>= λ fs. returns (size_of_name e.filename fs.root_dir)
  ]
]

-- `isValid` is the negation of what its name says. The comparison takes the size as a `size_t`.
unfoldable pub fs_lseek : ℤ → ℕ → State → Outcome (ℤ × State)
fs_lseek fd offset s =
    let is_valid = not (is_valid_fd fd s) in
    if not is_valid
    then returns (minus_one, s)
    else fs_stat fd s >>= λ size.
        if ltb (pattern_of (2 ^ 64) size) offset then returns (minus_one, s) else elim fd [
          | negsuc _ ↦ undefined
          | pos i ↦ update_fd i (λ e. record e { offset = offset }) s >>= λ s'. returns (pos 0, s')
        ]

-- Not implemented by the program: no argument is looked at.
unfoldable pub fs_write : ℤ → Option Bytes → ℕ → State → Outcome (ℤ × State)
fs_write fd buf count s = returns (pos 0, s)

unfoldable pub fs_read : ℤ → Option Bytes → ℕ → State → Outcome (ℤ × State)
fs_read fd buf count s = returns (pos 0, s)
