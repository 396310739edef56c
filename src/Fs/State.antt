-- ===== src/Fs/State.antt =====
-- The structures and global variables of libfs/fs.c, and how a call can end.
use ecs150fs.Base.{ℕ, ◌≡◌, refl, Bool, Option, List}
use ecs150fs.Base.Int.{ℤ}
use ecs150fs.Base.Bytes.{Bytes}

abbrev pub fs_filename_len : ℕ
fs_filename_len = 16

abbrev pub fs_file_max_count : ℕ
fs_file_max_count = 128

-- The members of `struct superBlock`, numbers by value and arrays by their bytes.
pub record SuperBlock : Type 0 where
  pub signature : Bytes
  pub dsk_blck_amount : ℤ
  pub root_dir_index : ℤ
  pub data_blck_index : ℤ
  pub data_blck_amount : ℤ
  pub fat_blck_amount : ℤ
  pub padding : Bytes

-- The members of `struct root_entry`; the flag `isEmpty` by its byte, which is true unless it is 0.
-- `unused` is the three bytes that align the next entry of an array.
pub record RootEntry : Type 0 where
  pub filename : Bytes
  pub file_size : ℤ
  pub file_first_index : ℤ
  pub padding : Bytes
  pub is_empty : ℕ
  pub unused : Bytes

-- `fat_blocks` is the array of 16-bit entries, and nothing while the pointer is not yet set.
pub record FsSystem : Type 0 where
  pub sp : SuperBlock
  pub root_dir : List RootEntry
  pub fat_blocks : Option (List ℕ)

pub record FdTableEntry : Type 0 where
  pub filename : Bytes
  pub offset : ℕ
  pub used : Bool

-- What the variable `file_system` holds: `NULL`, the address of memory that was given back, or the
-- address of a structure.
pub data Pointer (A : Type 0) : Type 0 where
  null freed : Pointer A
  live : A → Pointer A

-- The global variables. The length of `fd_table` is FILE_DESCRIPTOR_TABLE_SIZE.
pub record State : Type 0 where
  pub file_system : Pointer FsSystem
  pub fd_table : List FdTableEntry
  pub fd_open_count : ℕ

-- A call returns, or does what C leaves undefined: it follows a null or stale pointer, leaves an
-- array, or reads a variable that was never set.
pub data Outcome {ℓ} (A : Type ℓ) : Type ℓ where
  returns : A → Outcome A
  undefined : Outcome A

infixl 5 ◌>>=◌
abbrev pub ◌>>=◌ {ℓ κ} : {A : Type ℓ} {B : Type κ} → Outcome A → (A → Outcome B) → Outcome B
returns a >>= f = f a
undefined >>= f = undefined

pub >>=-eq-returns {ℓ κ} :
    {A : Type ℓ} {B : Type κ} (m : Outcome A) (f : A → Outcome B) {b : B}
    → (m >>= f) ≡ returns b
    → (a : A) × (m ≡ returns a) × (f a ≡ returns b)
>>=-eq-returns (returns a) f h = (a, refl, h)
>>=-eq-returns undefined f h = cc

pub state_of_returns :
    {A : Type 0} {r r' : A} {s s' : State}
    → ◌≡◌ {A = Outcome (A × State)} (returns (r, s)) (returns (r', s'))
    → s ≡ s'
state_of_returns h = cc

-- `file_system->…`
abbrev pub deref : Pointer FsSystem → Outcome FsSystem
deref null = undefined
deref freed = undefined
deref (live fs) = returns fs

abbrev pub is_null : Pointer FsSystem → Bool
is_null null = Bool.true
is_null _ = Bool.false

-- A state by its three variables, for proofs that go by the pointer's cases.
abbrev pub state : Pointer FsSystem → List FdTableEntry → ℕ → State
state p table count = record { file_system = p; fd_table = table; fd_open_count = count }
