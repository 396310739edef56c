-- ===== src/Fs/Descriptors/Invariant.antt =====
-- The calls of libfs/fs.c that work in memory, in any order: the table of descriptors over time.
use ecs150fs.Base.{
  ℕ, ◌≤◌, ◌<◌, ◌≡◌, refl, ◌⊎◌, inl, inr, Bool, true, sym, ◌∙◌, ap, arith, Bool-cases, Option-cases,
  ==_iff, ◌==◌,
}
use ecs150fs.Base.Int.{ℤ, pos, minus_one}
use ecs150fs.Base.Lists.{length, get_elem?, length-set, lt_of_get_elem?-some}
use ecs150fs.Base.Bytes.{Bytes}
use ecs150fs.Fs.State.{State, FdTableEntry, returns, state_of_returns, is_null}
use ecs150fs.Fs.Directory.{fs_create, fs_delete, is_valid_name}
use ecs150fs.Fs.Directory.Creation.{Created, fs_create-Created}
use ecs150fs.Fs.Directory.Deletion.{fs_delete-table}
use ecs150fs.Fs.Descriptors.{fs_open, fs_close, fs_lseek, update_fd}
use ecs150fs.Fs.Descriptors.Opening.{Opened, opened_entry, fs_open-Opened, fs_open_descriptor}
use ecs150fs.Fs.Descriptors.Closing.{fs_close_lem}
use ecs150fs.Fs.Descriptors.Seeking.{fs_lseek_writes}

-- One call by a client, with what it returned.
pub data Step (s : State) : State → Type 0 where
  created :
      (unspecified : Bool) (f : Bytes) {r : ℤ} {s' : State}
      → fs_create unspecified f s ≡ returns (r, s')
      → Step s s'
  deleted : (f : Bytes) {r : ℤ} {s' : State} → fs_delete f s ≡ returns (r, s') → Step s s'
  opened :
      (unspecified : Bool) (f : Bytes) {r : ℤ} {s' : State}
      → fs_open unspecified f s ≡ returns (r, s')
      → Step s s'
  closed : (fd : ℤ) {r : ℤ} {s' : State} → fs_close fd s ≡ returns (r, s') → Step s s'
  sought :
      (fd : ℤ) (offset : ℕ) {r : ℤ} {s' : State}
      → fs_lseek fd offset s ≡ returns (r, s')
      → Step s s'

pub data Reach (s : State) : State → Type 0 where
  here : Reach s s
  next : {t u : State} → Reach s t → Step t u → Reach s u

-- From one state to a later one the table keeps its length, and opens are only ever added, within
-- the table.
pub record Grows (s t : State) : Type 0 where
  pub table : length t.fd_table ≡ length s.fd_table
  pub count : s.fd_open_count ≤ t.fd_open_count
  pub bound : (t.fd_open_count ≤ s.fd_open_count) ⊎ (t.fd_open_count ≤ length t.fd_table)

update_fd-Grows :
    (i : ℕ) (f : FdTableEntry → FdTableEntry) (s s' : State)
    → update_fd i f s ≡ returns s'
    → Grows s s'
unfolding update_fd
update_fd-Grows i f s s' h = elim (Option-cases (get_elem? s.fd_table i)) [
  | inl o ↦ ground arith
  | inr (e, o) ↦ ground (arith, length-set s.fd_table i (f e))
]

pub Grows-refl : (s s' : State) → s' ≡ s → Grows s s'
Grows-refl s s' e = rw e (record { table = refl; count = omega arith; bound = inl (omega arith) })

pub Grows-trans : {s t u : State} → Grows s t → Grows t u → Grows s u
Grows-trans g h = omega arith

fs_open-Grows :
    (unspecified : Bool) (f : Bytes) (s s' : State) {r : ℤ}
    → fs_open unspecified f s ≡ returns (r, s')
    → Grows s s'
fs_open-Grows unspecified f s s' {r} h =
    let made : Opened unspecified f s (returns (r, s')) =
      rw h at (fs_open-Opened unspecified f s) in
    elim made [
      | inl (_, e) ↦ Grows-refl s s' e
      | inr (fs, e, _, _, _, at, _, t) ↦
          let size = length-set s.fd_table s.fd_open_count (opened_entry f e) in
          let inside = lt_of_get_elem?-some s.fd_table s.fd_open_count at in
          rw t (record {
            table = size;
            count = omega arith;
            bound = inr (omega (arith, size, inside));
          })
    ]

pub fs_create-Grows :
    (unspecified : Bool) (f : Bytes) (s s' : State) {r : ℤ}
    → fs_create unspecified f s ≡ returns (r, s')
    → Grows s s'
fs_create-Grows unspecified f s s' {r} h =
    let made : Created unspecified f s (returns (r, s')) =
      rw h at (fs_create-Created unspecified f s) in
    elim made [
      | inl (_, e) ↦ Grows-refl s s' e
      | inr (_, _, _, _, _, _, e) ↦
          rw e (record { table = refl; count = omega arith; bound = inl (omega arith) })
    ]

fs_close-Grows : (fd : ℤ) (s s' : State) {r : ℤ} → fs_close fd s ≡ returns (r, s') → Grows s s'
fs_close-Grows fd s s' {r} h = elim (fs_close_lem fd s) [
  | inl (_, e) ↦ Grows-refl s s' (state_of_returns (sym h ∙ e))
  | inr (t, _, e, _, _, _, _, count, i, x, _, table) ↦ rw (state_of_returns (sym h ∙ e)) (record {
    table = rw table (length-set s.fd_table i x);
    count = omega arith;
    bound = inl (omega arith);
  })
]

fs_lseek-Grows :
    (fd : ℤ) (offset : ℕ) (s s' : State) {r : ℤ}
    → fs_lseek fd offset s ≡ returns (r, s')
    → Grows s s'
fs_lseek-Grows fd offset s s' h = elim (fs_lseek_writes fd offset s s' h) [
  | inl same ↦ Grows-refl s s' same
  | inr (i, f, put) ↦ update_fd-Grows i f s s' put
]

pub Step-Grows : {s t : State} → Step s t → Grows s t
Step-Grows {s} (created unspecified f {s'} h) = fs_create-Grows unspecified f s s' h
Step-Grows {s} (deleted f {s'} h) =
    let (table, count) = fs_delete-table f s s' h in
    record { table = ap length table; count = omega arith; bound = inl (omega arith) }
Step-Grows {s} (opened unspecified f {s'} h) = fs_open-Grows unspecified f s s' h
Step-Grows {s} (closed fd {s'} h) = fs_close-Grows fd s s' h
Step-Grows {s} (sought fd offset {s'} h) = fs_lseek-Grows fd offset s s' h

Reach-Grows : {s t : State} → Reach s t → Grows s t
Reach-Grows here = Grows-refl _ _ refl
Reach-Grows (next r step) = Grows-trans (Reach-Grows r) (Step-Grows step)

-- From a state in which the number of opens fits the table, no sequence of calls leads to one in
-- which it does not, and the table keeps its length.
pub Reach-room :
    (s t : State)
    → s.fd_open_count ≤ length s.fd_table
    → Reach s t
    → (t.fd_open_count ≤ length t.fd_table) × (length t.fd_table ≡ length s.fd_table)
Reach-room s t room r = let g = Reach-Grows r in (omega arith, g.table)

-- With as many opens as the table has entries.
pub fs_open_full :
    (unspecified : Bool) (f : Bytes) (t : State)
    → t.fd_open_count ≡ length t.fd_table
    → fs_open unspecified f t ≡ returns (minus_one, t)
unfolding fs_open
fs_open_full unspecified f t full =
    let same : (t.fd_open_count == length t.fd_table) ≡ true = (==_iff _ _).1 full in
    elim (Bool-cases (is_null t.file_system)) [
      | inl y ↦ rw y
      | inr n ↦ elim (Bool-cases (is_valid_name unspecified f)) [
        | inl v ↦ rw (n, v, same)
        | inr w ↦ rw (n, w)
      ]
    ]

-- Two calls of fs_open that succeed give different descriptors, the later one the larger, whatever
-- calls of fs_create, fs_delete, fs_open, fs_close and fs_lseek stand between them.
pub fs_open_distinct :
    (s s' t t' : State) (unspecified unspecified' : Bool) (f g : Bytes) (n m : ℕ)
    → fs_open unspecified f s ≡ returns (pos n, s')
    → Reach s' t
    → fs_open unspecified' g t ≡ returns (pos m, t')
    → n < m
fs_open_distinct s s' t t' unspecified unspecified' f g n m h r k =
    let first = fs_open_descriptor unspecified f s s' n h in
    let second = fs_open_descriptor unspecified' g t t' m k in
    let grown = Reach-Grows r in omega (arith, first.1, second.0)
