-- ===== src/Fs/Descriptors/Closing.antt =====
-- fs_close and fs_stat of libfs/fs.c.
use ecs150fs.Base.{
  ℕ, ◌<◌, ◌≡◌, ◌≢◌, refl, ◌⊎◌, inl, inr, Bool, true, false, ◌∙◌, ap, some, List, [], ◌∷◌, ◌++◌,
  arith, Bool-cases, Option-cases,
}
use ecs150fs.Base.Int.{ℤ, pos, negsuc, minus_one}
use ecs150fs.Base.Lists.{get_elem?, set, get_elem?-set_self, lt_of_get_elem?-some}
use ecs150fs.Base.Bytes.{Bytes, c_str, strlen, same_string, bytes_eq_comm}
use ecs150fs.Fs.State.{
  RootEntry, FdTableEntry, FsSystem, State, Pointer, null, live, freed, returns, state,
}
use ecs150fs.Fs.Directory.{name_taken}
use ecs150fs.Fs.Descriptors.Opening.{is_valid_fd_at, fs_open_descriptor}
use ecs150fs.Fs.Descriptors.{is_valid_fd, update_fd, fs_open, fs_close, fs_stat, size_of_name}

-- A valid descriptor is the index of an entry with a name, and a file system is mounted.
pub is_valid_fd_inversion :
    (fd : ℤ) (p : Pointer FsSystem) (table : List FdTableEntry) (count : ℕ)
    → is_valid_fd fd (state p table count) ≡ true
    → (i : ℕ) × (e : FdTableEntry) × (fd ≡ pos i)
      × (get_elem? table i ≡ some e)
      × (0 < strlen e.filename)
      × (p ≢ null)
unfolding is_valid_fd
is_valid_fd_inversion (negsuc i) p table count h = cc
is_valid_fd_inversion (pos i) null table count h = cc
is_valid_fd_inversion (pos i) freed table count h = elim (Option-cases (get_elem? table i)) [
  | inl o ↦ absurd (ground arith)
  | inr (e, o) ↦ (i, e, refl, o, ground arith, cc)
]
is_valid_fd_inversion (pos i) (live fs) table count h = elim (Option-cases (get_elem? table i)) [
  | inl o ↦ absurd (ground arith)
  | inr (e, o) ↦ (i, e, refl, o, ground arith, cc)
]

abbrev pub closed_entry : FdTableEntry → FdTableEntry
closed_entry e = record { filename = set e.filename 0 0; offset = 0; used = false }

strlen-cleared : (s : Bytes) → strlen (set s 0 0) ≡ 0
strlen-cleared [] = refl
strlen-cleared (c ∷ s) = refl

is_valid_fd_cleared :
    (i : ℕ) (p : Pointer FsSystem) (table : List FdTableEntry) (count : ℕ) {e : FdTableEntry}
    → get_elem? table i ≡ some e
    → strlen e.filename ≡ 0
    → is_valid_fd (pos i) (state p table count) ≡ false
unfolding is_valid_fd
is_valid_fd_cleared i p table count at gone = ground arith

-- fs_close of a descriptor that is not valid returns -1 and changes nothing; of a valid one it
-- returns 0, after which the descriptor is not valid, a second fs_close and an fs_stat return -1,
-- and the number of opens and the other entries are as they were.
pub fs_close_lem :
    (fd : ℤ) (s : State)
    → ((is_valid_fd fd s ≡ false) × (fs_close fd s ≡ returns (minus_one, s)))
      ⊎ ((s' : State) × (is_valid_fd fd s ≡ true)
          × (fs_close fd s ≡ returns (pos 0, s'))
          × (is_valid_fd fd s' ≡ false)
          × (fs_close fd s' ≡ returns (minus_one, s'))
          × (fs_stat fd s' ≡ returns minus_one)
          × (s'.file_system ≡ s.file_system)
          × (s'.fd_open_count ≡ s.fd_open_count)
          × (i : ℕ) × (e : FdTableEntry) × (fd ≡ pos i)
          × (s'.fd_table ≡ set s.fd_table i e))
unfolding fs_close fs_stat update_fd
fs_close_lem fd s = elim (Bool-cases (is_valid_fd fd s)) [
  | inr n ↦ inl (n, rw n)
  | inl y ↦
      let (i, e, num, at, _, _) =
        is_valid_fd_inversion fd s.file_system s.fd_table s.fd_open_count y in
      let s' : State = state s.file_system (set s.fd_table i (closed_entry e)) s.fd_open_count in
      let gone : is_valid_fd fd s' ≡ false = rw num (
        is_valid_fd_cleared i s.file_system (set s.fd_table i (closed_entry e)) s.fd_open_count
          (get_elem?-set_self s.fd_table i (closed_entry e) (lt_of_get_elem?-some s.fd_table i at))
          (strlen-cleared e.filename)) in
      inr (
        s',
        y,
        rw y (rw num (rw (update_fd, at))),
        gone,
        rw gone,
        rw gone,
        refl,
        refl,
        i,
        closed_entry e,
        num,
        refl,
      )
]

size_of_name-first :
    (name : Bytes) (before after : List RootEntry) (r : RootEntry)
    → name_taken name before ≡ false
    → same_string r.filename name ≡ true
    → size_of_name name (before ++ r ∷ after) ≡ r.file_size
unfolding size_of_name name_taken
size_of_name-first name [] after r free same =
    ground (arith, bytes_eq_comm (c_str r.filename) (c_str name))
size_of_name-first name (x ∷ before) after r free same =
    ground
      (arith, bytes_eq_comm (c_str x.filename) (c_str name), size_of_name-first name before after r)

size_of_name-absent :
    (name : Bytes) (es : List RootEntry) → name_taken name es ≡ false → size_of_name name es ≡ pos 0
unfolding size_of_name name_taken
size_of_name-absent name [] free = refl
size_of_name-absent name (x ∷ es) free =
    ground (arith, bytes_eq_comm (c_str x.filename) (c_str name), size_of_name-absent name es)

-- With a file system mounted, fs_stat of a descriptor whose name is not empty is the size of the
-- first file in the directory that has this name.
pub fs_stat_lem :
    (i count : ℕ) (fs : FsSystem) (table : List FdTableEntry) (e : FdTableEntry)
    (before after : List RootEntry) (r : RootEntry)
    → get_elem? table i ≡ some e
    → 0 < strlen e.filename
    → fs.root_dir ≡ before ++ r ∷ after
    → name_taken e.filename before ≡ false
    → same_string r.filename e.filename ≡ true
    → fs_stat (pos i) (state (live fs) table count) ≡ returns r.file_size
unfolding fs_stat
fs_stat_lem i count fs table e before after r at named dir free same = rw (
  is_valid_fd_at (live fs) table count i refl at named,
  fs_stat,
  at,
  dir,
  size_of_name-first e.filename before after r free same,
)

fs_stat_absent :
    (i count : ℕ) (p : Pointer FsSystem) (fs : FsSystem) (table : List FdTableEntry)
    (e : FdTableEntry)
    → p ≡ live fs
    → get_elem? table i ≡ some e
    → 0 < strlen e.filename
    → name_taken e.filename fs.root_dir ≡ false
    → fs_stat (pos i) (state p table count) ≡ returns (pos 0)
unfolding fs_stat
fs_stat_absent i count p fs table e on at named free = rw (
  is_valid_fd_at p table count i on at named,
  fs_stat,
  at,
  on,
  size_of_name-absent e.filename fs.root_dir free,
)

name_taken-c_str :
    (f g : Bytes) (es : List RootEntry) → c_str f ≡ c_str g → name_taken f es ≡ name_taken g es
unfolding name_taken
name_taken-c_str f g [] h = refl
name_taken-c_str f g (e ∷ es) h = rw (h, name_taken-c_str f g es h)

-- The size that fs_stat reports of a descriptor that fs_open has just returned is 0.
pub fs_stat-fs_open :
    (unspecified : Bool) (f : Bytes) (s s' : State) (n : ℕ)
    → fs_open unspecified f s ≡ returns (pos n, s')
    → fs_stat (pos n) s' ≡ returns (pos 0)
fs_stat-fs_open unspecified f s s' n h =
    let (_, _, (fs, on, free), same, valid, (e, at, _, name, _)) =
      fs_open_descriptor unspecified f s s' n h in
    let (i, e', num, at', named, _) =
      is_valid_fd_inversion (pos n) s'.file_system s'.fd_table s'.fd_open_count valid in
    let one : e' ≡ e = cc in
    rw num (
      fs_stat_absent i s'.fd_open_count s'.file_system fs s'.fd_table e' (same ∙ on) at' named (
        name_taken-c_str e'.filename f fs.root_dir
          (ap (λ (x : FdTableEntry). c_str x.filename) one ∙ name)
        ∙ free))
