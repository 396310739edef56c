-- ===== src/Fs/Descriptors/Opening.antt =====
-- fs_open of libfs/fs.c: when it gives a descriptor, and which.
use ecs150fs.Base.{
  ℕ, ◌+◌, ◌≤◌, ◌<◌, ◌≡◌, refl, ◌⊎◌, inl, inr, Bool, true, false, ◌∙◌, ap, sym, some, List, arith,
  ◌==◌, Bool-cases, Option-cases,
}
use ecs150fs.Base.Int.{ℤ, pos, minus_one}
use ecs150fs.Base.Lists.{
  length, get_elem?, set, get_elem?-set_self, le_of_get_elem?-none, lt_of_get_elem?-some,
}
use ecs150fs.Base.Bytes.{Bytes, c_str, strcpy, strlen, c_str-strcpy}
use ecs150fs.Fs.State.{
  FdTableEntry, FsSystem, State, Pointer, null, live, freed, Outcome, returns, undefined, state,
}
use ecs150fs.Fs.Directory.{is_valid_name, name_taken, fs_create}
use ecs150fs.Fs.Directory.Naming.{is_valid_name_lem}
use ecs150fs.Fs.Directory.Creation.{fs_create-taken}
use ecs150fs.Fs.Descriptors.{fs_open, update_fd, is_valid_fd}

-- The entry that `fs_open` writes over `e`.
abbrev pub opened_entry : Bytes → FdTableEntry → FdTableEntry
opened_entry f e = record { filename = strcpy e.filename f; offset = 0; used = true }

module _ (unspecified : Bool) (f : Bytes) (s : State) where
  -- What a call of `fs_open` can have done: it returned -1 and changed nothing; or it returned the
  -- number of opens so far, for a name that no file of the mounted file system has.
  abbrev pub Opened : Outcome (ℤ × State) → Type 0
  Opened undefined = (s.file_system ≡ freed) ⊎ (length s.fd_table < s.fd_open_count)
  Opened (returns (r, s')) =
      ((r ≡ minus_one) × (s' ≡ s))
      ⊎ ((fs : FsSystem) × (e : FdTableEntry) × (s.file_system ≡ live fs)
          × (is_valid_name unspecified f ≡ true)
          × (name_taken f fs.root_dir ≡ false)
          × (get_elem? s.fd_table s.fd_open_count ≡ some e)
          × (r ≡ pos s.fd_open_count)
          × (s' ≡ record s {
            fd_table = set s.fd_table s.fd_open_count (opened_entry f e);
            fd_open_count = s.fd_open_count + 1;
          }))

Opened-at :
    (unspecified : Bool) (f : Bytes) (p : Pointer FsSystem) (table : List FdTableEntry) (count : ℕ)
    → Opened unspecified f (state p table count) (fs_open unspecified f (state p table count))
unfolding fs_open update_fd
Opened-at unspecified f null table count = inl (refl, refl)
Opened-at unspecified f freed table count = elim (Bool-cases (is_valid_name unspecified f)) [
  | inl y ↦ elim (Bool-cases (count == length table)) [
    | inl c ↦ rw (y, c) (inl (refl, refl))
    | inr c ↦ rw (y, c) (inl refl)
  ]
  | inr n ↦ rw n (inl (refl, refl))
]
Opened-at unspecified f (live fs) table count = elim (Bool-cases (is_valid_name unspecified f)) [
  | inl y ↦ elim (Bool-cases (count == length table)) [
    | inl c ↦ rw (y, c) (inl (refl, refl))
    | inr c ↦ elim (Bool-cases (name_taken f fs.root_dir)) [
      | inl t ↦ rw (y, c, t) (inl (refl, refl))
      | inr t ↦ elim (Option-cases (get_elem? table count)) [
        | inl o ↦
            rw (y, c, t, update_fd, o) (inr (ground (arith, le_of_get_elem?-none table count o)))
        | inr (e, o) ↦ rw (y, c, t, update_fd, o) (inr (fs, e, refl, y, t, o, refl, refl))
      ]
    ]
  ]
  | inr n ↦ rw n (inl (refl, refl))
]

-- Every call of `fs_open` ends so; the undefined ends are a call after `fs_unmount`, and one with
-- more opens counted than the table has entries.
pub fs_open-Opened :
    (unspecified : Bool) (f : Bytes) (s : State) → Opened unspecified f s (fs_open unspecified f s)
fs_open-Opened unspecified f s = Opened-at unspecified f s.file_system s.fd_table s.fd_open_count

-- The test for existence is inverted: with a file system mounted, `fs_open` of a name that is in
-- the directory returns -1 and changes nothing.
pub fs_open_existing :
    (unspecified : Bool) (f : Bytes) (s : State) (fs : FsSystem)
    → s.file_system ≡ live fs
    → name_taken f fs.root_dir ≡ true
    → s.fd_open_count ≤ length s.fd_table
    → fs_open unspecified f s ≡ returns (minus_one, s)
fs_open_existing unspecified f s fs mounted taken room =
    go (fs_open unspecified f s) (fs_open-Opened unspecified f s)
  where
    go : (o : Outcome (ℤ × State)) → Opened unspecified f s o → o ≡ returns (minus_one, s)
    go undefined (inl h) = absurd (ground arith)
    go undefined (inr h) = absurd (omega arith)
    go (returns (r, s')) (inl (p, q)) = rw (p, q)
    go (returns (r, s')) (inr (fs', e, at, _, free, _, _, _)) =
        let same : live fs' ≡ live fs = sym at ∙ mounted in absurd (ground arith)

-- A file that fs_create has just made cannot be opened: with no more opens counted than the table
-- has entries, fs_open of its name returns -1 and changes nothing.
pub fs_open-fs_create :
    (unspecified unspecified' : Bool) (f : Bytes) (s s' : State)
    → fs_create unspecified f s ≡ returns (pos 0, s')
    → s'.fd_open_count ≤ length s'.fd_table
    → fs_open unspecified' f s' ≡ returns (minus_one, s')
fs_open-fs_create unspecified unspecified' f s s' h room =
    let (fs, mounted, taken) = fs_create-taken unspecified f s s' h in
    fs_open_existing unspecified' f s' fs mounted taken room

-- A descriptor in the table whose name is not empty is valid while a file system is mounted.
pub is_valid_fd_at :
    (p : Pointer FsSystem) (table : List FdTableEntry) (count n : ℕ) {fs : FsSystem}
    {e : FdTableEntry}
    → p ≡ live fs
    → get_elem? table n ≡ some e
    → 0 < strlen e.filename
    → is_valid_fd (pos n) (state p table count) ≡ true
unfolding is_valid_fd
is_valid_fd_at p table count n on at named = rw (on, at) (ground arith)

named_of_valid :
    (unspecified : Bool) (f : Bytes) → is_valid_name unspecified f ≡ true → 0 < strlen f
named_of_valid unspecified f h = ground (arith, is_valid_name_lem unspecified f)

-- An fs_open that returns a descriptor was given a name that no file of the mounted file system
-- has; it returns the number of opens so far and counts one more, and the new descriptor is valid,
-- its entry, the only one to change, having the name and offset 0.
pub fs_open_descriptor :
    (unspecified : Bool) (f : Bytes) (s s' : State) (n : ℕ)
    → fs_open unspecified f s ≡ returns (pos n, s')
    → (n ≡ s.fd_open_count)
      × (s'.fd_open_count ≡ n + 1)
      × ((fs : FsSystem) × (s.file_system ≡ live fs) × (name_taken f fs.root_dir ≡ false))
      × (s'.file_system ≡ s.file_system)
      × (is_valid_fd (pos n) s' ≡ true)
      × ((e : FdTableEntry) × (get_elem? s'.fd_table n ≡ some e)
          × (s'.fd_table ≡ set s.fd_table n e)
          × (c_str e.filename ≡ c_str f)
          × (e.offset ≡ 0))
fs_open_descriptor unspecified f s s' n h =
    let made : Opened unspecified f s (returns (pos n, s')) =
      rw h at (fs_open-Opened unspecified f s) in
    elim made [
      | inl (r, _) ↦ cc
      | inr (fs, e, on, valid, free, at, r, t) ↦
          let now =
            get_elem?-set_self s.fd_table s.fd_open_count (opened_entry f e)
              (lt_of_get_elem?-some _ _ at) in
          let count : n ≡ s.fd_open_count = ground arith in
          (
            count,
            ground arith,
            (fs, on, free),
            ap (λ (u : State). u.file_system) t,
            rw (t, count)
                (is_valid_fd_at s.file_system _ _ s.fd_open_count on now (
                  rw (ap (λ c. length c) (c_str-strcpy e.filename f))
                    (named_of_valid unspecified f valid))),
            (
              opened_entry f e,
              rw (t, count) now,
              ap (λ (u : State). u.fd_table) t ∙ rw (← count),
              c_str-strcpy e.filename f,
              refl,
            ),
          )
    ]
