-- ===== src/Fs/Directory/Creation.antt =====
-- fs_create of libfs/fs.c: when it succeeds, and what it leaves.
use ecs150fs.Base.{
  ℕ, ◌≡◌, refl, ◌⊎◌, inl, inr, Bool, true, false, ◌||◌, List, [], ◌∷◌, arith, Bool-cases, ap,
}
use ecs150fs.Base.Int.{ℤ, pos, minus_one}
use ecs150fs.Base.Bytes.{Bytes, same_string, c_str-strcpy, bytes_eq_iff}
use ecs150fs.Fs.State.{
  RootEntry, FsSystem, State, FdTableEntry, Pointer, null, live, freed, Outcome, returns, undefined,
  state,
}
use ecs150fs.Fs.Directory.{is_valid_name, name_taken, fill_free, fs_create, empty, new_entry}

abbrev pub any_free : List RootEntry → Bool
any_free [] = false
any_free (e ∷ es) = empty e || any_free es

pub fill_free-found : (f : Bytes) (es : List RootEntry) → (fill_free f es).0 ≡ any_free es
unfolding fill_free
fill_free-found f [] = refl
fill_free-found f (e ∷ es) = ground (arith, fill_free-found f es)

pub fill_free-none_left : (f : Bytes) (es : List RootEntry) → any_free (fill_free f es).1 ≡ false
unfolding fill_free
fill_free-none_left f [] = refl
fill_free-none_left f (e ∷ es) = ground (arith, fill_free-none_left f es)

pub fill_free-same :
    (f : Bytes) (es : List RootEntry) → any_free es ≡ false → (fill_free f es).1 ≡ es
unfolding fill_free
fill_free-same f [] h = refl
fill_free-same f (e ∷ es) h = ground (arith, fill_free-same f es)

same_string-new_entry : (f : Bytes) (e : RootEntry) → same_string (new_entry f e).filename f ≡ true
same_string-new_entry f e = (bytes_eq_iff _ _).1 (c_str-strcpy e.filename f)

fill_free-taken :
    (f : Bytes) (es : List RootEntry) → any_free es ≡ true → name_taken f (fill_free f es).1 ≡ true
unfolding fill_free name_taken
fill_free-taken f [] h = cc
fill_free-taken f (e ∷ es) h = elim (Bool-cases (empty e)) [
  | inl y ↦ rw (y, same_string-new_entry f e)
  | inr n ↦ ground (arith, fill_free-taken f es)
]

module _ (unspecified : Bool) (f : Bytes) (s : State) where
  -- What a call of `fs_create` can have done: it returned -1 and changed nothing; or it returned 0
  -- with a mounted file system whose directory had a free entry and no entry of the name.
  abbrev pub Created : Outcome (ℤ × State) → Type 0
  Created undefined = s.file_system ≡ freed
  Created (returns (r, s')) =
      ((r ≡ minus_one) × (s' ≡ s))
      ⊎ ((fs : FsSystem) × (s.file_system ≡ live fs)
          × (r ≡ pos 0)
          × (is_valid_name unspecified f ≡ true)
          × (name_taken f fs.root_dir ≡ false)
          × (any_free fs.root_dir ≡ true)
          × (s' ≡ record s {
            file_system = live (record fs { root_dir = (fill_free f fs.root_dir).1 });
          }))

Created-at :
    (unspecified : Bool) (f : Bytes) (p : Pointer FsSystem) (table : List FdTableEntry) (count : ℕ)
    → Created unspecified f (state p table count) (fs_create unspecified f (state p table count))
unfolding fs_create
Created-at unspecified f null table count = inl (refl, refl)
Created-at unspecified f freed table count = elim (Bool-cases (is_valid_name unspecified f)) [
  | inl y ↦ rw y refl
  | inr n ↦ rw n (inl (refl, refl))
]
Created-at unspecified f (live fs) table count = elim (Bool-cases (is_valid_name unspecified f)) [
  | inl y ↦ elim (Bool-cases (name_taken f fs.root_dir)) [
    | inl t ↦ rw (y, t) (inl (refl, refl))
    | inr t ↦ elim (Bool-cases (any_free fs.root_dir)) [
      | inl a ↦ rw (y, t, fill_free-found, a) (inr (fs, refl, refl, y, t, a, refl))
      | inr a ↦ rw (y, t, fill_free-found, a, fill_free-same f fs.root_dir a) (inl (refl, refl))
    ]
  ]
  | inr n ↦ rw n (inl (refl, refl))
]

-- Every call of fs_create returns -1 and changes nothing, or returns 0 with a mounted file system
-- whose directory had a free entry and no entry of the name, every free entry having become the new
-- file; it is undefined only after fs_unmount.
pub fs_create-Created :
    (unspecified : Bool) (f : Bytes) (s : State)
    → Created unspecified f s (fs_create unspecified f s)
fs_create-Created unspecified f s =
    Created-at unspecified f s.file_system s.fd_table s.fd_open_count

fs_create_full :
    (unspecified : Bool) (f : Bytes) (fs : FsSystem) (table : List FdTableEntry) (count : ℕ)
    → any_free fs.root_dir ≡ false
    → fs_create unspecified f (state (live fs) table count)
      ≡ returns (minus_one, state (live fs) table count)
unfolding fs_create
fs_create_full unspecified f fs table count full = elim (Bool-cases (is_valid_name unspecified f)) [
  | inl y ↦ elim (Bool-cases (name_taken f fs.root_dir)) [
    | inl t ↦ rw (y, t)
    | inr t ↦ rw (y, t, fill_free-found, full, fill_free-same f fs.root_dir full)
  ]
  | inr n ↦ rw n
]

pub fs_create_taken :
    (unspecified : Bool) (f : Bytes) (fs : FsSystem) (table : List FdTableEntry) (count : ℕ)
    → name_taken f fs.root_dir ≡ true
    → fs_create unspecified f (state (live fs) table count)
      ≡ returns (minus_one, state (live fs) table count)
unfolding fs_create
fs_create_taken unspecified f fs table count taken =
    elim (Bool-cases (is_valid_name unspecified f)) [ inl y ↦ rw (y, taken) | inr n ↦ rw n ]

-- fs_create takes every free entry of the root directory: after a call that returned 0 each further
-- call, for whatever name, returns -1 and changes nothing.
pub fs_create-fs_create :
    (unspecified unspecified' : Bool) (f g : Bytes) (s s' : State)
    → fs_create unspecified f s ≡ returns (pos 0, s')
    → fs_create unspecified' g s' ≡ returns (minus_one, s')
fs_create-fs_create unspecified unspecified' f g s s' h =
    let made : Created unspecified f s (returns (pos 0, s')) =
      rw h at (fs_create-Created unspecified f s) in
    elim made [
      | inl (r, _) ↦ cc
      | inr (fs, _, _, _, _, _, e) ↦ rw e (
          fs_create_full unspecified' g (record fs { root_dir = (fill_free f fs.root_dir).1 })
            s.fd_table s.fd_open_count (fill_free-none_left f fs.root_dir))
    ]

-- What a successful `fs_create` leaves: a mounted file system in whose directory the name is taken.
pub fs_create-taken :
    (unspecified : Bool) (f : Bytes) (s s' : State)
    → fs_create unspecified f s ≡ returns (pos 0, s')
    → (fs : FsSystem) × (s'.file_system ≡ live fs) × (name_taken f fs.root_dir ≡ true)
fs_create-taken unspecified f s s' h =
    let made : Created unspecified f s (returns (pos 0, s')) =
      rw h at (fs_create-Created unspecified f s) in
    elim made [
      | inl (r, _) ↦ cc
      | inr (fs, _, _, _, _, a, e) ↦ (
        record fs { root_dir = (fill_free f fs.root_dir).1 },
        ap (λ (t : State). t.file_system) e,
        fill_free-taken f fs.root_dir a,
      )
    ]
