-- ===== src/Fs/Directory/Making.antt =====
-- fs_create of libfs/fs.c: every way in which it ends, and what becomes of each directory entry.
use ecs150fs.Base.{
  ℕ, ◌<◌, ◌≡◌, refl, ◌⊎◌, inl, inr, Bool, true, false, List, [], ◌∷◌, arith, Bool-cases,
}
use ecs150fs.Base.Int.{ℤ, pos, minus_one}
use ecs150fs.Base.Bytes.{Bytes, c_str, c_str-strcpy}
use ecs150fs.Fs.State.{
  RootEntry, FsSystem, State, FdTableEntry, Pointer, null, live, freed, Outcome, returns, undefined,
  state,
}
use ecs150fs.Fs.Directory.{is_valid_name, name_taken, fill_free, fs_create, empty}
use ecs150fs.Fs.Directory.Creation.{any_free, fill_free-found, fill_free-same}

-- Entry by entry, a directory and what it becomes: an entry in use stays, and one whose flag says
-- that it is empty becomes a file of the name, without bytes and without a first block.
pub data Filled (f : Bytes) : List RootEntry → List RootEntry → Type 0 where
  at_end : Filled f [] []
  kept :
      {e : RootEntry} {es es' : List RootEntry}
      → e.is_empty ≡ 0
      → Filled f es es'
      → Filled f (e ∷ es) (e ∷ es')
  made :
      {e e' : RootEntry} {es es' : List RootEntry}
      → 0 < e.is_empty
      → c_str e'.filename ≡ c_str f
      → e'.file_size ≡ pos 0
      → e'.file_first_index ≡ minus_one
      → e'.padding ≡ e.padding
      → e'.is_empty ≡ 0
      → e'.unused ≡ e.unused
      → Filled f es es'
      → Filled f (e ∷ es) (e' ∷ es')

in_use : (e : RootEntry) → empty e ≡ false → e.is_empty ≡ 0
in_use e h = ground arith

not_in_use : (e : RootEntry) → empty e ≡ true → 0 < e.is_empty
not_in_use e h = ground arith

fill_free-Filled : (f : Bytes) (es : List RootEntry) → Filled f es (fill_free f es).1
unfolding fill_free
fill_free-Filled f [] = at_end
fill_free-Filled f (e ∷ es) = elim (Bool-cases (empty e)) [
  | inl y ↦ rw y (
      made (not_in_use e y) (c_str-strcpy e.filename f) refl refl refl refl refl
        (fill_free-Filled f es))
  | inr n ↦ rw n (kept (in_use e n) (fill_free-Filled f es))
]

module _ (unspecified : Bool) (f : Bytes) (s : State) where
  -- Why a call of `fs_create` refuses.
  abbrev pub Refuses : Type 0
  Refuses =
      (s.file_system ≡ null)
      ⊎ (is_valid_name unspecified f ≡ false)
      ⊎ ((fs : FsSystem) × (s.file_system ≡ live fs)
          × ((name_taken f fs.root_dir ≡ true) ⊎ (any_free fs.root_dir ≡ false)))

  -- What it does otherwise.
  abbrev pub Makes : ℤ → State → Type 0
  Makes r s' =
      (fs : FsSystem) × (entries : List RootEntry) × (s.file_system ≡ live fs)
      × (is_valid_name unspecified f ≡ true)
      × (name_taken f fs.root_dir ≡ false)
      × (any_free fs.root_dir ≡ true)
      × (r ≡ pos 0)
      × Filled f fs.root_dir entries
      × (s' ≡ record s { file_system = live (record fs { root_dir = entries }) })

  abbrev pub CreateEnds : Outcome (ℤ × State) → Type 0
  CreateEnds undefined = (s.file_system ≡ freed) × (is_valid_name unspecified f ≡ true)
  CreateEnds (returns (r, s')) = ((r ≡ minus_one) × (s' ≡ s) × Refuses) ⊎ Makes r s'

ends_at :
    (unspecified : Bool) (f : Bytes) (p : Pointer FsSystem) (table : List FdTableEntry) (count : ℕ)
    → CreateEnds unspecified f (state p table count) (fs_create unspecified f (state p table count))
unfolding fs_create
ends_at unspecified f null table count = inl (refl, refl, inl refl)
ends_at unspecified f freed table count = elim (Bool-cases (is_valid_name unspecified f)) [
  | inl y ↦ rw y (refl, y)
  | inr n ↦ rw n (inl (refl, refl, inr (inl n)))
]
ends_at unspecified f (live fs) table count = elim (Bool-cases (is_valid_name unspecified f)) [
  | inl y ↦ elim (Bool-cases (name_taken f fs.root_dir)) [
    | inl t ↦ rw (y, t) (inl (refl, refl, inr (inr (fs, refl, inl t))))
    | inr t ↦ elim (Bool-cases (any_free fs.root_dir)) [
      | inl a ↦
          rw (y, t, fill_free-found, a)
            (inr (fs, _, refl, y, t, a, refl, fill_free-Filled f fs.root_dir, refl))
      | inr a ↦
          rw (y, t, fill_free-found, a, fill_free-same f fs.root_dir a)
            (inl (refl, refl, inr (inr (fs, refl, inr a))))
    ]
  ]
  | inr n ↦ rw n (inl (refl, refl, inr (inl n)))
]

-- Every way in which fs_create ends. It returns -1 and changes nothing: with no file system, for a
-- name that isValidName refuses, for a name that is in the directory, or with no free entry.
-- Otherwise it returns 0, and every free entry, not just the first, has become a file of the name
-- with size 0, first block FAT_EOC and its flag cleared, while the other entries and all other
-- variables are as they were. It is undefined just for a name that is accepted after fs_unmount.
pub fs_create_lem :
    (unspecified : Bool) (f : Bytes) (s : State)
    → CreateEnds unspecified f s (fs_create unspecified f s)
fs_create_lem unspecified f s = ends_at unspecified f s.file_system s.fd_table s.fd_open_count
