-- ===== src/Revisions/Fs3/Creation.antt =====
-- fs_create and fs_delete of libfs/fs3.0.c.
use ecs150fs.Base.{ℕ, ◌+◌, ◌≡◌, refl, inl, inr, ap, Bool, true, false, List, [], ◌∷◌, Bool-cases}
use ecs150fs.Base.Int.{ℤ, pos, minus_one}
use ecs150fs.Base.Bytes.{Bytes, same_string}
use ecs150fs.Fs.State.{live, freed, null, returns, >>=-eq-returns}
use ecs150fs.Fs.Directory.{is_valid_name}
use ecs150fs.Revisions.Structures.{RootEntry, FsSystem, State, listing}
use ecs150fs.Revisions.Creating.Erasing.{
  erased, listing_behind, name_taken, create_entry_lem, listing-erased, listing_behind-absent,
}
use ecs150fs.Revisions.Fs3.{fs_create, fs_ls, fs_delete, reset_named, follow_chain}

create_lem :
    (unspecified : Bool) (f : Bytes) (fs : FsSystem)
    → is_valid_name unspecified f ≡ true
    → fs_create unspecified f (live fs)
      ≡ returns (minus_one, live (record fs { root_dir = erased f fs.root_dir }))
unfolding fs_create
create_lem unspecified f fs valid = rw (valid, create_entry_lem f fs) refl

-- With a file system mounted, fs_create of fs3.0.c of a name that isValidName accepts returns -1,
-- and fs_ls then shows of the files just those from the first with this name on: the names in front
-- of it, all of them if no file has it, are gone.
pub fs_create_erases :
    (unspecified : Bool) (f : Bytes) (fs : FsSystem)
    → is_valid_name unspecified f ≡ true
    → (s' : State) × (fs_create unspecified f (live fs) ≡ returns (minus_one, s'))
      × (fs_ls s' ≡ returns (pos 0, listing_behind f 0 fs.root_dir))
unfolding fs_ls
fs_create_erases unspecified f fs valid =
    let s' = live (record fs { root_dir = erased f fs.root_dir }) in
    (
      s',
      create_lem unspecified f fs valid,
      ap (λ lines. returns (pos 0, lines)) (listing-erased 0 f fs.root_dir),
    )

-- If no file has the name, fs_create leaves a directory of which fs_ls shows nothing.
pub fs_create_empties :
    (unspecified : Bool) (f : Bytes) (fs : FsSystem)
    → is_valid_name unspecified f ≡ true
    → name_taken f fs.root_dir ≡ false
    → (s' : State) × (fs_create unspecified f (live fs) ≡ returns (minus_one, s'))
      × (fs_ls s' ≡ returns (pos 0, []))
fs_create_empties unspecified f fs valid fresh =
    let (s', made, shown) = fs_create_erases unspecified f fs valid in
    (s', made, rw (listing_behind-absent 0 f fs.root_dir fresh) at shown)

listing-reset_named :
    (i : ℕ) (f : Bytes) (es : List RootEntry) → listing i (reset_named f es).1 ≡ listing i es
unfolding listing reset_named
listing-reset_named i f [] = refl
listing-reset_named i f (e ∷ es) = elim (Bool-cases (same_string f e.filename)) [
  | inl y ↦ rw (y, listing-reset_named (i + 1) f es)
  | inr n ↦ rw (n, listing-reset_named (i + 1) f es)
]

-- What fs_ls shows is the same after an fs_delete that returned.
pub fs_ls-fs_delete :
    (f : Bytes) (s s' : State) (r : ℤ) → fs_delete f s ≡ returns (r, s') → fs_ls s' ≡ fs_ls s
unfolding fs_delete fs_ls
fs_ls-fs_delete f null s' r h = cc
fs_ls-fs_delete f freed s' r h = cc
fs_ls-fs_delete f (live fs) s' r h =
    let (r', followed, e) = >>=-eq-returns (follow_chain (reset_named f fs.root_dir).0) _ h in
    let same : live (record fs { root_dir = (reset_named f fs.root_dir).1 }) ≡ s' = cc in
    rw (← same) (ap (λ lines. returns (pos 0, lines)) (listing-reset_named 0 f fs.root_dir))
