-- ===== src/Revisions/Creating/Erasing.antt =====
-- What the search of fs_create does to the directory.
use ecs150fs.Base.{
  ℕ, ◌+◌, ◌≡◌, refl, inl, inr, Bool, false, ◌||◌, List, [], ◌∷◌, if◌then◌else◌, Bool-cases, arith,
}
use ecs150fs.Base.Int.{minus_one}
use ecs150fs.Base.Lists.{set}
use ecs150fs.Base.Bytes.{Bytes, strlen, same_string}
use ecs150fs.Fs.State.{live, returns}
use ecs150fs.Revisions.Structures.{RootEntry, FsSystem, listing}
use ecs150fs.Revisions.Creating.{exists, full, clean, search, create_entry, no_entry_filename}

abbrev pub name_taken : Bytes → List RootEntry → Bool
name_taken filename [] = false
name_taken filename (e ∷ es) = same_string filename e.filename || name_taken filename es

-- The entries before the first with the name lose their names.
abbrev pub erased : Bytes → List RootEntry → List RootEntry
erased filename [] = []
erased filename (e ∷ es) =
    let rest = erased filename es in
    if same_string filename e.filename then e ∷ es else clean e ∷ rest

-- The lines that `fs_ls` has for the entries from the first with the name on.
abbrev pub listing_behind : Bytes → ℕ → List RootEntry → List (ℕ × Bytes)
listing_behind filename i [] = []
listing_behind filename i (e ∷ es) =
    let rest = listing_behind filename (i + 1) es in
    if same_string filename e.filename then listing i (e ∷ es) else rest

search_lem :
    (i : ℕ) (f : Bytes) (es : List RootEntry)
    → search i f es ≡ ((if name_taken f es then exists else full), erased f es)
unfolding search no_entry_filename
search_lem i f [] = refl
search_lem i f (e ∷ es) = elim (Bool-cases (same_string f e.filename)) [
  | inl y ↦ rw y
  | inr n ↦ rw (n, search_lem (i + 1) f es)
]

pub create_entry_lem :
    (f : Bytes) (fs : FsSystem)
    → create_entry f fs ≡ returns (minus_one, live (record fs { root_dir = erased f fs.root_dir }))
unfolding create_entry
create_entry_lem f fs = elim (Bool-cases (name_taken f fs.root_dir)) [
  | inl y ↦ rw (create_entry, search_lem 0 f fs.root_dir, y, search_lem 0 f fs.root_dir) refl
  | inr n ↦ rw (create_entry, search_lem 0 f fs.root_dir, n, search_lem 0 f fs.root_dir) refl
]

strlen-clean : (s : Bytes) → strlen (set s 0 0) ≡ 0
strlen-clean [] = refl
strlen-clean (c ∷ s) = refl

pub listing-erased :
    (i : ℕ) (f : Bytes) (es : List RootEntry) → listing i (erased f es) ≡ listing_behind f i es
unfolding listing
listing-erased i f [] = refl
listing-erased i f (e ∷ es) = elim (Bool-cases (same_string f e.filename)) [
  | inl y ↦ rw y
  | inr n ↦ rw (n, strlen-clean e.filename, listing-erased (i + 1) f es)
]

pub listing_behind-absent :
    (i : ℕ) (f : Bytes) (es : List RootEntry) → name_taken f es ≡ false → listing_behind f i es ≡ []
listing_behind-absent i f [] h = refl
listing_behind-absent i f (e ∷ es) h = elim (Bool-cases (same_string f e.filename)) [
  | inl y ↦ absurd (ground arith)
  | inr n ↦ rw n (listing_behind-absent (i + 1) f es (ground arith))
]
