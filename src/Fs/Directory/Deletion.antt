-- ===== src/Fs/Directory/Deletion.antt =====
-- fs_delete of libfs/fs.c: what it frees, and what it leaves behind.
use ecs150fs.Base.{
  ℕ, ◌/◌, ◌<◌, ◌≡◌, ◌≢◌, refl, inl, inr, Bool, true, false, Option, none, some, List, [], ◌∷◌, ◌++◌,
  ◌^◌, map, arith, if◌then◌else◌, Bool-cases, ap,
}
use ecs150fs.Base.Int.{ℤ, pos, minus_one}
use ecs150fs.Base.Lists.{length, get_elem?}
use ecs150fs.Base.Bytes.{Bytes, same_string, bytes_eq_comm, c_str}
use ecs150fs.Disk.{block_size}
use ecs150fs.Fs.State.{
  SuperBlock, RootEntry, FdTableEntry, FsSystem, State, Pointer, null, live, freed, returns,
  undefined, >>=-eq-returns, state,
}
use ecs150fs.Fs.Directory.{
  name_taken, reset_named, reset_entry, release, free_blocks, blocks_of, fs_create, fs_delete,
}
use ecs150fs.Fs.Directory.Creation.{fs_create_taken}
use ecs150fs.Fs.Directory.Chain.{Chain, clear, member, free_chain-clear, get_elem?-clear}

-- The reset entries keep their names.
name_taken-reset :
    (f g : Bytes) (es : List RootEntry) → name_taken g (reset_named f es).1 ≡ name_taken g es
unfolding name_taken reset_named
name_taken-reset f g [] = refl
name_taken-reset f g (e ∷ es) = ground (arith, name_taken-reset f g es)

reset_named-absent :
    (f : Bytes) (es : List RootEntry) → name_taken f es ≡ false → reset_named f es ≡ (none, es)
unfolding name_taken reset_named
reset_named-absent f [] h = refl
reset_named-absent f (e ∷ es) h =
    ground (arith, bytes_eq_comm (c_str f) (c_str e.filename), reset_named-absent f es)

reset_named-last :
    (f : Bytes) (before after : List RootEntry) (e : RootEntry)
    → same_string f e.filename ≡ true
    → name_taken f after ≡ false
    → (reset_named f (before ++ e ∷ after)).0 ≡ some e
unfolding reset_named
reset_named-last f [] after e h new = rw (h, reset_named-absent f after new)
reset_named-last f (x ∷ before) after e h new =
    ground (arith, reset_named-last f before after e h new)

abbrev pub reset_if_named : Bytes → RootEntry → RootEntry
reset_if_named f e = if same_string f e.filename then reset_entry e else e

pub reset_named-map :
    (f : Bytes) (es : List RootEntry) → (reset_named f es).1 ≡ map (reset_if_named f) es
unfolding reset_named
reset_named-map f [] = refl
reset_named-map f (e ∷ es) = ground (arith, reset_named-map f es)

abbrev pub mounted : SuperBlock → List RootEntry → Option (List ℕ) → Pointer FsSystem
mounted sp entries fat = live (record { sp = sp; root_dir = entries; fat_blocks = fat })

-- Whatever descriptors are open, fs_delete of a file, the last entry with its name, for which the
-- FAT holds a chain of as many entries as the file has whole blocks, the size divided by 4096 and
-- rounded down, returns 0, sets just those entries of the FAT to 0, and resets every entry with the
-- name.
pub fs_delete-frees :
    (f : Bytes) (sp : SuperBlock) (before after : List RootEntry) (e : RootEntry) (fat : List ℕ)
    (blocks : List ℕ) (n : ℕ) (table : List FdTableEntry) (count : ℕ)
    → same_string f e.filename ≡ true
    → name_taken f after ≡ false
    → e.file_size ≡ pos n
    → n < 2 ^ 31
    → Chain fat e.file_first_index blocks
    → length blocks ≡ n / block_size
    → let entries = before ++ e ∷ after in
      (fat' : List ℕ) × (fs_delete f (state (mounted sp entries (some fat)) table count)
        ≡ returns
            (pos 0, state (mounted sp (map (reset_if_named f) entries) (some fat')) table count))
      × ((j : ℕ) → get_elem? fat' j ≡ (if member j blocks then some 0 else get_elem? fat j))
unfolding fs_delete free_blocks
fs_delete-frees f sp before after e fat blocks n table count named new size small chain len =
    let rounds : blocks_of e ≡ length blocks = rw (size, len) (omega arith) in
    (
      clear blocks fat,
      rw (
        release,
        reset_named-last f before after e named new,
        reset_named-map f (before ++ e ∷ after),
        rounds,
        free_chain-clear blocks fat chain,
      ),
      λ j. get_elem?-clear blocks fat j chain,
    )

-- fs_delete is undefined with no file system mounted, and for a name that no entry of the mounted
-- one has.
pub fs_delete_undefined :
    (f : Bytes) (fs : FsSystem) (table : List FdTableEntry) (count : ℕ)
    → name_taken f fs.root_dir ≡ false
    → (fs_delete f (state (live fs) table count) ≡ undefined)
      × (fs_delete f (state null table count) ≡ undefined)
unfolding fs_delete
fs_delete_undefined f fs table count absent =
    (rw (reset_named-absent f fs.root_dir absent, release), refl)

release-returns :
    (deleted : Option RootEntry) (entries : List RootEntry) (fs : FsSystem) (s : State) {r : ℤ}
    {s' : State}
    → release deleted entries fs s ≡ returns (r, s')
    → (deleted ≢ none)
      × (r ≡ pos 0)
      × (fat : Option (List ℕ)) × (s' ≡ record s { file_system = mounted fs.sp entries fat })
unfolding release
release-returns none entries fs s h = cc
release-returns (some e) entries fs s h =
    let (fat, _, q) = >>=-eq-returns (free_blocks e fs.fat_blocks) _ h in (cc, cc, fat, cc)

-- A deletion that returns has returned 0; every name in the directory is in it as before, the
-- deleted one too.
pub fs_delete-names :
    (f : Bytes) (p : Pointer FsSystem) (table : List FdTableEntry) (count : ℕ) {r : ℤ} {s' : State}
    → fs_delete f (state p table count) ≡ returns (r, s')
    → (fs fs' : FsSystem) × (p ≡ live fs)
      × (r ≡ pos 0)
      × (s' ≡ state (live fs') table count)
      × (name_taken f fs.root_dir ≡ true)
      × (fs'.root_dir ≡ map (reset_if_named f) fs.root_dir)
unfolding fs_delete
fs_delete-names f null table count h = cc
fs_delete-names f freed table count h = cc
fs_delete-names f (live fs) table count h =
    let (some_deleted, r, fat, s') = release-returns (reset_named f fs.root_dir).0 _ fs _ h in
    (
      fs,
      record fs { root_dir = (reset_named f fs.root_dir).1; fat_blocks = fat },
      refl,
      r,
      s',
      elim (Bool-cases (name_taken f fs.root_dir)) [
        | inl y ↦ y
        | inr n ↦ absurd (some_deleted (ap (λ q. q.0) (reset_named-absent f fs.root_dir n)))
      ],
      reset_named-map f fs.root_dir,
    )

-- A deleted file keeps its name in the directory: after an fs_delete that returned, fs_create of
-- the same name returns -1 and changes nothing.
pub fs_create-fs_delete :
    (unspecified : Bool) (f : Bytes) (s s' : State) {r : ℤ}
    → fs_delete f s ≡ returns (r, s')
    → fs_create unspecified f s' ≡ returns (minus_one, s')
fs_create-fs_delete unspecified f s s' h =
    let (fs, fs', _, _, e, taken, same) =
      fs_delete-names f s.file_system s.fd_table s.fd_open_count h in
    rw e (
      fs_create_taken unspecified f fs' s.fd_table s.fd_open_count
        (rw (same, ← reset_named-map f fs.root_dir, name_taken-reset f f fs.root_dir) taken))

-- The table of descriptors is left alone.
pub fs_delete-table :
    (f : Bytes) (s s' : State) {r : ℤ}
    → fs_delete f s ≡ returns (r, s')
    → (s'.fd_table ≡ s.fd_table) × (s'.fd_open_count ≡ s.fd_open_count)
fs_delete-table f s s' h =
    let (_, _, _, _, e, _, _) = fs_delete-names f s.file_system s.fd_table s.fd_open_count h in
    (ap (λ (t : State). t.fd_table) e, ap (λ (t : State). t.fd_open_count) e)
