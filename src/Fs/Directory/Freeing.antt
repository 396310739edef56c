-- ===== src/Fs/Directory/Freeing.antt =====
-- fs_delete and fs_create of libfs/fs.c on a file system whose files have chains of their own.
use ecs150fs.Base.{
  ℕ, ◌≡◌, refl, ◌∙◌, sym, Bool, true, false, some, List, [], ◌∷◌, arith, Bool-cases, Option-cases,
  inl, inr,
}
use ecs150fs.Base.Int.{ℤ, pos}
use ecs150fs.Base.Lists.{length}
use ecs150fs.Base.Bytes.{Bytes, same_string, bytes_eq_comm, c_str}
use ecs150fs.Fs.State.{
  RootEntry, FdTableEntry, FsSystem, State, Pointer, live, returns, undefined, state,
  state_of_returns,
}
use ecs150fs.Fs.Directory.{
  name_taken, reset_named, fill_free, free_blocks, blocks_of, fs_create, fs_delete, release,
}
use ecs150fs.Fs.Directory.Chain.{clear, free_chain-clear, Chain}
use ecs150fs.Fs.Directory.Creation.{Created, fs_create-Created}
use ecs150fs.Fs.Directory.Deletion.{fs_delete_undefined}
use ecs150fs.Fs.Directory.Owning.{
  Owns, Owns-Emptied, Owns-clear, reset_named-Found, fill_free-Emptied,
}

-- A file system is mounted, and every file has a chain of its own in its FAT.
pub record IsSound (s : State) : Type 0 where
  pub fs : FsSystem
  pub fat : List ℕ
  pub used : List ℕ
  pub mounted : s.file_system ≡ live fs
  pub has_fat : fs.fat_blocks ≡ some fat
  pub owns : Owns fat fs.root_dir used

reset_named-taken :
    (f : Bytes) (es : List RootEntry)
    → name_taken f es ≡ true
    → (e : RootEntry) × ((reset_named f es).0 ≡ some e)
unfolding name_taken reset_named
reset_named-taken f [] h = cc
reset_named-taken f (e ∷ es) h = elim (Bool-cases (same_string f e.filename)) [
  | inl y ↦ elim (Option-cases (reset_named f es).0) [
    | inl nobody ↦ (e, rw (y, nobody))
    | inr (l, later) ↦ (l, rw (y, later))
  ]
  | inr n ↦
      let (l, later) =
        reset_named-taken f es (ground (arith, bytes_eq_comm (c_str f) (c_str e.filename))) in
      (l, rw (n, later))
]

fs_delete-clear :
    (f : Bytes) (fs : FsSystem) (e : RootEntry) (fat blocks : List ℕ) (p : Pointer FsSystem)
    (table : List FdTableEntry) (count : ℕ)
    → p ≡ live fs
    → fs.fat_blocks ≡ some fat
    → (reset_named f fs.root_dir).0 ≡ some e
    → Chain fat e.file_first_index blocks
    → length blocks ≡ blocks_of e
    → fs_delete f (state p table count)
      ≡ returns (
        pos 0,
        state
            (live (record fs {
              root_dir = (reset_named f fs.root_dir).1;
              fat_blocks = some (clear blocks fat);
            }))
            table
            count,
      )
unfolding fs_delete free_blocks reset_named
fs_delete-clear f fs e fat blocks p table count on has_fat looked_up chain size =
    rw (on, looked_up, release, has_fat, ← size, free_chain-clear blocks fat chain)

-- With a mounted file system whose files each have a chain of their own in the FAT, as long as
-- their whole blocks, the walk of fs_delete ends inside the FAT: for every name in the directory,
-- one that several entries have or that is open too, fs_delete returns 0, and the files still have
-- chains of their own.
pub fs_delete-IsSound :
    (f : Bytes) (s : State) (sound : IsSound s)
    → name_taken f sound.fs.root_dir ≡ true
    → (s' : State) × (fs_delete f s ≡ returns (pos 0, s')) × IsSound s'
fs_delete-IsSound f s sound taken =
    let (e, looked_up) = reset_named-taken f sound.fs.root_dir taken in
    let found = reset_named-Found f sound.owns looked_up in
    (
      _,
      fs_delete-clear f sound.fs e sound.fat found.blocks s.file_system s.fd_table s.fd_open_count
          sound.mounted sound.has_fat looked_up found.chain found.size,
      record {
        fs = _;
        fat = clear found.blocks sound.fat;
        used = found.others;
        mounted = refl;
        has_fat = refl;
        owns = Owns-clear found.blocks found.owns found.apart;
      },
    )

fs_delete-absent :
    (f : Bytes) (fs : FsSystem) (p : Pointer FsSystem) (table : List FdTableEntry) (count : ℕ)
    → p ≡ live fs
    → name_taken f fs.root_dir ≡ false
    → fs_delete f (state p table count) ≡ undefined
fs_delete-absent f fs p table count on absent =
    rw on (fs_delete_undefined f fs table count absent).0

pub fs_delete-keeps :
    (f : Bytes) (s s' : State) {r : ℤ} → IsSound s → fs_delete f s ≡ returns (r, s') → IsSound s'
fs_delete-keeps f s s' sound h = elim (Bool-cases (name_taken f sound.fs.root_dir)) [
  | inl y ↦
      let (t, e, kept) = fs_delete-IsSound f s sound y in rw (state_of_returns (sym h ∙ e)) kept
  | inr n ↦
      let none_left =
        fs_delete-absent f sound.fs s.file_system s.fd_table s.fd_open_count sound.mounted n in
      cc
]

pub fs_create-keeps :
    (unspecified : Bool) (f : Bytes) (s s' : State) {r : ℤ}
    → IsSound s
    → fs_create unspecified f s ≡ returns (r, s')
    → IsSound s'
fs_create-keeps unspecified f s s' {r} sound h =
    let made : Created unspecified f s (returns (r, s')) =
      rw h at (fs_create-Created unspecified f s) in
    elim made [
      | inl (_, e) ↦ rw e sound
      | inr (fs, on, _, _, _, _, e) ↦
          let same : fs ≡ sound.fs = cc (sym on ∙ sound.mounted) in
          let (used, owns, _) = Owns-Emptied sound.owns (fill_free-Emptied f sound.fs.root_dir) in
          rw (e, same)
            (record {
              fs = record sound.fs { root_dir = (fill_free f sound.fs.root_dir).1 };
              fat = sound.fat;
              used = used;
              mounted = refl;
              has_fat = sound.has_fat;
              owns = owns;
            })
    ]
