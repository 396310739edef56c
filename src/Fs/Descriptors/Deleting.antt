-- ===== src/Fs/Descriptors/Deleting.antt =====
-- fs_delete of libfs/fs.c after any calls that work in memory.
use ecs150fs.Base.{ℕ, ◌≡◌, ◌∙◌, sym, ap, inl, inr, Bool, true, some, List, Option-cases}
use ecs150fs.Base.Int.{ℤ, pos}
use ecs150fs.Base.Lists.{get_elem?, set}
use ecs150fs.Base.Bytes.{Bytes, same_string}
use ecs150fs.Fs.State.{
  State, FdTableEntry, FsSystem, Pointer, live, returns, state, state_of_returns,
}
use ecs150fs.Fs.Directory.{fs_delete, name_taken}
use ecs150fs.Fs.Directory.Deletion.{fs_delete-names}
use ecs150fs.Fs.Directory.Freeing.{IsSound, fs_delete-IsSound, fs_delete-keeps, fs_create-keeps}
use ecs150fs.Fs.Descriptors.{fs_open, fs_close, fs_lseek, update_fd, is_valid_fd}
use ecs150fs.Fs.Descriptors.Opening.{Opened, fs_open-Opened}
use ecs150fs.Fs.Descriptors.Closing.{fs_close_lem}
use ecs150fs.Fs.Descriptors.Seeking.{fs_lseek_writes}
use ecs150fs.Fs.Descriptors.Invariant.{
  Step, created, deleted, opened, closed, sought, Reach, here, next,
}

-- The mounted file system is the same.
IsSound-same : {s s' : State} → s'.file_system ≡ s.file_system → IsSound s → IsSound s'
IsSound-same same sound = record {
  fs = sound.fs;
  fat = sound.fat;
  used = sound.used;
  mounted = same ∙ sound.mounted;
  has_fat = sound.has_fat;
  owns = sound.owns;
}

pub fs_open-same :
    (unspecified : Bool) (f : Bytes) (s s' : State) {r : ℤ}
    → fs_open unspecified f s ≡ returns (r, s')
    → s'.file_system ≡ s.file_system
fs_open-same unspecified f s s' {r} h =
    let made : Opened unspecified f s (returns (r, s')) =
      rw h at (fs_open-Opened unspecified f s) in
    elim made [
      | inl (_, e) ↦ ap (λ (t : State). t.file_system) e
      | inr (_, _, _, _, _, _, _, e) ↦ ap (λ (t : State). t.file_system) e
    ]

pub fs_close-same :
    (fd : ℤ) (s s' : State) {r : ℤ}
    → fs_close fd s ≡ returns (r, s')
    → s'.file_system ≡ s.file_system
fs_close-same fd s s' h = elim (fs_close_lem fd s) [
  | inl (_, e) ↦ ap (λ (t : State). t.file_system) (state_of_returns (sym h ∙ e))
  | inr (t, _, e, _, _, _, same, _, _, _, _, _) ↦
      ap (λ (t : State). t.file_system) (state_of_returns (sym h ∙ e)) ∙ same
]

update_fd-same :
    (i : ℕ) (f : FdTableEntry → FdTableEntry) (s s' : State)
    → update_fd i f s ≡ returns s'
    → s'.file_system ≡ s.file_system
unfolding update_fd
update_fd-same i f s s' h = elim (Option-cases (get_elem? s.fd_table i)) [
  | inl o ↦ cc
  | inr (e, o) ↦
      let same : record s { fd_table = set s.fd_table i (f e) } ≡ s' =
        cc (rw (update_fd, o) at h) in
      sym (ap (λ (t : State). t.file_system) same)
]

pub fs_lseek-same :
    (fd : ℤ) (offset : ℕ) (s s' : State) {r : ℤ}
    → fs_lseek fd offset s ≡ returns (r, s')
    → s'.file_system ≡ s.file_system
fs_lseek-same fd offset s s' h = elim (fs_lseek_writes fd offset s s' h) [
  | inl e ↦ ap (λ (t : State). t.file_system) e
  | inr (i, f, put) ↦ update_fd-same i f s s' put
]

pub Step-IsSound : {s t : State} → IsSound s → Step s t → IsSound t
Step-IsSound {s} sound (created unspecified f {s'} h) = fs_create-keeps unspecified f s s' sound h
Step-IsSound {s} sound (deleted f {s'} h) = fs_delete-keeps f s s' sound h
Step-IsSound {s} sound (opened unspecified f {s'} h) =
    IsSound-same (fs_open-same unspecified f s s' h) sound
Step-IsSound {s} sound (closed fd {s'} h) = IsSound-same (fs_close-same fd s s' h) sound
Step-IsSound {s} sound (sought fd offset {s'} h) =
    IsSound-same (fs_lseek-same fd offset s s' h) sound

Reach-IsSound : {s t : State} → IsSound s → Reach s t → IsSound t
Reach-IsSound sound here = sound
Reach-IsSound sound (next r step) = Step-IsSound (Reach-IsSound sound r) step

-- From a state with a mounted file system whose files each have a chain of their own in the FAT, as
-- long as their whole blocks, after any calls of fs_create, fs_delete, fs_open, fs_close and
-- fs_lseek, fs_delete of any name in the directory, open or not, returns 0, and leaves such a
-- state.
pub fs_delete_after :
    (s t : State) (f : Bytes) (fs : FsSystem)
    → IsSound s
    → Reach s t
    → t.file_system ≡ live fs
    → name_taken f fs.root_dir ≡ true
    → (t' : State) × (fs_delete f t ≡ returns (pos 0, t')) × IsSound t'
fs_delete_after s t f fs sound r on taken =
    let later = Reach-IsSound sound r in
    let same : fs ≡ later.fs = cc (sym on ∙ later.mounted) in
    fs_delete-IsSound f t later (rw (← same) taken)

valid_while_live :
    (p : Pointer FsSystem) (table : List FdTableEntry) (count i : ℕ) (fs fs' : FsSystem)
    → p ≡ live fs
    → is_valid_fd (pos i) (state p table count) ≡ true
    → is_valid_fd (pos i) (state (live fs') table count) ≡ true
unfolding is_valid_fd
valid_while_live p table count i fs fs' on h = rw on at h

-- With a mounted file system whose files each have a chain of their own in the FAT, fs_delete of a
-- name in the directory that is open on a valid descriptor returns 0 all the same, and the
-- descriptor is still valid and has the name.
pub fs_delete_open :
    (s : State) (f : Bytes) (i : ℕ) (e : FdTableEntry) (sound : IsSound s)
    → name_taken f sound.fs.root_dir ≡ true
    → get_elem? s.fd_table i ≡ some e
    → same_string f e.filename ≡ true
    → is_valid_fd (pos i) s ≡ true
    → (s' : State) × (fs_delete f s ≡ returns (pos 0, s'))
      × (is_valid_fd (pos i) s' ≡ true)
      × (get_elem? s'.fd_table i ≡ some e)
fs_delete_open s f i e sound taken at named valid =
    let (s', gone, _) = fs_delete-IsSound f s sound taken in
    let (fs, fs', on, _, now, _, _) =
      fs_delete-names f s.file_system s.fd_table s.fd_open_count gone in
    (
      s',
      gone,
      rw now (valid_while_live s.file_system s.fd_table s.fd_open_count i fs fs' on valid),
      rw now at,
    )
