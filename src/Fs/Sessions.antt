-- ===== src/Fs/Sessions.antt =====
-- All calls of libfs/fs.c that change something, in any order, from the start of a program.
pub mod Room
mod Examples
use ecs150fs.Base.{ℕ, ◌≡◌, refl, ◌∙◌, ap, sym, inl, inr, Bool, true, false, List}
use ecs150fs.Base.Int.{ℤ, pos}
use ecs150fs.Base.Bytes.{Bytes}
use ecs150fs.Disk.Posix.{Host}
use ecs150fs.Disk.{Disk, closed_disk, is_open}
use ecs150fs.Fs.State.{
  FdTableEntry, FsSystem, State, Pointer, null, freed, live, returns, >>=-eq-returns, deref, state,
}
use ecs150fs.Fs.Mount.{fs_mount, fs_unmount}
use ecs150fs.Fs.Mount.Failing.{fs_mount_ends}
use ecs150fs.Fs.Mount.Unmounting.{fs_unmount_ends}
use ecs150fs.Fs.Directory.Creation.{Created, fs_create-Created}
use ecs150fs.Fs.Directory.Deletion.{fs_delete-names}
use ecs150fs.Fs.Descriptors.Invariant
use ecs150fs.Fs.Descriptors.Deleting.{fs_open-same, fs_close-same, fs_lseek-same}

-- The variables of libfs/fs.c and of libfs/disk.c, and the host.
pub record Whole (W : Type 0) : Type 0 where
  pub variables : State
  pub disk : Disk
  pub host : W

-- One call: fs_mount, fs_unmount, or one that works in memory.
pub data Step {W : Type 0} (os : Host W) (x : Whole W) : Whole W → Type 0 where
  mounted :
      (name : Bytes) (memory : FsSystem) {r : ℤ} {y : Whole W}
      → fs_mount os name memory x.variables x.disk x.host ≡ returns (r, y.variables, y.disk, y.host)
      → Step os x y
  unmounted :
      {r : ℤ} {y : Whole W}
      → fs_unmount os x.variables x.disk x.host ≡ returns (r, y.variables, y.disk, y.host)
      → Step os x y
  in_memory : {s : State} → Invariant.Step x.variables s → Step os x (record x { variables = s })

pub data Reach {W : Type 0} (os : Host W) (x : Whole W) : Whole W → Type 0 where
  here : Reach os x x
  next : {y z : Whole W} → Reach os x y → Step os y z → Reach os x z

abbrev pub is_live : Pointer FsSystem → Bool
is_live (live _) = true
is_live _ = false

-- A program starts with no file system, no open disk, and a table of descriptors.
abbrev pub start : {W : Type 0} → List FdTableEntry → W → Whole W
start table w = record { variables = state null table 0; disk = closed_disk; host = w }

-- A file system is in memory exactly while the disk is open.
abbrev pub Agrees : {W : Type 0} → Whole W → Type 0
Agrees x = is_live x.variables.file_system ≡ is_open x.disk

deref-live : (p : Pointer FsSystem) {fs : FsSystem} → deref p ≡ returns fs → is_live p ≡ true
deref-live null h = cc
deref-live freed h = cc
deref-live (live _) h = refl

in_memory-live : {s t : State} → Invariant.Step s t → is_live t.file_system ≡ is_live s.file_system
in_memory-live {s} {t} (Invariant.created unspecified f {r} h) =
    let made : Created unspecified f s (returns (r, t)) =
      rw h at (fs_create-Created unspecified f s) in
    elim made [
      | inl (_, e) ↦ ap (λ (u : State). is_live u.file_system) e
      | inr (_, on, _, _, _, _, e) ↦
          ap (λ (u : State). is_live u.file_system) e ∙ sym (ap is_live on)
    ]
in_memory-live {s} {t} (Invariant.deleted f h) =
    let (_, _, on, _, e, _, _) = fs_delete-names f s.file_system s.fd_table s.fd_open_count h in
    ap (λ (u : State). is_live u.file_system) e ∙ sym (ap is_live on)
in_memory-live {s} {t} (Invariant.opened unspecified f h) =
    ap is_live (fs_open-same unspecified f s t h)
in_memory-live {s} {t} (Invariant.closed fd h) = ap is_live (fs_close-same fd s t h)
in_memory-live {s} {t} (Invariant.sought fd offset h) = ap is_live (fs_lseek-same fd offset s t h)

module _ {W : Type 0} (os : Host W) where
  Step-Agrees : {x y : Whole W} → Agrees x → Step os x y → Agrees y
  Step-Agrees {x} {y} agrees (mounted name memory {r} h) =
      elim (fs_mount_ends os name memory x.variables y.variables x.disk y.disk x.host y.host r h) [
        | inl (_, s, d) ↦ rw (s, d) agrees
        | inr (op, how, _) ↦ elim how [
          | inl (_, (fs, on, _)) ↦ ap is_live on ∙ sym op
          | inr (_, (fs, _, on, _, _, _)) ↦ ap is_live on ∙ sym op
        ]
      ]
  Step-Agrees {x} {y} agrees (unmounted {r} h) =
      let (_, shut, gone, _, _, _) =
        fs_unmount_ends os x.variables y.variables x.disk y.disk x.host y.host r h in
      ap is_live gone ∙ sym shut
  Step-Agrees agrees (in_memory step) = in_memory-live step ∙ agrees

  -- From the start of a program, with no file system and no open disk, after any calls of fs_mount,
  -- fs_unmount, fs_create, fs_delete, fs_open, fs_close and fs_lseek that returned, failed ones
  -- too: file_system points to a structure just if the disk is open.
  pub Reach-Agrees :
      (table : List FdTableEntry) (w : W) (x : Whole W) → Reach os (start table w) x → Agrees x
  Reach-Agrees table w x here = refl
  Reach-Agrees table w x (next {y} r step) = Step-Agrees (Reach-Agrees table w y r) step

  -- So an `fs_unmount` that returns has closed an open disk.
  pub fs_unmount_closes :
      (table : List FdTableEntry) (w : W) (x y : Whole W) (r : ℤ)
      → Reach os (start table w) x
      → fs_unmount os x.variables x.disk x.host ≡ returns (r, y.variables, y.disk, y.host)
      → r ≡ pos 0
  unfolding fs_unmount
  fs_unmount_closes table w x y r reached h =
      let (result, _, _, _, _, _) =
        fs_unmount_ends os x.variables y.variables x.disk y.disk x.host y.host r h in
      let (fs, on, _) = >>=-eq-returns (deref x.variables.file_system) _ h in
      let op : is_open x.disk ≡ true =
        sym (Reach-Agrees table w x reached) ∙ deref-live x.variables.file_system on in
      rw op at result
