-- ===== src/Apps/TestFs/Script/Lines.antt =====
-- apps/test_fs.c: what a line of a script knows of the file system, under watch: the variable `mounted`
-- tells whether it is mounted.
use ecs150fs.Base.{
  ◌≡◌, refl, inl, inr, Bool, true, false, Option, none, some, List, [], ◌∷◌, if◌then◌else◌,
  Bool-cases, Option-cases, ◌^◌,
}
use ecs150fs.Base.Int.{ℤ, pos, is_negative, pattern_of}
use ecs150fs.Base.Bytes.{Bytes, same_string, strlen}
use ecs150fs.Fs.State.{Outcome}
use ecs150fs.Apps.Calls.{FsApi, HostFiles, Run, goes_on}
use ecs150fs.Apps.TestFs.{failed, umount_die}
use ecs150fs.Apps.TestFs.Watching.{
  Call, mount_call, umount_call, other_call, log, logged, beside, logged_call-ends,
  logged_test-ends,
}
use ecs150fs.Apps.TestFs.Script.{
  Command, mount_line, umount_line, create_line, delete_line, open_line, close_line, seek_line,
  write_line, read_line, other_line, checked, write_data, write_file, run_line, data_word,
  file_word,
}

-- By the calls so far, the latest first: is there an fs_mount that returned 0, and no fs_umount
-- that returned 0 after the last such?
abbrev pub still_mounted : List Call → Bool
still_mounted [] = false
still_mounted (mount_call r ∷ t) = if failed r then still_mounted t else true
still_mounted (umount_call r ∷ t) = if failed r then still_mounted t else false
still_mounted (other_call _ ∷ t) = still_mounted t

-- A run that goes on knows whether the file system is mounted.
abbrev pub Knows : {S A : Type 0} → (A → Bool) → Run (S × List Call) A → Type 0
Knows flag (goes_on a (_, t)) = still_mounted t ≡ flag a
Knows flag _ = true ≡ true

module _ {S : Type 0} (fs : FsApi S) (os : HostFiles S) where
  abbrev pub KnowsLine : Run (S × List Call) (ℤ × Bool) → Type 0
  KnowsLine = Knows (λ (_, mounted). mounted)

  umount_die-Knows : (s : S) (t : List Call) → KnowsLine (umount_die (logged fs) (beside os) (s, t))
  umount_die-Knows s t =
      logged_call-ends KnowsLine umount_call fs.fs_umount _ s t refl (λ _ _. refl)

  checked-Knows :
      (f : S → Outcome (ℤ × S)) (word : Bytes) (fs_fd : ℤ) (mounted : Bool) (s : S) (t : List Call)
      → still_mounted t ≡ mounted
      → KnowsLine (checked (logged fs) (beside os) (log other_call f) word fs_fd mounted (s, t))
  checked-Knows f word fs_fd mounted s t h =
      logged_test-ends KnowsLine other_call f failed _ _ s t refl (λ _ s1 _. umount_die-Knows s1 _)
        (λ _ _ _. h)

  write_data-Knows :
      (content : Option Bytes) (size fs_fd : ℤ) (mounted : Bool) (s : S) (t : List Call)
      → still_mounted t ≡ mounted
      → KnowsLine (write_data (logged fs) (beside os) content size fs_fd mounted (s, t))
  write_data-Knows none size fs_fd mounted s t h = umount_die-Knows s t
  write_data-Knows (some content) size fs_fd mounted s t h =
      logged_test-ends KnowsLine other_call (fs.fs_write fs_fd content (pattern_of (2 ^ 64) size))
        is_negative _ _ s t refl (λ _ s1 _. umount_die-Knows s1 _) (λ _ _ _. h)

  write_file-Knows :
      (name : Bytes) (fs_fd : ℤ) (mounted : Bool) (s : S) (t : List Call)
      → still_mounted t ≡ mounted
      → KnowsLine (write_file (logged fs) (beside os) name fs_fd mounted (s, t))
  write_file-Knows name fs_fd mounted s t h =
      let fd = (os.open_rdonly name s).0 in
      let s1 = (os.open_rdonly name s).1 in
      elim (Bool-cases (is_negative fd)) [
        | inl e ↦ rw e (umount_die-Knows s1 t)
        | inr e ↦ elim (Option-cases (os.fstat fd s1)) [
          | inl e1 ↦ rw (e, e1) (umount_die-Knows s1 t)
          | inr ((true, size), e1) ↦ rw (e, e1) (write_data-Knows _ _ fs_fd mounted s1 t h)
          | inr ((false, size), e1) ↦ rw (e, e1) (umount_die-Knows s1 t)
        ]
      ]

  pub run_line-Knows :
      (diskname : Bytes) (command : Command) (args : List Bytes) (fs_fd : ℤ) (mounted : Bool)
      (s : S) (t : List Call)
      → still_mounted t ≡ mounted
      → KnowsLine (run_line (logged fs) (beside os) diskname command args fs_fd mounted (s, t))
  unfolding run_line
  run_line-Knows diskname mount_line args fs_fd mounted s t h =
      logged_test-ends KnowsLine mount_call (fs.fs_mount diskname) failed _ _ s t refl
        (λ _ _ _. refl) (λ _ _ n. rw n refl)
  run_line-Knows diskname umount_line args fs_fd true s t h =
      logged_test-ends KnowsLine umount_call fs.fs_umount failed _ _ s t refl (λ _ _ _. refl)
        (λ _ _ n. rw n refl)
  run_line-Knows diskname umount_line args fs_fd false s t h = h
  run_line-Knows diskname create_line [] fs_fd mounted s t h = refl
  run_line-Knows diskname create_line (name ∷ _) fs_fd mounted s t h =
      checked-Knows (fs.fs_create name) _ fs_fd mounted s t h
  run_line-Knows diskname delete_line [] fs_fd mounted s t h = refl
  run_line-Knows diskname delete_line (name ∷ _) fs_fd mounted s t h =
      checked-Knows (fs.fs_delete name) _ fs_fd mounted s t h
  run_line-Knows diskname open_line [] fs_fd mounted s t h = refl
  run_line-Knows diskname open_line (name ∷ _) fs_fd mounted s t h =
      logged_test-ends KnowsLine other_call (fs.fs_open name) is_negative _ _ s t refl
        (λ _ s1 _. umount_die-Knows s1 _) (λ _ _ _. h)
  run_line-Knows diskname close_line args fs_fd mounted s t h =
      checked-Knows (fs.fs_close fs_fd) _ fs_fd mounted s t h
  run_line-Knows diskname seek_line [] fs_fd mounted s t h = refl
  run_line-Knows diskname seek_line (offset ∷ _) fs_fd mounted s t h =
      checked-Knows (fs.fs_lseek fs_fd _) _ fs_fd mounted s t h
  run_line-Knows diskname write_line [] fs_fd mounted s t h = refl
  run_line-Knows diskname write_line (source ∷ []) fs_fd mounted s t h =
      elim (Bool-cases (same_string source data_word)) [
        | inl e ↦ rw e refl
        | inr e ↦ rw e (umount_die-Knows s t)
      ]
  run_line-Knows diskname write_line (source ∷ description ∷ _) fs_fd mounted s t h =
      elim (Bool-cases (same_string source data_word)) [
        | inl e ↦
            rw e
              (write_data-Knows (some description) (pos (strlen description)) fs_fd mounted s t h)
        | inr e ↦ elim (Bool-cases (same_string source file_word)) [
          | inl e1 ↦ rw (e, e1) (write_file-Knows description fs_fd mounted s t h)
          | inr e1 ↦ rw (e, e1) (umount_die-Knows s t)
        ]
      ]
  run_line-Knows diskname read_line [] fs_fd mounted s t h = refl
  run_line-Knows diskname read_line (_ ∷ []) fs_fd mounted s t h = refl
  run_line-Knows diskname read_line (_ ∷ source ∷ _) fs_fd mounted s t h =
      elim (Bool-cases (same_string source data_word)) [
        | inl e ↦ rw e refl
        | inr e ↦ rw e (umount_die-Knows s t)
      ]
  run_line-Knows diskname other_line args fs_fd mounted s t h = h
