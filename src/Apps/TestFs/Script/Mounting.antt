-- ===== src/Apps/TestFs/Script/Mounting.antt =====
-- apps/test_fs.c: does a script leave the file system mounted? The library is watched.
use ecs150fs.Base.{
  ℕ, ◌≡◌, refl, inl, inr, Bool, true, false, List, [], ◌∷◌, leb, if◌then◌else◌, Bool-cases,
  Option-cases,
}
use ecs150fs.Base.Int.{ℤ, minus_one}
use ecs150fs.Base.Lists.{length}
use ecs150fs.Base.Bytes.{Bytes}
use ecs150fs.Apps.Calls.{
  FsApi, HostFiles, Run, Cmd, goes_on, exits, crashes, ◌>>◌, call, die, done, run_on,
}
use ecs150fs.Apps.TestFs.{failed}
use ecs150fs.Apps.TestFs.Watching.{Call, umount_call, log, logged, beside, logged_test-ends}
use ecs150fs.Apps.TestFs.Script.{run_words, run_lines, thread_fs_script, command_of}
use ecs150fs.Apps.TestFs.Script.Words.{words_of, script_lines}
use ecs150fs.Apps.TestFs.Script.Lines.{still_mounted, Knows, KnowsLine, run_line-Knows}

module _ {S : Type 0} (fs : FsApi S) (os : HostFiles S) where
  abbrev KnowsFlag : Run (S × List Call) Bool → Type 0
  KnowsFlag = Knows (λ flag. flag)

  run_words-Knows :
      (diskname : Bytes) (words : List Bytes) (fs_fd : ℤ) (mounted : Bool)
      (continue : ℤ → Bool → Cmd (S × List Call) Bool) (s : S) (t : List Call)
      → still_mounted t ≡ mounted
      → ((fd : ℤ) (m : Bool) (s' : S) (t' : List Call)
          → still_mounted t' ≡ m
          → KnowsFlag (continue fd m (s', t')))
      → KnowsFlag (run_words (logged fs) (beside os) diskname words fs_fd mounted continue (s, t))
  unfolding run_words
  run_words-Knows diskname [] fs_fd mounted continue s t h k = h
  run_words-Knows diskname (command ∷ args) fs_fd mounted continue s t h k =
      elim (Bool-cases (leb 3 (length args))) [
        | inl e ↦ rw e refl
        | inr e ↦
            rw e
              (next _ (run_line-Knows fs os diskname (command_of command) args fs_fd mounted s t h))
      ]
    where
      next :
          (r : Run (S × List Call) (ℤ × Bool))
          → KnowsLine fs os r
          → KnowsFlag (run_on r (λ (fd, m). continue fd m))
      next (goes_on (fd, m) (s', t')) known = k fd m s' t' known
      next (exits _ _) known = refl
      next crashes known = refl

  run_lines-Knows :
      (diskname : Bytes) (lines : List Bytes) (fs_fd : ℤ) (mounted : Bool) (s : S) (t : List Call)
      → still_mounted t ≡ mounted
      → KnowsFlag (run_lines (logged fs) (beside os) diskname lines fs_fd mounted (s, t))
  unfolding run_lines
  run_lines-Knows diskname [] fs_fd mounted s t h = h
  run_lines-Knows diskname (line ∷ lines) fs_fd mounted s t h =
      run_words-Knows diskname (words_of line) fs_fd mounted _ s t h
        (λ fd m s' t' known. run_lines-Knows diskname lines fd m s' t' known)

  script_end-Unmounted :
      (r : Run (S × List Call) Bool)
      → KnowsFlag r
      → Knows
          (λ _. false)
          (run_on r (λ mounted.
            if mounted
            then (call (log umount_call fs.fs_umount) >> λ r'.
                if failed r' then die else done {A = ℕ} 0)
            else done 0))
  script_end-Unmounted (goes_on true (s, t)) known =
      logged_test-ends (Knows (λ _. false)) umount_call fs.fs_umount failed _ _ s t refl
        (λ _ _ _. refl) (λ _ _ n. rw n refl)
  script_end-Unmounted (goes_on false (s, t)) known = known
  script_end-Unmounted (exits _ _) known = refl
  script_end-Unmounted crashes known = refl

  script-Unmounted :
      (args : List Bytes) (s : S)
      → Knows (λ _. false) (thread_fs_script (logged fs) (beside os) args (s, []))
  unfolding thread_fs_script
  script-Unmounted [] s = refl
  script-Unmounted (_ ∷ []) s = refl
  script-Unmounted (diskname ∷ script ∷ _) s = elim (Option-cases (os.fopen script s)) [
    | inl e ↦ rw (e, thread_fs_script) refl
    | inr (text, e) ↦
        rw (e, thread_fs_script)
          (script_end-Unmounted _
            (run_lines-Knows diskname (script_lines text) minus_one false s [] refl))
  ]

  -- However the library and the host behave, a script that ends normally leaves nothing mounted: in
  -- the calls of its run no fs_mount that returned 0 is without a later fs_umount that returned 0.
  pub thread_fs_script_unmounts :
      (args : List Bytes) (s s' : S) (t : List Call) (status : ℕ)
      → thread_fs_script (logged fs) (beside os) args (s, []) ≡ goes_on status (s', t)
      → still_mounted t ≡ false
  thread_fs_script_unmounts args s s' t status h = rw h at (script-Unmounted args s)
