-- ===== src/Apps/TestFs/Script/Reading.antt =====
-- apps/test_fs.c: the command READ of a script.
use ecs150fs.Base.{◌≡◌, refl, sym, ◌⊎◌, inl, inr, Bool, List, [], ◌∷◌, leb, Bool-cases}
use mathlib.Core.Path.{subst}
use ecs150fs.Base.Int.{ℤ}
use ecs150fs.Base.Lists.{length}
use ecs150fs.Base.Bytes.{Bytes, same_string}
use ecs150fs.Apps.Calls.{FsApi, HostFiles, Run, Cmd, exits, crashes, call-ends}
use ecs150fs.Apps.TestFs.{umount_die}
use ecs150fs.Apps.TestFs.Script.{command_of, read_line, run_line, run_words, run_lines, data_word}
use ecs150fs.Apps.TestFs.Script.Words.{words_of}

module _ {S : Type 0} (fs : FsApi S) (os : HostFiles S) where
  abbrev pub StopsHere : {A : Type 0} → Run S A → Type 0
  StopsHere r = (r ≡ crashes) ⊎ ((s : S) × (r ≡ exits 1 s))

  umount_die_stops : {A : Type 0} (s : S) → StopsHere (umount_die fs os {A = A} s)
  umount_die_stops s = call-ends StopsHere fs.fs_umount _ s (inl refl) (λ _ s' _. inr (s', refl))

  read_line_stops :
      (diskname : Bytes) (args : List Bytes) (fs_fd : ℤ) (mounted : Bool) (s : S)
      → StopsHere (run_line fs os diskname read_line args fs_fd mounted s)
  unfolding run_line
  read_line_stops diskname [] fs_fd mounted s = inl refl
  read_line_stops diskname (_ ∷ []) fs_fd mounted s = inl refl
  read_line_stops diskname (_ ∷ data_source ∷ _) fs_fd mounted s =
      elim (Bool-cases (same_string data_source data_word)) [
        | inl e ↦ rw e (inl refl)
        | inr e ↦ rw e (umount_die_stops s)
      ]

  run_words_fails :
      (diskname command : Bytes) (args : List Bytes) (fs_fd : ℤ) (mounted : Bool)
      (continue : ℤ → Bool → Cmd S Bool) (s : S)
      → command_of command ≡ read_line
      → StopsHere (run_words fs os diskname (command ∷ args) fs_fd mounted continue s)
  unfolding run_words
  run_words_fails diskname command args fs_fd mounted continue s is_read =
      elim (Bool-cases (leb 3 (length args))) [
        | inl e ↦ rw e (inl refl)
        | inr e ↦ elim (read_line_stops diskname args fs_fd mounted s) [
          | inl c ↦ rw (e, is_read, c) (inl refl)
          | inr (s', c) ↦ rw (e, is_read, c) (inr (s', refl))
        ]
      ]

  -- Whatever the library and the host do, a script does not get past a line whose first word is
  -- READ: the run crashes, or the process ends with status 1.
  pub read_line_fails :
      (diskname line command : Bytes) (args lines : List Bytes) (fs_fd : ℤ) (mounted : Bool) (s : S)
      → words_of line ≡ command ∷ args
      → command_of command ≡ read_line
      → StopsHere (run_lines fs os diskname (line ∷ lines) fs_fd mounted s)
  unfolding run_lines
  read_line_fails diskname line command args lines fs_fd mounted s split is_read =
      subst
        (λ words.
          StopsHere
            (run_words fs os diskname words fs_fd mounted (run_lines fs os diskname lines) s))
        (sym split)
        (run_words_fails diskname command args fs_fd mounted (run_lines fs os diskname lines) s
          is_read)
