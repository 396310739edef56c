-- ===== src/Apps/TestFs/Sessions.antt =====
-- apps/test_fs.c: the command cat, and main, under watch.
use ecs150fs.Base.{
  ℕ, ◌≡◌, refl, ◌∙◌, ◌⊎◌, inl, inr, true, false, List, [], ◌∷◌, Bool-cases, Option-cases, arith,
}
use ecs150fs.Base.Int.{ℤ, pos, is_negative, ◌==ℤ◌, ==ℤ_iff, pos_part}
use ecs150fs.Fs.State.{returns}
use ecs150fs.Base.Bytes.{Bytes, same_string}
use ecs150fs.Apps.Calls.{
  FsApi, HostFiles, empty_file, Run, goes_on, exits, crashes, Cmd, done, run_on,
}
use ecs150fs.Apps.TestFs.{failed, cat_read, thread_fs_cat, commands, dispatch, main}
use ecs150fs.Apps.TestFs.Watching.{
  Call, mount_call, other_call, logged, beside, inside, whole_run, logged_call-ends,
  logged_test-returns, IsWhole,
}
use ecs150fs.Apps.TestFs.Unmounting.{
  umount_die_whole, close_whole, thread_fs_ls_whole, thread_fs_info_whole, thread_fs_rm_whole,
  thread_fs_stat_whole, thread_fs_add_whole,
}

module _ {S : Type 0} (fs : FsApi S) (os : HostFiles S) where
  cat_read-IsWhole :
      (filename : Bytes) (fd stat : ℤ) (s : S) (t : List Call)
      → inside t ≡ true
      → IsWhole (cat_read (logged fs) (beside os) filename fd stat (s, t))
  unfolding cat_read
  cat_read-IsWhole filename fd stat s t on = elim (Option-cases (os.malloc (pos_part stat) s)) [
    | inl o ↦ rw (o, cat_read) (umount_die_whole fs os _ s _ on)
    | inr (buf, o) ↦
        rw (o, cat_read)
          (logged_call-ends IsWhole (λ (r, _). other_call r) (fs.fs_read fd buf (pos_part stat)) _ s
            _ refl (λ (read, buf') s1. close_whole fs os fd _ s1 _ on (λ _ _ _. refl)))
  ]

  -- The library mounts the disk, opens the file, and gives 0 as its size.
  pub record SeesEmpty (diskname filename : Bytes) (s : S) : Type 0 where
    pub mounted : ℤ
    pub opened : ℤ
    pub first : S
    pub second : S
    pub third : S
    pub mounts : fs.fs_mount diskname s ≡ returns (mounted, first)
    pub mount_succeeds : failed mounted ≡ false
    pub opens : fs.fs_open filename first ≡ returns (opened, second)
    pub open_succeeds : is_negative opened ≡ false
    pub sizes : fs.fs_stat opened second ≡ returns (pos 0, third)

  abbrev Ends : Bytes → Bytes → S → Run (S × List Call) ℕ → Type 0
  Ends diskname filename s r = IsWhole r ⊎ SeesEmpty diskname filename s

  -- However the library behaves, a run of thread_fs_cat with a disk and a file name that comes to
  -- an end makes one fs_mount that fails, or a session of which fs_umount is the last call, unless
  -- fs_mount and fs_open succeed and fs_stat of the descriptor returns 0. In that case it returns 0
  -- having said that the file is empty, and fs_mount, fs_open and fs_stat are its only calls: the
  -- file stays open and the file system mounted.
  pub thread_fs_cat_ends :
      (diskname filename : Bytes) (args : List Bytes) (s : S)
      → let run = thread_fs_cat (logged fs) (beside os) (diskname ∷ filename ∷ args) (s, []) in
        (IsWhole run ⊎ SeesEmpty diskname filename s)
        × ((e : SeesEmpty diskname filename s)
            → run
              ≡ goes_on 0 (
                os.print empty_file e.third,
                other_call (pos 0) ∷ other_call e.opened ∷ mount_call e.mounted ∷ [],
              ))
  unfolding thread_fs_cat
  thread_fs_cat_ends diskname filename args s = (
    logged_test-returns (Ends diskname filename s) mount_call (fs.fs_mount diskname) failed _ _ s []
        (inl refl) (λ r s1 _ y. inl y)
        (λ r s1 mounts n.
          logged_test-returns (Ends diskname filename s) other_call (fs.fs_open filename)
            is_negative _ _ s1 _ (inl refl)
            (λ _ s2 _ _. inl (umount_die_whole fs os _ s2 _ (rw n refl)))
            (λ fd s2 opens o.
              logged_test-returns (Ends diskname filename s) other_call (fs.fs_stat fd) is_negative
                _ _ s2 _ (inl refl) (λ _ s3 _ _. inl (umount_die_whole fs os _ s3 _ (rw n refl)))
                (λ stat s3 sizes _. elim (Bool-cases (stat ==ℤ pos 0)) [
                  | inl e ↦ inr (record {
                    mounted = r;
                    opened = fd;
                    first = s1;
                    second = s2;
                    third = s3;
                    mounts = mounts;
                    mount_succeeds = n;
                    opens = opens;
                    open_succeeds = o;
                    sizes = sizes ∙ rw ((==ℤ_iff stat (pos 0)).0 e) refl;
                  })
                  | inr e ↦ rw e (inl (cat_read-IsWhole filename fd stat s3 _ (rw n refl)))
                ]))),
    λ e. rw (e.mounts, e.mount_succeeds, e.opens, e.open_succeeds, e.sizes) refl,
  )

  module _ (script : List Bytes → Cmd (S × List Call) ℕ) where
    -- The commands of a table that the word selects are whole.
    abbrev SelectedIsWhole :
        Bytes → List Bytes → S → List (Bytes × (List Bytes → Cmd (S × List Call) ℕ)) → Type 0
    SelectedIsWhole cmd args s [] = true ≡ true
    SelectedIsWhole cmd args s ((name, func) ∷ rest) =
        (same_string cmd name ≡ true → IsWhole (func args (s, [])))
        × SelectedIsWhole cmd args s rest

    done-IsWhole :
        (r : Run (S × List Call) ℕ) → IsWhole r → IsWhole (run_on r (λ _. done {A = ℕ} 0))
    done-IsWhole (goes_on _ (_, t)) e = e
    done-IsWhole (exits _ (_, t)) e = e
    done-IsWhole crashes e = refl

    dispatch-IsWhole :
        (cmd : Bytes) (args : List Bytes) (s : S)
        (table : List (Bytes × (List Bytes → Cmd (S × List Call) ℕ)))
        → SelectedIsWhole cmd args s table
        → IsWhole (dispatch (logged fs) (beside os) script cmd args table (s, []))
    unfolding dispatch
    dispatch-IsWhole cmd args s [] h = refl
    dispatch-IsWhole cmd args s ((name, func) ∷ rest) (h, k) =
        elim (Bool-cases (same_string cmd name)) [
          | inl e ↦ rw e (done-IsWhole (func args (s, [])) (h e))
          | inr e ↦ rw e (dispatch-IsWhole cmd args s rest k)
        ]

    -- Whatever the words behind the name of test_fs, unless the first is "cat" or "script", and
    -- however the library behaves, a run of main that comes to an end makes no call of the library,
    -- or one fs_mount that fails, or a session: a successful fs_mount, calls other than fs_mount
    -- and fs_umount, and fs_umount as the last one.
    pub main_whole :
        (cmd : Bytes) (args : List Bytes) (s : S)
        → same_string cmd (99 ∷ 97 ∷ 116 ∷ []) ≡ false
        → same_string cmd (115 ∷ 99 ∷ 114 ∷ 105 ∷ 112 ∷ 116 ∷ []) ≡ false
        → whole_run (main (logged fs) (beside os) script (cmd ∷ args) (s, [])) ≡ true
    unfolding main
    main_whole cmd args s no_cat no_script =
        dispatch-IsWhole cmd args s (commands (logged fs) (beside os) script) (
          (λ _. thread_fs_info_whole fs os args s),
          (
            (λ _. thread_fs_ls_whole fs os args s),
            (
              (λ _. thread_fs_add_whole fs os args s),
              (
                (λ _. thread_fs_rm_whole fs os args s),
                (
                  (λ e. absurd (ground arith)),
                  ((λ _. thread_fs_stat_whole fs os args s), ((λ e. absurd (ground arith)), refl)),
                ),
              ),
            ),
          ),
        )
