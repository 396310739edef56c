-- ===== src/Apps/TestFs/Unmounting.antt =====
-- apps/test_fs.c: the commands ls, info, rm, stat and add unmount what they have mounted.
use ecs150fs.Base.{
  ℕ, ◌≡◌, refl, ◌∙◌, inl, inr, true, false, List, [], ◌∷◌, if◌then◌else◌, Bool-cases, Option-cases,
}
use ecs150fs.Base.Int.{ℤ, pos, is_negative, ◌==ℤ◌}
use ecs150fs.Base.Bytes.{Bytes}
use ecs150fs.Apps.Calls.{FsApi, HostFiles, Cmd, ◌>>◌, call, die}
use ecs150fs.Apps.TestFs.{
  failed, umount_die, thread_fs_stat, thread_fs_rm, add_mapped, thread_fs_add, thread_fs_ls,
  thread_fs_info,
}
use ecs150fs.Apps.TestFs.Watching.{
  Call, mount_call, umount_call, other_call, log, logged, beside, inside, whole, whole_run,
  logged_call-ends, logged_test-ends, IsWhole,
}

module _ {S : Type 0} (fs : FsApi S) (os : HostFiles S) where
  pub umount_die_whole :
      (A : Type 0) (s : S) (t : List Call)
      → inside t ≡ true
      → whole_run (umount_die (logged fs) (beside os) {A = A} (s, t)) ≡ true
  umount_die_whole A s t h =
      logged_call-ends IsWhole umount_call fs.fs_umount _ s t refl (λ r s'. h)

  -- The end of a command: unmount, and a part that calls nothing of the library.
  end_whole :
      (else_do : ℤ → Cmd (S × List Call) ℕ) (s : S) (t : List Call)
      → inside t ≡ true
      → ((r : ℤ) (s' : S) → whole_run (else_do r (s', umount_call r ∷ t)) ≡ inside t)
      → whole_run
          ((call (log umount_call fs.fs_umount) >> λ r. if failed r then die else else_do r) (s, t))
        ≡ true
  end_whole else_do s t h same =
      logged_test-ends IsWhole umount_call fs.fs_umount failed _ else_do s t refl (λ r s' _. h)
        (λ r s' _. same r s' ∙ h)

  pub thread_fs_ls_whole :
      (args : List Bytes) (s : S)
      → whole_run (thread_fs_ls (logged fs) (beside os) args (s, [])) ≡ true
  unfolding thread_fs_ls
  thread_fs_ls_whole [] s = refl
  thread_fs_ls_whole (diskname ∷ _) s =
      logged_test-ends IsWhole mount_call (fs.fs_mount diskname) failed _ _ s [] refl (λ r s1 y. y)
        (λ r s1 n.
          logged_call-ends IsWhole other_call fs.fs_ls _ s1 _ refl
            (λ _ s2. end_whole _ s2 _ (rw n refl) (λ _ _. refl)))

  pub thread_fs_info_whole :
      (args : List Bytes) (s : S)
      → whole_run (thread_fs_info (logged fs) (beside os) args (s, [])) ≡ true
  unfolding thread_fs_info
  thread_fs_info_whole [] s = refl
  thread_fs_info_whole (diskname ∷ _) s =
      logged_test-ends IsWhole mount_call (fs.fs_mount diskname) failed _ _ s [] refl (λ r s1 y. y)
        (λ r s1 n.
          logged_call-ends IsWhole other_call fs.fs_info _ s1 _ refl
            (λ _ s2. end_whole _ s2 _ (rw n refl) (λ _ _. refl)))

  pub thread_fs_rm_whole :
      (args : List Bytes) (s : S)
      → whole_run (thread_fs_rm (logged fs) (beside os) args (s, [])) ≡ true
  unfolding thread_fs_rm
  thread_fs_rm_whole [] s = refl
  thread_fs_rm_whole (_ ∷ []) s = refl
  thread_fs_rm_whole (diskname ∷ filename ∷ _) s =
      logged_test-ends IsWhole mount_call (fs.fs_mount diskname) failed _ _ s [] refl (λ r s1 y. y)
        (λ r s1 n.
          logged_test-ends IsWhole other_call (fs.fs_delete filename) failed _ _ s1 _ refl
            (λ _ s2 _. umount_die_whole _ s2 _ (rw n refl))
            (λ _ s2 _. end_whole _ s2 _ (rw n refl) (λ _ _. refl)))

  -- The end of a command: close, unmount on failure, and unmount.
  pub close_whole :
      (fd : ℤ) (else_do : ℤ → Cmd (S × List Call) ℕ) (s : S) (t : List Call)
      → inside t ≡ true
      → ((r : ℤ) (s' : S) (u : List Call) → whole_run (else_do r (s', u)) ≡ whole u)
      → whole_run (
          (call (log other_call (fs.fs_close fd)) >> λ r.
          if failed r
          then umount_die (logged fs) (beside os)
          else call (log umount_call fs.fs_umount) >> λ r. if failed r then die else else_do r)
            (s, t))
        ≡ true
  close_whole fd else_do s t on same =
      logged_test-ends IsWhole other_call (fs.fs_close fd) failed _ _ s t refl
        (λ _ s1 _. umount_die_whole _ s1 _ on)
        (λ _ s1 _. end_whole else_do s1 _ on (λ r s2. same r s2 _))

  pub thread_fs_stat_whole :
      (args : List Bytes) (s : S)
      → whole_run (thread_fs_stat (logged fs) (beside os) args (s, [])) ≡ true
  unfolding thread_fs_stat
  thread_fs_stat_whole [] s = refl
  thread_fs_stat_whole (_ ∷ []) s = refl
  thread_fs_stat_whole (diskname ∷ filename ∷ _) s =
      logged_test-ends IsWhole mount_call (fs.fs_mount diskname) failed _ _ s [] refl (λ r s1 y. y)
        (λ r s1 n.
          logged_test-ends IsWhole other_call (fs.fs_open filename) is_negative _ _ s1 _ refl
            (λ _ s2 _. umount_die_whole _ s2 _ (rw n refl))
            (λ fd s2 _.
              logged_test-ends IsWhole other_call (fs.fs_stat fd) is_negative _ _ s2 _ refl
                (λ _ s3 _.
                  logged_call-ends IsWhole other_call (fs.fs_close fd) _ s3 _ refl
                    (λ _ s4. umount_die_whole _ s4 _ (rw n refl)))
                (λ stat s3 _. elim (Bool-cases (stat ==ℤ pos 0)) [
                  | inl e ↦ rw e (
                      logged_call-ends IsWhole other_call (fs.fs_close fd) _ s3 _ refl (λ _ s4.
                        logged_call-ends IsWhole umount_call fs.fs_umount _ s4 _ refl
                          (λ _ s5. rw n refl)))
                  | inr e ↦ rw e (close_whole fd _ s3 _ (rw n refl) (λ _ _ _. refl))
                ])))

  add_mapped_whole :
      (diskname filename : Bytes) (fd : ℤ) (size : ℕ) (buf : Bytes) (s : S)
      → whole_run (add_mapped (logged fs) (beside os) diskname filename fd size buf (s, [])) ≡ true
  unfolding add_mapped
  add_mapped_whole diskname filename fd size buf s =
      logged_test-ends IsWhole mount_call (fs.fs_mount diskname) failed _ _ s [] refl (λ r s1 y. y)
        (λ r s1 n.
          logged_test-ends IsWhole other_call (fs.fs_create filename) failed _ _ s1 _ refl
            (λ _ s2 _. umount_die_whole _ s2 _ (rw n refl))
            (λ _ s2 _.
              logged_test-ends IsWhole other_call (fs.fs_open filename) is_negative _ _ s2 _ refl
                (λ _ s3 _. umount_die_whole _ s3 _ (rw n refl))
                (λ fs_fd s3 _.
                  logged_call-ends IsWhole other_call (fs.fs_write fs_fd buf size) _ s3 _ refl
                    (λ written s4. close_whole fs_fd _ s4 _ (rw n refl) (λ _ _ _. refl)))))

  pub thread_fs_add_whole :
      (args : List Bytes) (s : S)
      → whole_run (thread_fs_add (logged fs) (beside os) args (s, [])) ≡ true
  unfolding thread_fs_add
  thread_fs_add_whole [] s = refl
  thread_fs_add_whole (_ ∷ []) s = refl
  thread_fs_add_whole (diskname ∷ filename ∷ _) s =
      let fd = (os.open_rdonly filename s).0 in
      let s1 = (os.open_rdonly filename s).1 in
      elim (Bool-cases (is_negative fd)) [
        | inl e ↦ rw e refl
        | inr e ↦ elim (Option-cases (os.fstat fd s1)) [
          | inl e1 ↦ rw (e, e1) refl
          | inr ((true, size), e1) ↦ elim (Option-cases (os.mmap size fd s1)) [
            | inl e2 ↦ rw (e, e1, e2) refl
            | inr (buf, e2) ↦ rw (e, e1, e2) (add_mapped_whole diskname filename fd size buf s1)
          ]
          | inr ((false, size), e1) ↦ rw (e, e1) refl
        ]
      ]
