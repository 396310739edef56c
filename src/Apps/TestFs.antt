-- ===== src/Apps/TestFs.antt =====
-- apps/test_fs.c: the commands info, ls, add, rm, cat and stat, over the interface of libfs/fs.h,
-- and the program's main. A command's arguments are the list of its words; `thread_fs_script`, one
-- more command, is an argument of `main`.
pub mod Watching
pub mod Unmounting
pub mod Sessions
pub mod Script
use ecs150fs.Base.{ℕ, Bool, not, none, some, List, [], ◌∷◌, if◌then◌else◌}
use ecs150fs.Base.Int.{ℤ, pos, is_negative, ◌==ℤ◌, pos_part}
use ecs150fs.Base.Lists.{take}
use ecs150fs.Base.Bytes.{Bytes, same_string}
use ecs150fs.Apps.Calls.{
  FsApi, HostFiles, Message, empty_file, size_of_file, read_file, content, removed, wrote_file, Cmd,
  ◌>>◌, call, done, exit, die,
}

-- The test of a call's result as a truth value.
abbrev pub failed : ℤ → Bool
failed r = not (r ==ℤ pos 0)

module _ {S : Type 0} (fs : FsApi S) (os : HostFiles S) where
  abbrev pub say : Message → Cmd S ℕ
  say message s = done 0 (os.print message s)

  -- The way out of a command that cannot go on.
  abbrev pub umount_die : {A : Type 0} → Cmd S A
  umount_die = call fs.fs_umount >> λ _. die

  unfoldable pub thread_fs_stat : List Bytes → Cmd S ℕ
  thread_fs_stat (diskname ∷ filename ∷ _) = call (fs.fs_mount diskname) >> λ r.
      if failed r
      then die
      else call (fs.fs_open filename) >> λ fs_fd.
          if is_negative fs_fd
          then umount_die
          else call (fs.fs_stat fs_fd) >> λ stat.
              if is_negative stat
              then (call (fs.fs_close fs_fd) >> λ _. umount_die)
              else if stat ==ℤ pos 0
              then (call (fs.fs_close fs_fd) >> λ _. call fs.fs_umount >> λ _. say empty_file)
              else call (fs.fs_close fs_fd) >> λ r.
                  if failed r
                  then umount_die
                  else call fs.fs_umount >> λ r.
                      if failed r then die else say (size_of_file filename stat)
  thread_fs_stat _ = die

  -- `thread_fs_cat` once the size is known, and not 0.
  unfoldable pub cat_read : Bytes → ℤ → ℤ → Cmd S ℕ
  cat_read filename fs_fd stat s = elim (os.malloc (pos_part stat) s) [
    | none ↦ umount_die s
    | some buf ↦
        (call (fs.fs_read fs_fd buf (pos_part stat)) >> λ (read, buf').
        call (fs.fs_close fs_fd) >> λ r.
        if failed r
        then umount_die
        else call fs.fs_umount >> λ r.
            if failed r
            then die
            else say (read_file filename read stat) >> λ _.
                say (content (take (pos_part stat) buf')))
          s
  ]

  unfoldable pub thread_fs_cat : List Bytes → Cmd S ℕ
  unfolding cat_read
  thread_fs_cat (diskname ∷ filename ∷ _) = call (fs.fs_mount diskname) >> λ r.
      if failed r
      then die
      else call (fs.fs_open filename) >> λ fs_fd.
          if is_negative fs_fd
          then umount_die
          else call (fs.fs_stat fs_fd) >> λ stat.
              if is_negative stat
              then umount_die
              else if stat ==ℤ pos 0
              then say empty_file
              else cat_read filename fs_fd stat
  thread_fs_cat _ = die

  unfoldable pub thread_fs_rm : List Bytes → Cmd S ℕ
  thread_fs_rm (diskname ∷ filename ∷ _) = call (fs.fs_mount diskname) >> λ r.
      if failed r
      then die
      else call (fs.fs_delete filename) >> λ r.
          if failed r
          then umount_die
          else call fs.fs_umount >> λ r. if failed r then die else say (removed filename)
  thread_fs_rm _ = die

  -- `thread_fs_add` once the host's file is mapped to `buf`.
  unfoldable pub add_mapped : Bytes → Bytes → ℤ → ℕ → Bytes → Cmd S ℕ
  add_mapped diskname filename fd size buf = call (fs.fs_mount diskname) >> λ r.
      if failed r
      then die
      else call (fs.fs_create filename) >> λ r.
          if failed r
          then umount_die
          else call (fs.fs_open filename) >> λ fs_fd.
              if is_negative fs_fd
              then umount_die
              else call (fs.fs_write fs_fd buf size) >> λ written. call (fs.fs_close fs_fd) >> λ r.
                  if failed r
                  then umount_die
                  else call fs.fs_umount >> λ r.
                      if failed r
                      then die
                      else say (wrote_file filename written size) >> λ _.
                          λ s. done 0 (os.close_fd fd s)

  -- `open` gives a negative number if it fails.
  unfoldable pub thread_fs_add : List Bytes → Cmd S ℕ
  unfolding add_mapped
  thread_fs_add (diskname ∷ filename ∷ _) s =
      let (fd, s1) = os.open_rdonly filename s in
      if is_negative fd then die s1 else elim (os.fstat fd s1) [
        | none ↦ die s1
        | some (regular, size) ↦ if not regular then die s1 else elim (os.mmap size fd s1) [
          | none ↦ die s1
          | some buf ↦ add_mapped diskname filename fd size buf s1
        ]
      ]
  thread_fs_add _ s = die s

  -- Mount, a call whose result is dropped, and unmount.
  unfoldable pub thread_fs_ls : List Bytes → Cmd S ℕ
  thread_fs_ls (diskname ∷ _) = call (fs.fs_mount diskname) >> λ r.
      if failed r
      then die
      else call fs.fs_ls >> λ _. call fs.fs_umount >> λ r. if failed r then die else done 0
  thread_fs_ls [] = die

  unfoldable pub thread_fs_info : List Bytes → Cmd S ℕ
  thread_fs_info (diskname ∷ _) = call (fs.fs_mount diskname) >> λ r.
      if failed r
      then die
      else call fs.fs_info >> λ _. call fs.fs_umount >> λ r. if failed r then die else done 0
  thread_fs_info [] = die

  module _ (thread_fs_script : List Bytes → Cmd S ℕ) where
    -- The table `commands`: names and functions.
    abbrev pub commands : List (Bytes × (List Bytes → Cmd S ℕ))
    commands =
        (105 ∷ 110 ∷ 102 ∷ 111 ∷ [], thread_fs_info)
        ∷ (108 ∷ 115 ∷ [], thread_fs_ls)
        ∷ (97 ∷ 100 ∷ 100 ∷ [], thread_fs_add)
        ∷ (114 ∷ 109 ∷ [], thread_fs_rm)
        ∷ (99 ∷ 97 ∷ 116 ∷ [], thread_fs_cat)
        ∷ (115 ∷ 116 ∷ 97 ∷ 116 ∷ [], thread_fs_stat)
        ∷ (115 ∷ 99 ∷ 114 ∷ 105 ∷ 112 ∷ 116 ∷ [], thread_fs_script)
        ∷ []

    -- It prints on stderr and ends the process.
    abbrev pub usage : Cmd S ℕ
    usage = exit 1

    -- The loop over the table, on the entries that are left.
    pub dispatch : Bytes → List Bytes → List (Bytes × (List Bytes → Cmd S ℕ)) → Cmd S ℕ
    dispatch cmd args [] = usage
    dispatch cmd args ((name, func) ∷ rest) =
        let later = dispatch cmd args rest in
        if same_string cmd name then (func args >> λ _. done 0) else later

    -- The words behind the program's own name. The result is the exit status of a normal end.
    unfoldable pub main : List Bytes → Cmd S ℕ
    unfolding dispatch
    main [] = usage
    main (cmd ∷ args) = dispatch cmd args commands
