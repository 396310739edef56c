-- ===== src/Apps/SimplePrograms.antt =====
-- apps/simple_writer.c and apps/simple_reader.c, over the interface of libfs/fs.h.
pub mod Failing
use ecs150fs.Base.{ℕ, Bool, not, List, [], ◌∷◌, if◌then◌else◌}
use ecs150fs.Base.Int.{pos, is_negative, ◌==ℤ◌}
use ecs150fs.Base.Lists.{take}
use ecs150fs.Base.Bytes.{Bytes, same_string}
use ecs150fs.Apps.Calls.{FsApi, Cmd, crashes, ◌>>◌, call, done, die}

-- "myfile"
abbrev pub myfile : Bytes
myfile = 109 ∷ 121 ∷ 102 ∷ 105 ∷ 108 ∷ 101 ∷ []

-- The letters from a to z, an array that ends without a terminator.
abbrev pub letters : Bytes
letters =
    97 ∷ 98 ∷ 99 ∷ 100 ∷ 101 ∷ 102 ∷ 103 ∷ 104 ∷ 105 ∷ 106 ∷ 107 ∷ 108 ∷ 109 ∷ 110 ∷ 111 ∷ 112 ∷ 113
    ∷ 114 ∷ 115 ∷ 116 ∷ 117 ∷ 118 ∷ 119 ∷ 120 ∷ 121 ∷ 122 ∷ []

-- "mnopqrstuv"
abbrev pub middle_letters : Bytes
middle_letters = 109 ∷ 110 ∷ 111 ∷ 112 ∷ 113 ∷ 114 ∷ 115 ∷ 116 ∷ 117 ∷ 118 ∷ []

-- `strncmp(s, t, n) == 0`.
abbrev pub same_prefix : ℕ → Bytes → Bytes → Bool
same_prefix n s t = same_string (take n s) (take n t)

-- The arguments are the words behind the program's name. The test `argc < 1` is never true, so
-- without a word the null pointer behind the last argument is the name of the disk, and is followed.
-- An ASSERT that fails ends the process with status 1, as `die` does.
module _ {S : Type 0} (fs : FsApi S) where
  unfoldable pub simple_writer : List Bytes → Cmd S ℕ
  simple_writer [] s = crashes
  simple_writer (diskname ∷ _) s =
      (call (fs.fs_mount diskname) >> λ ret.
      if not (ret ==ℤ pos 0)
      then die
      else call (fs.fs_create myfile) >> λ ret.
          if not (ret ==ℤ pos 0)
          then die
          else call (fs.fs_open myfile) >> λ fd.
              if is_negative fd
              then die
              else call (fs.fs_write fd letters 26) >> λ ret.
                  if not (ret ==ℤ pos 26)
                  then die
                  else call (fs.fs_close fd) >> λ _. call fs.fs_umount >> λ _. done 0)
        s

  -- `buf` is what the array holds at the start.
  unfoldable pub simple_reader : (buf : Bytes) → List Bytes → Cmd S ℕ
  simple_reader buf [] s = crashes
  simple_reader buf (diskname ∷ _) s =
      (call (fs.fs_mount diskname) >> λ ret.
      if not (ret ==ℤ pos 0)
      then die
      else call (fs.fs_open myfile) >> λ fd.
          if is_negative fd
          then die
          else call (fs.fs_lseek fd 12) >> λ _. call (fs.fs_read fd buf 10) >> λ (ret, buf').
              if not (ret ==ℤ pos 10)
              then die
              else if not (same_prefix 10 buf' middle_letters)
              then die
              else call (fs.fs_close fd) >> λ _. call fs.fs_umount >> λ _. done 0)
        s
