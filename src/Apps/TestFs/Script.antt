-- ===== src/Apps/TestFs/Script.antt =====
-- apps/test_fs.c: thread_fs_script, which runs the lines of a script. What fgets reads is taken to be
-- fixed when the script is opened. A null pointer for a missing word is taken to be followed.
pub mod Words
pub mod Reading
pub mod Lines
pub mod Mounting
use ecs150fs.Base.{
  ℕ, zero, suc, ◌-◌, ◌+◌, ◌*◌, ◌%◌, ◌^◌, Bool, true, false, not, ◌&&◌, ◌||◌, Option, none, some,
  List, [], ◌∷◌, ltb, leb, ◌==◌, if◌then◌else◌,
}
use ecs150fs.Base.Int.{ℤ, pos, minus_one, is_negative, signed, pattern_of}
use ecs150fs.Base.Lists.{length}
use ecs150fs.Base.Bytes.{Bytes, same_string, strlen}
use ecs150fs.Fs.State.{Outcome}
use ecs150fs.Apps.Calls.{
  FsApi, HostFiles, successful, wrote_bytes, Run, Cmd, crashes, ◌>>◌, call, done, die,
}
use ecs150fs.Apps.TestFs.{failed, say, umount_die, main}
use ecs150fs.Apps.TestFs.Script.Words.{script_lines, words_of, atoi}

abbrev pub mount_word : Bytes
mount_word = 77 ∷ 79 ∷ 85 ∷ 78 ∷ 84 ∷ []

abbrev pub umount_word : Bytes
umount_word = 85 ∷ 77 ∷ 79 ∷ 85 ∷ 78 ∷ 84 ∷ []

abbrev pub create_word : Bytes
create_word = 67 ∷ 82 ∷ 69 ∷ 65 ∷ 84 ∷ 69 ∷ []

abbrev pub delete_word : Bytes
delete_word = 68 ∷ 69 ∷ 76 ∷ 69 ∷ 84 ∷ 69 ∷ []

abbrev pub open_word : Bytes
open_word = 79 ∷ 80 ∷ 69 ∷ 78 ∷ []

abbrev pub close_word : Bytes
close_word = 67 ∷ 76 ∷ 79 ∷ 83 ∷ 69 ∷ []

abbrev pub seek_word : Bytes
seek_word = 83 ∷ 69 ∷ 69 ∷ 75 ∷ []

abbrev pub write_word : Bytes
write_word = 87 ∷ 82 ∷ 73 ∷ 84 ∷ 69 ∷ []

abbrev pub read_word : Bytes
read_word = 82 ∷ 69 ∷ 65 ∷ 68 ∷ []

abbrev pub data_word : Bytes
data_word = 68 ∷ 65 ∷ 84 ∷ 65 ∷ []

abbrev pub file_word : Bytes
file_word = 70 ∷ 73 ∷ 76 ∷ 69 ∷ []

-- The commands, in the order of the comparisons; any other word does nothing.
pub data Command : Type 0 where
  mount_line umount_line create_line delete_line open_line close_line seek_line write_line
        read_line :
      Command
  other_line : Command

abbrev pub command_of : Bytes → Command
command_of command =
    if same_string command mount_word
    then mount_line
    else if same_string command umount_word
    then umount_line
    else if same_string command create_word
    then create_line
    else if same_string command delete_word
    then delete_line
    else if same_string command open_word
    then open_line
    else if same_string command close_word
    then close_line
    else if same_string command seek_word
    then seek_line
    else if same_string command write_word
    then write_line
    else if same_string command read_word
    then read_line
    else other_line

module _ {S : Type 0} (fs : FsApi S) (os : HostFiles S) where
  -- The end of a line: the message, and the values of `fs_fd` and `mounted`.
  abbrev pub went_well : Bytes → ℤ → Bool → Cmd S (ℤ × Bool)
  went_well word fs_fd mounted = say fs os (successful word) >> λ _. done (fs_fd, mounted)

  -- A call of the library that must return 0.
  abbrev pub checked : (S → Outcome (ℤ × S)) → Bytes → ℤ → Bool → Cmd S (ℤ × Bool)
  checked f word fs_fd mounted =
      call f >> λ r. if failed r then umount_die fs os else went_well word fs_fd mounted

  abbrev pub write_data : Option Bytes → ℤ → ℤ → Bool → Cmd S (ℤ × Bool)
  write_data none data_size fs_fd mounted = umount_die fs os
  write_data (some content) data_size fs_fd mounted =
      call (fs.fs_write fs_fd content (pattern_of (2 ^ 64) data_size)) >> λ count.
      if is_negative count
      then umount_die fs os
      else say fs os (wrote_bytes count) >> λ _. done (fs_fd, mounted)

  -- `WRITE FILE`: the size is kept in an `int`.
  abbrev pub write_file : Bytes → ℤ → Bool → Cmd S (ℤ × Bool)
  write_file data_description fs_fd mounted s =
      let (data_fd, s1) = os.open_rdonly data_description s in
      if is_negative data_fd then umount_die fs os s1 else elim (os.fstat data_fd s1) [
        | none ↦ umount_die fs os s1
        | some (regular, size) ↦
            if not regular
            then umount_die fs os s1
            else let data_size = signed (2 ^ 32) (size % 2 ^ 32) in
              write_data (os.mmap (pattern_of (2 ^ 64) data_size) data_fd s1) data_size fs_fd
                mounted s1
      ]

  -- One line, its words behind the command being `command_args[1]` and so on.
  pub run_line : Bytes → Command → List Bytes → ℤ → Bool → Cmd S (ℤ × Bool)
  run_line diskname mount_line args fs_fd mounted =
      call (fs.fs_mount diskname) >> λ r. if failed r then die else went_well mount_word fs_fd true
  run_line diskname umount_line args fs_fd true =
      call fs.fs_umount >> λ r. if failed r then die else went_well umount_word fs_fd false
  run_line diskname umount_line args fs_fd false = went_well umount_word fs_fd false
  run_line diskname create_line (fs_filename ∷ _) fs_fd mounted =
      checked (fs.fs_create fs_filename) create_word fs_fd mounted
  run_line diskname delete_line (fs_filename ∷ _) fs_fd mounted =
      checked (fs.fs_delete fs_filename) delete_word fs_fd mounted
  run_line diskname open_line (fs_filename ∷ _) fs_fd mounted =
      call (fs.fs_open fs_filename) >> λ new_fd.
      if is_negative new_fd then umount_die fs os else went_well open_word new_fd mounted
  run_line diskname close_line args fs_fd mounted =
      checked (fs.fs_close fs_fd) close_word fs_fd mounted
  run_line diskname seek_line (offset ∷ _) fs_fd mounted =
      checked (fs.fs_lseek fs_fd (pattern_of (2 ^ 64) (atoi offset))) seek_word fs_fd mounted
  run_line diskname write_line (data_source ∷ data_description ∷ _) fs_fd mounted =
      if same_string data_source data_word
      then write_data (some data_description) (pos (strlen data_description)) fs_fd mounted
      else if same_string data_source file_word
      then write_file data_description fs_fd mounted
      else write_data none (pos 0) fs_fd mounted
  -- Without a third word, `strlen` follows the null pointer, and `open` of it fails.
  run_line diskname write_line (data_source ∷ []) fs_fd mounted =
      if same_string data_source data_word
      then (λ s. crashes)
      else write_data none (pos 0) fs_fd mounted
  -- The third word behind READ is missing, since four words are too many: `strlen` follows the null
  -- pointer, and `open` of it fails.
  run_line diskname read_line (read_req_length ∷ data_source ∷ _) fs_fd mounted =
      if same_string data_source data_word then (λ s. crashes) else umount_die fs os
  run_line diskname other_line args fs_fd mounted = done (fs_fd, mounted)
  run_line diskname _ _ fs_fd mounted = λ s. crashes

  -- The body of the loop on a line's words, `continue` being the rounds that are left; a line with no
  -- word ends the loop. `command_args` has four elements, and the inner loop over the words writes a
  -- fifth when there are four or more.
  pub run_words :
      Bytes → (words : List Bytes) → ℤ → Bool → (continue : ℤ → Bool → Cmd S Bool) → Cmd S Bool
  unfolding run_line
  run_words diskname [] fs_fd mounted continue = done mounted
  run_words diskname (command ∷ args) fs_fd mounted continue =
      if leb 3 (length args)
      then (λ s. crashes)
      else (run_line diskname (command_of command) args fs_fd mounted >> λ (new_fd, now_mounted).
          continue new_fd now_mounted)

  -- The loop over the lines. The result is `mounted`.
  pub run_lines : Bytes → List Bytes → ℤ → Bool → Cmd S Bool
  unfolding run_words
  run_lines diskname [] fs_fd mounted = done mounted
  run_lines diskname (line ∷ lines) fs_fd mounted =
      run_words diskname (words_of line) fs_fd mounted
        (λ new_fd now_mounted. run_lines diskname lines new_fd now_mounted)

  unfoldable pub thread_fs_script : List Bytes → Cmd S ℕ
  unfolding run_lines
  thread_fs_script (diskname ∷ script ∷ _) s = elim (os.fopen script s) [
    | none ↦ die s
    | some text ↦
        (run_lines diskname (script_lines text) minus_one false >> λ mounted.
        if mounted then (call fs.fs_umount >> λ r. if failed r then die else done 0) else done 0)
          s
  ]
  thread_fs_script _ s = die s

  -- The program: `main` with the whole table.
  abbrev pub test_fs : List Bytes → Cmd S ℕ
  test_fs = main fs os thread_fs_script
