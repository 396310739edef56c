-- ===== src/Apps/Examples.antt =====
-- The theorems on the programs under apps at concrete inputs: a library that is as simple as can be,
-- and libfs/fs.c on a disk of 2048 blocks.
use ecs150fs.Base.{ℕ, ◌*◌, ◌≡◌, ◌⊎◌, refl, Bool, true, false, none, some, List, [], ◌∷◌, arith}
use ecs150fs.Base.Int.{ℤ, pos, minus_one}
use ecs150fs.Base.Lists.{get_elem?, replicate}
use ecs150fs.Base.Bytes.{Bytes}
use ecs150fs.Disk.{closed_disk}
use ecs150fs.Disk.Examples.{World, host}
use ecs150fs.Fs.State.{null, state, Outcome, returns}
use ecs150fs.Fs.Samples.{with_entries, closed_fd, super_block, name_a}
use ecs150fs.Fs.Layout.{store_superblock}
use ecs150fs.Apps.Calls.{FsApi, HostFiles, Message, empty_file, successful, Run, goes_on}
use ecs150fs.Apps.TestFs.{thread_fs_cat, thread_fs_stat, thread_fs_add, main}
use ecs150fs.Apps.TestFs.Watching.{
  Call, mount_call, umount_call, other_call, logged, beside, whole_run, IsWhole,
}
use ecs150fs.Apps.TestFs.Sessions.{SeesEmpty, thread_fs_cat_ends, main_whole}
use ecs150fs.Apps.SimplePrograms.{simple_writer, simple_reader}
use ecs150fs.Apps.SimplePrograms.Failing.{simple_programs_fail}
use ecs150fs.Apps.MountTester.{mount_tester}
use ecs150fs.Apps.MountTester.Failing.{TwoFail, mount_tester_once}
use ecs150fs.Apps.TestFs.Script.{
  thread_fs_script, run_lines, mount_word, umount_word, read_word, data_word,
}
use ecs150fs.Apps.TestFs.Script.Lines.{still_mounted}
use ecs150fs.Apps.TestFs.Script.Mounting.{thread_fs_script_unmounts}
use ecs150fs.Apps.TestFs.Script.Reading.{StopsHere, read_line_fails}
use ecs150fs.Apps.Library.{Machine, fs_c}
use ecs150fs.Apps.Library.Linking.{HasRoom, GivesUp}
use ecs150fs.Apps.Library.Ending.{SaysEmpty, stat_cat_ends}
use ecs150fs.Apps.Library.Adding.{thread_fs_add-GivesUp}

-- All calls succeed, and a file is empty; the state is what was printed.
abbrev plain : FsApi (List Message)
plain = record {
  fs_mount = λ name s. returns (pos 0, s);
  fs_umount = λ s. returns (pos 0, s);
  fs_info = λ s. returns (pos 0, s);
  fs_create = λ name s. returns (pos 0, s);
  fs_delete = λ name s. returns (pos 0, s);
  fs_ls = λ s. returns (pos 0, s);
  fs_open = λ name s. returns (pos 3, s);
  fs_close = λ fd s. returns (pos 0, s);
  fs_stat = λ fd s. returns (pos 0, s);
  fs_lseek = λ fd offset s. returns (pos 0, s);
  fs_write = λ fd buf n s. returns (pos n, s);
  fs_read = λ fd buf n s. returns ((pos n, buf), s);
}

-- A script of two lines: MOUNT and UMOUNT.
abbrev script_text : Bytes
script_text = 77 ∷ 79 ∷ 85 ∷ 78 ∷ 84 ∷ 10 ∷ 85 ∷ 77 ∷ 79 ∷ 85 ∷ 78 ∷ 84 ∷ 10 ∷ []

abbrev files_over : {S : Type 0} → (Message → S → S) → HostFiles S
files_over print = record {
  print = print;
  open_rdonly = λ name s. (pos 4, s);
  fstat = λ fd s. some (true, 3);
  mmap = λ n fd s. some (1 ∷ 2 ∷ 3 ∷ []);
  malloc = λ n s. some (replicate n 0);
  close_fd = λ fd s. s;
  fopen = λ name s. some script_text;
}

abbrev plain_files : HostFiles (List Message)
plain_files = files_over (λ message s. message ∷ s)

abbrev disk_name : Bytes
disk_name = 69 ∷ 67 ∷ 83 ∷ []

abbrev words : List Bytes
words = disk_name ∷ name_a ∷ []

abbrev stat_word : Bytes
stat_word = 115 ∷ 116 ∷ 97 ∷ 116 ∷ []

thread_fs_cat_ends_example :
    let run = thread_fs_cat (logged plain) (beside plain_files) words ([], []) in
    (IsWhole run ⊎ SeesEmpty plain plain_files disk_name name_a [])
    × ((e : SeesEmpty plain plain_files disk_name name_a [])
        → run
          ≡ goes_on 0 (
            plain_files.print empty_file e.third,
            other_call (pos 0) ∷ other_call e.opened ∷ mount_call e.mounted ∷ [],
          ))
thread_fs_cat_ends_example = thread_fs_cat_ends plain plain_files disk_name name_a [] []

abbrev watched_script : List Bytes → List Message × List Call → Run (List Message × List Call) ℕ
watched_script = thread_fs_script (logged plain) (beside plain_files)

main_whole_example :
    whole_run (main (logged plain) (beside plain_files) watched_script (stat_word ∷ words) ([], []))
    ≡ true
main_whole_example = main_whole plain plain_files watched_script stat_word words [] refl refl

script_runs :
    watched_script words ([], [])
    ≡ goes_on 0 (
      successful umount_word ∷ successful mount_word ∷ [],
      umount_call (pos 0) ∷ mount_call (pos 0) ∷ [],
    )
unfolding thread_fs_script
script_runs = refl

thread_fs_script_unmounts_example :
    still_mounted (umount_call (pos 0) ∷ mount_call (pos 0) ∷ []) ≡ false
thread_fs_script_unmounts_example =
    thread_fs_script_unmounts plain plain_files words []
      (successful umount_word ∷ successful mount_word ∷ []) _ 0 script_runs

-- "READ", a tab, "5", a tab, "DATA", a tab, and "x".
abbrev read_text : Bytes
read_text = 82 ∷ 69 ∷ 65 ∷ 68 ∷ 9 ∷ 53 ∷ 9 ∷ 68 ∷ 65 ∷ 84 ∷ 65 ∷ 9 ∷ 120 ∷ 10 ∷ []

abbrev read_args : List Bytes
read_args = (53 ∷ []) ∷ data_word ∷ (120 ∷ []) ∷ []

read_line_fails_example :
    StopsHere plain plain_files
      (run_lines plain plain_files disk_name (read_text ∷ []) (pos 3) true [])
read_line_fails_example =
    read_line_fails plain plain_files disk_name read_text read_word read_args [] (pos 3) true []
      refl refl

-- A host whose file has the super block in front and zeros behind it.
abbrev formatted : World
formatted = record {
  image = λ a. elim (get_elem? (store_superblock super_block) a) [ none ↦ 0 | some b ↦ b ];
  offset = 0;
  size = 2048 * 4096;
}

abbrev machine : Machine World
machine = record {
  variables = state null (closed_fd ∷ closed_fd ∷ []) 0;
  disk = closed_disk;
  host = formatted;
  output = [];
}

abbrev no_info : Machine World → Outcome (ℤ × Machine World)
no_info m = returns (minus_one, m)

abbrev any_name : Bytes → Machine World → Bool
any_name f m = true

abbrev linked : FsApi (Machine World)
linked = fs_c host (with_entries []) any_name no_info

abbrev linked_files : HostFiles (Machine World)
linked_files = files_over (λ message m. record m { output = message ∷ m.output })

stat_cat_ends_example :
    SaysEmpty host
      (with_entries [])
      any_name
      no_info
      linked_files
      (thread_fs_stat linked linked_files words machine)
    × SaysEmpty host
        (with_entries [])
        any_name
        no_info
        linked_files
        (thread_fs_cat linked linked_files words machine)
stat_cat_ends_example =
    stat_cat_ends host (with_entries []) any_name no_info linked_files words machine

machine-HasRoom : HasRoom machine
machine-HasRoom = omega arith

thread_fs_add-GivesUp_example : GivesUp (thread_fs_add linked linked_files words machine)
thread_fs_add-GivesUp_example =
    thread_fs_add-GivesUp host (with_entries []) any_name no_info linked_files (λ name m. refl)
      words machine machine-HasRoom

simple_programs_fail_example :
    GivesUp (simple_writer linked words machine)
    × GivesUp (simple_reader linked (replicate 26 0) words machine)
simple_programs_fail_example =
    simple_programs_fail host (with_entries []) any_name no_info (replicate 26 0) words machine
      machine-HasRoom

mount_tester_once_example : TwoFail (mount_tester linked machine)
mount_tester_once_example = mount_tester_once host (with_entries []) any_name no_info machine
