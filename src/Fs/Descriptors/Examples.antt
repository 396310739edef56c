-- ===== src/Fs/Descriptors/Examples.antt =====
-- The theorems on descriptors at small states.
use ecs150fs.Base.{ℕ, ◌+◌, ◌≤◌, ◌<◌, ◌≡◌, refl, ◌⊎◌, true, false, some, [], ◌∷◌, arith}
use ecs150fs.Base.Int.{pos, minus_one}
use ecs150fs.Base.Lists.{length, get_elem?, set}
use ecs150fs.Base.Bytes.{c_str}
use ecs150fs.Fs.State.{RootEntry, FdTableEntry, FsSystem, State, live, returns, undefined, state}
use ecs150fs.Fs.Samples.{name_a, name_b, file_entry, closed_fd, open_fd, with_entries, fresh}
use ecs150fs.Fs.Directory.{is_valid_name, name_taken}
use ecs150fs.Fs.Descriptors.{fs_open, fs_close, fs_stat, fs_lseek, is_valid_fd, update_fd}
use ecs150fs.Fs.Descriptors.Opening.{fs_open_existing, fs_open_descriptor}
use ecs150fs.Fs.Descriptors.Closing.{fs_close_lem}
use ecs150fs.Fs.Descriptors.Seeking.{fs_lseek_lem}
use ecs150fs.Fs.Directory.{fs_delete}
use ecs150fs.Fs.Directory.Freeing.{IsSound}
use ecs150fs.Fs.Directory.Examples.{two_files, two-IsSound, b_taken, a_deleted, a_deletes}
use ecs150fs.Fs.Descriptors.Deleting.{fs_delete_after, fs_delete_open}
use ecs150fs.Fs.Descriptors.Invariant.{deleted, here, next, fs_open_distinct}

abbrev entry_b : RootEntry
entry_b = file_entry name_b 4096 2

abbrev start : State
start = fresh (entry_b ∷ [])

abbrev one_open : State
one_open = state (live (with_entries (entry_b ∷ []))) (open_fd name_a ∷ closed_fd ∷ []) 1

abbrev two_open : State
two_open = state (live (with_entries (entry_b ∷ []))) (open_fd name_a ∷ open_fd name_a ∷ []) 2

opens : fs_open true name_a start ≡ returns (pos 0, one_open)
unfolding fs_open is_valid_name name_taken update_fd
opens = refl

opens_again : fs_open true name_a one_open ≡ returns (pos 1, two_open)
unfolding fs_open is_valid_name name_taken update_fd
opens_again = refl

fs_open_descriptor_example :
    (0 ≡ start.fd_open_count)
    × (one_open.fd_open_count ≡ 0 + 1)
    × ((fs : FsSystem) × (start.file_system ≡ live fs) × (name_taken name_a fs.root_dir ≡ false))
    × (one_open.file_system ≡ start.file_system)
    × (is_valid_fd (pos 0) one_open ≡ true)
    × ((e : FdTableEntry) × (get_elem? one_open.fd_table 0 ≡ some e)
        × (one_open.fd_table ≡ set start.fd_table 0 e)
        × (c_str e.filename ≡ c_str name_a)
        × (e.offset ≡ 0))
fs_open_descriptor_example = fs_open_descriptor true name_a start one_open 0 opens

taken_b : name_taken name_b (entry_b ∷ []) ≡ true
unfolding name_taken
taken_b = refl

fs_open_existing_example : fs_open true name_b start ≡ returns (minus_one, start)
fs_open_existing_example =
    fs_open_existing true name_b start (with_entries (entry_b ∷ [])) refl taken_b (omega arith)

fs_open_distinct_example : 0 < 1
fs_open_distinct_example =
    fs_open_distinct start one_open one_open two_open true true name_a name_a 0 1 opens here
      opens_again

fs_close_lem_example :
    ((is_valid_fd (pos 0) one_open ≡ false)
      × (fs_close (pos 0) one_open ≡ returns (minus_one, one_open)))
    ⊎ ((s' : State) × (is_valid_fd (pos 0) one_open ≡ true)
        × (fs_close (pos 0) one_open ≡ returns (pos 0, s'))
        × (is_valid_fd (pos 0) s' ≡ false)
        × (fs_close (pos 0) s' ≡ returns (minus_one, s'))
        × (fs_stat (pos 0) s' ≡ returns minus_one)
        × (s'.file_system ≡ one_open.file_system)
        × (s'.fd_open_count ≡ one_open.fd_open_count)
        × (i : ℕ) × (e : FdTableEntry) × (pos 0 ≡ pos i)
        × (s'.fd_table ≡ set one_open.fd_table i e))
fs_close_lem_example = fs_close_lem (pos 0) one_open

valid_0 : is_valid_fd (pos 0) one_open ≡ true
unfolding is_valid_fd
valid_0 = refl

invalid_1 : is_valid_fd (pos 1) one_open ≡ false
unfolding is_valid_fd
invalid_1 = refl

fs_lseek_lem_example :
    ((is_valid_fd (pos 1) one_open ≡ true)
      × (fs_lseek (pos 1) 500 one_open ≡ returns (minus_one, one_open)))
    ⊎ ((is_valid_fd (pos 1) one_open ≡ false)
        × (((1 < length one_open.fd_table)
              × (e : FdTableEntry) × (get_elem? one_open.fd_table 1 ≡ some e)
              × (fs_lseek (pos 1) 500 one_open
                  ≡ returns (
                    pos 0,
                    record one_open {
                      fd_table = set one_open.fd_table 1 (record e { offset = 500 });
                    },
                  )))
            ⊎ ((length one_open.fd_table ≤ 1) × (fs_lseek (pos 1) 500 one_open ≡ undefined))))
fs_lseek_lem_example = fs_lseek_lem 1 500 one_open (omega arith)

-- File "b" is deleted after file "a".
fs_delete_after_example :
    (t' : State) × (fs_delete name_b a_deleted ≡ returns (pos 0, t')) × IsSound t'
fs_delete_after_example =
    fs_delete_after two_files a_deleted name_b _ two-IsSound (next here (deleted name_a a_deletes))
      refl b_taken

-- File "b" is open on descriptor 0.
abbrev b_open : State
b_open = record two_files { fd_table = open_fd name_b ∷ closed_fd ∷ []; fd_open_count = 1 }

abbrev b_open-IsSound : IsSound b_open
b_open-IsSound = record {
  fs = two-IsSound.fs;
  fat = two-IsSound.fat;
  used = two-IsSound.used;
  mounted = refl;
  has_fat = refl;
  owns = two-IsSound.owns;
}

b_there : name_taken name_b b_open-IsSound.fs.root_dir ≡ true
unfolding name_taken
b_there = refl

b_valid : is_valid_fd (pos 0) b_open ≡ true
unfolding is_valid_fd
b_valid = refl

fs_delete_open_example :
    (s' : State) × (fs_delete name_b b_open ≡ returns (pos 0, s'))
    × (is_valid_fd (pos 0) s' ≡ true)
    × (get_elem? s'.fd_table 0 ≡ some (open_fd name_b))
fs_delete_open_example =
    fs_delete_open b_open name_b 0 (open_fd name_b) b_open-IsSound b_there refl refl b_valid
