-- ===== src/Fs/Directory/Examples.antt =====
-- The theorems on the directory at small states.
use ecs150fs.Base.{ℕ, ◌≡◌, refl, true, some, List, [], ◌∷◌, map, arith, if◌then◌else◌}
use ecs150fs.Base.Int.{pos, minus_one}
use ecs150fs.Base.Lists.{get_elem?}
use ecs150fs.Fs.State.{RootEntry, FsSystem, State, live, returns, state}
use ecs150fs.Fs.Samples.{
  name_a, name_b, super_block, file_entry, free_entry, small_fat, closed_fd, with_entries, fresh,
}
use ecs150fs.Fs.Directory.{
  is_valid_name, name_taken, fill_free, reset_named, free_blocks, listing, fs_create, fs_delete,
  fs_ls,
}
use ecs150fs.Fs.Directory.Making.{CreateEnds, fs_create_lem}
use ecs150fs.Fs.Directory.Chain.{Chain, stop, link, member}
use ecs150fs.Fs.Directory.Owning.{Owns, no_file, file}
use ecs150fs.Fs.Directory.Freeing.{IsSound, fs_delete-IsSound}
use ecs150fs.Fs.Directory.Deletion.{mounted, reset_if_named, fs_delete-frees}

-- Both free entries become the file.
abbrev pub filled : State
filled =
    state
      (live (
        with_entries (
          record free_entry {
            filename = 97 ∷ 0 ∷ 0 ∷ 0 ∷ 0 ∷ 0 ∷ 0 ∷ 0 ∷ 0 ∷ 0 ∷ 0 ∷ 0 ∷ 0 ∷ 0 ∷ 0 ∷ 0 ∷ [];
            is_empty = 0;
          }
          ∷ record free_entry {
            filename = 97 ∷ 0 ∷ 0 ∷ 0 ∷ 0 ∷ 0 ∷ 0 ∷ 0 ∷ 0 ∷ 0 ∷ 0 ∷ 0 ∷ 0 ∷ 0 ∷ 0 ∷ 0 ∷ [];
            is_empty = 0;
          }
          ∷ [])))
      (closed_fd ∷ closed_fd ∷ []) 0

pub creates : fs_create true name_a (fresh (free_entry ∷ free_entry ∷ [])) ≡ returns (pos 0, filled)
unfolding fs_create is_valid_name name_taken fill_free
creates = refl

fs_create_lem_example :
    CreateEnds true name_a
      (fresh (free_entry ∷ free_entry ∷ []))
      (fs_create true name_a (fresh (free_entry ∷ free_entry ∷ [])))
fs_create_lem_example = fs_create_lem true name_a (fresh (free_entry ∷ free_entry ∷ []))

lists_both : fs_ls filled ≡ returns (pos 0, (0, name_a) ∷ (1, name_a) ∷ [])
unfolding fs_ls listing
lists_both = refl

abbrev entry_a : RootEntry
entry_a = file_entry name_a 8192 1

abbrev small-Chain : Chain small_fat (pos 1) (1 ∷ 3 ∷ [])
small-Chain = link {n = 3} refl refl (link {n = 65535} refl refl stop)

fs_delete-frees_example :
    let entries = entry_a ∷ [] in
    (fat' : List ℕ) × (fs_delete name_a
        (state (mounted super_block entries (some small_fat)) (closed_fd ∷ closed_fd ∷ []) 0)
      ≡ returns (
        pos 0,
        state
            (mounted super_block (map (reset_if_named name_a) entries) (some fat'))
            (closed_fd ∷ closed_fd ∷ [])
            0,
      ))
    × ((j : ℕ)
        → get_elem? fat' j ≡ (if member j (1 ∷ 3 ∷ []) then some 0 else get_elem? small_fat j))
unfolding name_taken
fs_delete-frees_example =
    fs_delete-frees name_a super_block [] [] entry_a small_fat (1 ∷ 3 ∷ []) 8192
      (closed_fd ∷ closed_fd ∷ []) 0 refl refl refl (omega arith) small-Chain refl

abbrev deleted : State
deleted =
    state
      (live
        (record (with_entries
          (record entry_a { file_size = pos 0; file_first_index = minus_one; is_empty = 1 } ∷ [])) {
            fat_blocks = some (65535 ∷ 0 ∷ 0 ∷ 0 ∷ []);
          }))
      (closed_fd ∷ closed_fd ∷ []) 0

deletes : fs_delete name_a (fresh (entry_a ∷ [])) ≡ returns (pos 0, deleted)
unfolding fs_delete reset_named free_blocks
deletes = refl

abbrev entry_b : RootEntry
entry_b = file_entry name_b 4096 2

-- File "a" has the chain 1, 3 and file "b" the chain 2.
abbrev pub two_files : State
two_files = fresh (entry_a ∷ entry_b ∷ [])

abbrev two-Owns : Owns small_fat (entry_a ∷ entry_b ∷ []) (1 ∷ 3 ∷ 2 ∷ [])
two-Owns =
    file {blocks = 1 ∷ 3 ∷ []} small-Chain refl (λ j h. ground arith)
      (file {blocks = 2 ∷ []} (link {n = 0} refl refl stop) refl (λ j h. ground arith) no_file)

abbrev pub two-IsSound : IsSound two_files
two-IsSound = record {
  fs = with_entries (entry_a ∷ entry_b ∷ []);
  fat = small_fat;
  used = 1 ∷ 3 ∷ 2 ∷ [];
  mounted = refl;
  has_fat = refl;
  owns = two-Owns;
}

a_taken : name_taken name_a (entry_a ∷ entry_b ∷ []) ≡ true
unfolding name_taken
a_taken = refl

fs_delete-IsSound_example :
    (s' : State) × (fs_delete name_a two_files ≡ returns (pos 0, s')) × IsSound s'
fs_delete-IsSound_example = fs_delete-IsSound name_a two_files two-IsSound a_taken

abbrev pub a_left : FsSystem
a_left =
    record (with_entries (
      record entry_a { file_size = pos 0; file_first_index = minus_one; is_empty = 1 }
      ∷ entry_b
      ∷ [])) { fat_blocks = some (65535 ∷ 0 ∷ 0 ∷ 0 ∷ []) }

abbrev pub a_deleted : State
a_deleted = state (live a_left) (closed_fd ∷ closed_fd ∷ []) 0

pub a_deletes : fs_delete name_a two_files ≡ returns (pos 0, a_deleted)
unfolding fs_delete reset_named free_blocks
a_deletes = refl

pub b_taken : name_taken name_b a_left.root_dir ≡ true
unfolding name_taken
b_taken = refl
