-- ===== src/Revisions/Creating.antt =====
-- The search over the directory in fs_create and what follows it, which libfs/fs2.0.c and
-- libfs/fs3.0.c have in the same text.
pub mod Erasing
use ecs150fs.Base.{ℕ, ◌+◌, Bool, false, none, some, List, [], ◌∷◌, ◌++◌, if◌then◌else◌}
use ecs150fs.Base.Int.{ℤ, pos, minus_one}
use ecs150fs.Base.Lists.{get_elem?, set, drop}
use ecs150fs.Base.Bytes.{Bytes, c_str, strlen, same_string}
use ecs150fs.Fs.State.{live, Outcome, returns, undefined}
use ecs150fs.Revisions.Structures.{RootEntry, FsSystem, State}

-- How the search of `fs_create` over the directory ends.
pub data Search : Type 0 where
  exists : Search
  free_entry_index : ℕ → Search
  full : Search

-- The test `entry_filename == '\0'` compares the address of an array with the null pointer.
unfoldable pub no_entry_filename : RootEntry → Bool
no_entry_filename e = false

-- `memset(entry_filename, 0, sizeof(char))` clears the first character.
abbrev pub clean : RootEntry → RootEntry
clean e = record e { filename = set e.filename 0 0 }

unfoldable pub search : ℕ → Bytes → List RootEntry → Search × List RootEntry
unfolding no_entry_filename
search i filename [] = (full, [])
search i filename (e ∷ es) =
    let (found, es') = search (i + 1) filename es in
    if same_string filename e.filename
    then (exists, e ∷ es)
    else if no_entry_filename e
    then (free_entry_index i, e ∷ es)
    else (found, clean e ∷ es')

-- The name is copied without its terminator.
abbrev pub new_entry : Bytes → RootEntry → RootEntry
new_entry filename e = record e {
  filename = c_str filename ++ drop (strlen filename) e.filename;
  file_size = pos 0;
  file_first_index = minus_one;
}

-- `fs_create` behind its guards.
unfoldable pub create_entry : Bytes → FsSystem → Outcome (ℤ × State)
unfolding search
create_entry filename fs =
    let (found, entries) = search 0 filename fs.root_dir in
    let s = live (record fs { root_dir = entries }) in
    elim found [
      | exists ↦ returns (minus_one, s)
      | full ↦ returns (minus_one, s)
      | free_entry_index i ↦ elim (get_elem? entries i) [
        | none ↦ undefined
        | some e ↦
            returns (pos 0, live (record fs { root_dir = set entries i (new_entry filename e) }))
      ]
    ]
