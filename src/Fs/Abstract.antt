-- ===== src/Fs/Abstract.antt =====
-- What the calls of libfs/fs.c that work in memory promise, without the entries of the directory,
-- the FAT and the table: an abstract machine over sets of names.
pub mod Names
pub mod Refining
pub mod Histories
mod Examples
use ecs150fs.Base.{
  ℕ, ◌+◌, Bool, true, false, not, ◌&&◌, ◌||◌, Option, none, some, List, [], ◌∷◌, leb, ◌==◌,
  if◌then◌else◌,
}
use ecs150fs.Base.Int.{ℤ, pos, minus_one}
use ecs150fs.Base.Lists.{length}
use ecs150fs.Base.Bytes.{Bytes, same_string}
use ecs150fs.Fs.State.{RootEntry, FsSystem, State, Pointer, live, Outcome, returns, ◌>>=◌}
use ecs150fs.Fs.Directory.{is_valid_name, empty, fs_create, fs_delete}
use ecs150fs.Fs.Directory.Creation.{any_free}
use ecs150fs.Fs.Descriptors.{fs_open}

-- The names of files, the names that deleted files have left, whether an entry is free, and how many
-- opens there were of how many that can be.
pub record View : Type 0 where
  pub used : Bytes → Bool
  pub left : Bytes → Bool
  pub free : Bool
  pub opens : ℕ
  pub capacity : ℕ

abbrev pub used_name : Bytes → List RootEntry → Bool
used_name f [] = false
used_name f (e ∷ es) = (not (empty e) && same_string e.filename f) || used_name f es

abbrev pub left_name : Bytes → List RootEntry → Bool
left_name f [] = false
left_name f (e ∷ es) = (empty e && same_string e.filename f) || left_name f es

abbrev pub directory : Pointer FsSystem → List RootEntry
directory (live fs) = fs.root_dir
directory _ = []

abbrev pub view : State → View
view s = record {
  used = λ f. used_name f (directory s.file_system);
  left = λ f. left_name f (directory s.file_system);
  free = any_free (directory s.file_system);
  opens = s.fd_open_count;
  capacity = length s.fd_table;
}

-- A call, with the value that isValidName leaves unspecified.
pub data Call : Type 0 where
  create : Bool → Bytes → Call
  delete : Bytes → Call
  open_name : Bool → Bytes → Call

abbrev pub run : Call → State → Outcome (ℤ × State)
run (create unspecified f) s = fs_create unspecified f s
run (delete f) s = fs_delete f s
run (open_name unspecified f) s = fs_open unspecified f s

-- Whether a client may make the call: the file to delete must be there.
abbrev pub allowed : Call → View → Bool
allowed (create _ _) v = true
allowed (delete f) v = v.used f || v.left f
allowed (open_name _ _) v = true

-- The name is new and becomes a file; no entry is free from then on.
abbrev pub created : Bytes → View → View
created f v = record v { used = λ g. same_string f g || v.used g; left = λ g. false; free = false }

-- The name is a file's no more, and stays behind in a free entry.
abbrev pub deleted : Bytes → View → View
deleted f v = record v {
  used = λ g. not (same_string f g) && v.used g;
  left = λ g. v.left g || (same_string f g && v.used g);
  free = true;
}

abbrev pub promised : Call → View → ℤ × View
promised (create unspecified f) v =
    if is_valid_name unspecified f && not (v.used f || v.left f) && v.free
    then (pos 0, created f v)
    else (minus_one, v)
promised (delete f) v = (pos 0, deleted f v)
promised (open_name unspecified f) v =
    if is_valid_name unspecified f && not (v.opens == v.capacity) && not (v.used f || v.left f)
    then (pos v.opens, record v { opens = v.opens + 1 })
    else (minus_one, v)

-- Calls one after the other, with what they return.
unfoldable pub run_all : List Call → State → Outcome (List ℤ × State)
run_all [] s = returns ([], s)
run_all (c ∷ cs) s = run c s >>= λ (r, t). run_all cs t >>= λ (rs, u). returns (r ∷ rs, u)

unfoldable pub promised_all : List Call → View → Option (List ℤ × View)
promised_all [] v = some ([], v)
promised_all (c ∷ cs) v =
    let (r, v1) = promised c v in
    let rest = promised_all cs v1 in
    if allowed c v then elim rest [ none ↦ none | some (rs, v2) ↦ some (r ∷ rs, v2) ] else none
