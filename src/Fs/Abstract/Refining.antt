-- ===== src/Fs/Abstract/Refining.antt =====
-- The calls of libfs/fs.c that work in memory against the abstract machine.
use ecs150fs.Base.{
  ℕ, ◌+◌, ◌≤◌, ◌≡◌, refl, ◌∙◌, ap, sym, Bool, true, ◌&&◌, ◌||◌, List, arith, ◌==◌, Bool-cases,
  Option-cases, inl, inr,
}
use mathlib.Core.Path.{subst}
use ecs150fs.Base.Lists.{length, get_elem?, set, length-set, le_of_get_elem?-none}
use ecs150fs.Base.Bytes.{Bytes, same_string}
use ecs150fs.Fs.State.{FsSystem, FdTableEntry, State, live, returns, state}
use ecs150fs.Fs.Directory.{is_valid_name, name_taken, fs_create, fill_free, reset_named}
use ecs150fs.Fs.Directory.Creation.{any_free, fill_free-found, fill_free-none_left, fill_free-same}
use ecs150fs.Fs.Directory.Deletion.{fs_delete-names, reset_named-map}
use ecs150fs.Fs.Directory.Freeing.{IsSound, fs_delete-IsSound}
use ecs150fs.Fs.Descriptors.{fs_open, update_fd}
use ecs150fs.Fs.Descriptors.Opening.{opened_entry}
use ecs150fs.Fs.Abstract.{
  view, Call, create, delete, open_name, run, allowed, promised, created, deleted, used_name,
}
use ecs150fs.Fs.Abstract.Names.{
  name_taken-used, used_name-fill_free, left_name-fill_free, used_name-reset_named,
  left_name-reset_named, any_free-reset_named,
}

-- A call that returned what the abstract machine says, in a state that looks as it says.
abbrev pub Keeps : Call → State → Type 0
Keeps c s =
    (s' : State) × (run c s ≡ returns ((promised c (view s)).0, s'))
    × (view s' ≡ (promised c (view s)).1)

module _ (fs : FsSystem) (table : List FdTableEntry) (count : ℕ) where
  abbrev here : State
  here = state (live fs) table count

  abbrev with_files : Bytes → State
  with_files f = state (live (record fs { root_dir = (fill_free f fs.root_dir).1 })) table count

  view-created :
      (f : Bytes) → any_free fs.root_dir ≡ true → view (with_files f) ≡ created f (view here)
  view-created f some_free = λ i. record {
    used = λ g.
        (used_name-fill_free f g fs.root_dir
            ∙ ap (λ b. (b && same_string f g) || used_name g fs.root_dir) some_free)
          i;
    left = λ g. left_name-fill_free f g fs.root_dir i;
    free = fill_free-none_left f fs.root_dir i;
    opens = count;
    capacity = length table;
  }

  create-Keeps : (unspecified : Bool) (f : Bytes) → Keeps (create unspecified f) here
  unfolding fs_create
  create-Keeps unspecified f =
      let names = name_taken-used f fs.root_dir in
      elim (Bool-cases (is_valid_name unspecified f)) [
        | inr n ↦ (here, rw n refl, rw n refl)
        | inl y ↦ elim (Bool-cases (name_taken f fs.root_dir)) [
          | inl t ↦ (here, rw (y, t, sym names ∙ t) refl, rw (y, sym names ∙ t) refl)
          | inr t ↦ elim (Bool-cases (any_free fs.root_dir)) [
            | inl a ↦ (
              with_files f,
              rw (y, t, fill_free-found, a, sym names ∙ t) refl,
              rw (y, sym names ∙ t, a) (view-created f a),
            )
            | inr a ↦ (
              here,
              rw (y, t, fill_free-found, a, fill_free-same f fs.root_dir a, sym names ∙ t) refl,
              rw (y, sym names ∙ t, a) refl,
            )
          ]
        ]
      ]

  view-deleted :
      (f : Bytes) (s' : State) (fs' : FsSystem)
      → name_taken f fs.root_dir ≡ true
      → s' ≡ state (live fs') table count
      → fs'.root_dir ≡ (reset_named f fs.root_dir).1
      → view s' ≡ deleted f (view here)
  view-deleted f s' fs' taken e same =
      rw (e, same)
        (λ i. record {
          used = λ g. used_name-reset_named f g fs.root_dir i;
          left = λ g. left_name-reset_named f g fs.root_dir i;
          free = any_free-reset_named f fs.root_dir taken i;
          opens = count;
          capacity = length table;
        })

  open-Keeps :
      (unspecified : Bool) (f : Bytes) → count ≤ length table → Keeps (open_name unspecified f) here
  unfolding fs_open update_fd
  open-Keeps unspecified f room =
      let names = name_taken-used f fs.root_dir in
      elim (Bool-cases (is_valid_name unspecified f)) [
        | inr n ↦ (here, rw n refl, rw n refl)
        | inl y ↦ elim (Bool-cases (count == length table)) [
          | inl c ↦ (here, rw (y, c) refl, rw (y, c) refl)
          | inr c ↦ elim (Bool-cases (name_taken f fs.root_dir)) [
            | inl t ↦ (here, rw (y, c, t, sym names ∙ t) refl, rw (y, c, sym names ∙ t) refl)
            | inr t ↦ elim (Option-cases (get_elem? table count)) [
              | inl o ↦ absurd (ground (arith, le_of_get_elem?-none table count o))
              | inr (e, o) ↦ (
                state (live fs) (set table count (opened_entry f e)) (count + 1),
                rw (y, c, t, update_fd, o, sym names ∙ t) refl,
                rw (y, c, sym names ∙ t, length-set table count (opened_entry f e)) refl,
              )
            ]
          ]
        ]
      ]

  delete-Keeps :
      (f : Bytes) (sound : IsSound here)
      → allowed (delete f) (view here) ≡ true
      → Keeps (delete f) here
  delete-Keeps f sound there =
      let taken = name_taken-used f fs.root_dir ∙ there in
      let same : sound.fs ≡ fs = cc sound.mounted in
      let (s', gone, _) = fs_delete-IsSound f here sound (rw same taken) in
      let (fs0, fs', on, _, e, _, entries) = fs_delete-names f (live fs) table count gone in
      let same' : fs0 ≡ fs = cc on in
      (
        s',
        gone,
        view-deleted f s' fs' taken e (
            entries
            ∙ sym (reset_named-map f fs0.root_dir)
            ∙ ap (λ (x : FsSystem). (reset_named f x.root_dir).1) same'),
      )

  Keeps-here :
      (c : Call) → IsSound here → count ≤ length table → allowed c (view here) ≡ true → Keeps c here
  Keeps-here (create unspecified f) sound room there = create-Keeps unspecified f
  Keeps-here (delete f) sound room there = delete-Keeps f sound there
  Keeps-here (open_name unspecified f) sound room there = open-Keeps unspecified f room

-- One call on a state whose files have chains of their own returns what the abstract machine says.
pub run-promised :
    (c : Call) (s : State)
    → IsSound s
    → s.fd_open_count ≤ length s.fd_table
    → allowed c (view s) ≡ true
    → Keeps c s
run-promised c s sound room there =
    subst
      (λ t. IsSound t → t.fd_open_count ≤ length t.fd_table → allowed c (view t) ≡ true → Keeps c t)
      (λ i. record {
        file_system = sym sound.mounted i;
        fd_table = s.fd_table;
        fd_open_count = s.fd_open_count;
      })
      (Keeps-here sound.fs s.fd_table s.fd_open_count c) sound room there
