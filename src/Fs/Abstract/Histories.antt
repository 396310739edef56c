-- ===== src/Fs/Abstract/Histories.antt =====
-- Calls of libfs/fs.c one after the other, against the abstract machine.
use ecs150fs.Base.{
  ◌≤◌, ◌≡◌, refl, ◌∙◌, ap, true, some, Option, List, [], ◌∷◌, Bool-cases, Option-cases, inl, inr,
}
use ecs150fs.Base.Int.{ℤ}
use ecs150fs.Base.Lists.{length}
use ecs150fs.Fs.State.{State, returns}
use ecs150fs.Fs.Directory.Freeing.{IsSound}
use ecs150fs.Fs.Descriptors.Invariant.{Step, created, deleted, opened, here, next, Reach-room}
use ecs150fs.Fs.Descriptors.Deleting.{Step-IsSound}
use ecs150fs.Fs.Abstract.{
  View, view, Call, create, delete, open_name, run, allowed, promised, run_all, promised_all,
}
use ecs150fs.Fs.Abstract.Refining.{run-promised}

run-Step : (c : Call) (s s' : State) {r : ℤ} → run c s ≡ returns (r, s') → Step s s'
run-Step (create unspecified f) s s' h = created unspecified f h
run-Step (delete f) s s' h = deleted f h
run-Step (open_name unspecified f) s s' h = opened unspecified f h

promised_all-cons :
    (c : Call) (cs : List Call) (v v' : View) (rs : List ℤ)
    → promised_all (c ∷ cs) v ≡ some (rs, v')
    → (allowed c v ≡ true)
      × (rs' : List ℤ) × (promised_all cs (promised c v).1 ≡ some (rs', v'))
      × (rs ≡ (promised c v).0 ∷ rs')
unfolding promised_all
promised_all-cons c cs v v' rs h = elim (Bool-cases (allowed c v)) [
  | inr n ↦ cc (rw n at h)
  | inl y ↦ elim (Option-cases (promised_all cs (promised c v).1)) [
    | inl o ↦ cc (rw (y, o) at h)
    | inr ((rs', v2), o) ↦
        let got : ◌≡◌ {A = Option (List ℤ × View)} (some ((promised c v).0 ∷ rs', v2))
            (some (rs, v')) =
          rw (y, o) at h in
        let look : v2 ≡ v' = cc in (y, rs', o ∙ ap (λ x. some (rs', x)) look, cc)
  ]
]

-- fs_create, fs_delete and fs_open refine an abstract machine over sets of names: the names of
-- files, the names that deleted files left, whether an entry is free, and the number of opens. From
-- a state with a mounted file system whose files have chains of their own, and with opens that fit
-- the table, every history of these calls that deletes only names that are there returns what the
-- machine promises, which for fs_delete is 0, for open files too, and ends in a state that looks as
-- the machine says.
pub run_all-promised_all :
    (cs : List Call) (s : State) (rs : List ℤ) (v : View)
    → IsSound s
    → s.fd_open_count ≤ length s.fd_table
    → promised_all cs (view s) ≡ some (rs, v)
    → (s' : State) × (run_all cs s ≡ returns (rs, s')) × (view s' ≡ v)
unfolding run_all promised_all
run_all-promised_all [] s rs v sound room h = (s, cc, cc)
run_all-promised_all (c ∷ cs) s rs v sound room h =
    let (there, rs', rest, e) = promised_all-cons c cs (view s) v rs h in
    let (t, first, same) = run-promised c s sound room there in
    let step = run-Step c s t first in
    let (s', more, looks) =
      run_all-promised_all cs t rs' v (Step-IsSound sound step)
        (Reach-room s t room (next here step)).0 (rw same rest) in
    (s', rw (first, more, e) refl, looks)
