-- ===== src/Fs/Abstract/Examples.antt =====
-- A history of calls on a directory with the files "a" and "b".
use ecs150fs.Base.{◌≡◌, refl, true, some, List, [], ◌∷◌, arith}
use ecs150fs.Base.Int.{ℤ, pos, minus_one}
use ecs150fs.Base.Bytes.{Bytes}
use ecs150fs.Fs.State.{State, returns}
use ecs150fs.Fs.Samples.{name_a, name_b}
use ecs150fs.Fs.Directory.{is_valid_name}
use ecs150fs.Fs.Directory.Examples.{two_files, two-IsSound}
use ecs150fs.Fs.Abstract.{
  View, view, Call, create, delete, open_name, created, deleted, run_all, promised_all,
}
use ecs150fs.Fs.Abstract.Histories.{run_all-promised_all}

abbrev name_c : Bytes
name_c = 99 ∷ []

abbrev name_d : Bytes
name_d = 100 ∷ []

-- The name "a" stays taken, until "c" gets the entry; "d" is no file and can be opened.
abbrev history : List Call
history =
    delete name_a
    ∷ create true name_a
    ∷ create true name_c
    ∷ open_name true name_d
    ∷ delete name_b
    ∷ []

abbrev results : List ℤ
results = pos 0 ∷ minus_one ∷ pos 0 ∷ pos 0 ∷ pos 0 ∷ []

abbrev in_the_end : View
in_the_end =
    deleted name_b (record (created name_c (deleted name_a (view two_files))) { opens = 1 })

promises : promised_all history (view two_files) ≡ some (results, in_the_end)
unfolding promised_all is_valid_name
promises = refl

run_all-promised_all_example :
    (s' : State) × (run_all history two_files ≡ returns (results, s')) × (view s' ≡ in_the_end)
run_all-promised_all_example =
    run_all-promised_all history two_files results in_the_end two-IsSound (omega arith) promises
