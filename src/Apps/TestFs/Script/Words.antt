-- ===== src/Apps/TestFs/Script/Words.antt =====
-- What thread_fs_script of apps/test_fs.c uses of the C library to read a script: fgets on a buffer of
-- 1024 bytes, strchr for the newline, strtok at tabs, and atoi.
use ecs150fs.Base.{ℕ, zero, suc, ◌-◌, ◌+◌, ◌*◌, ◌&&◌, ◌||◌, List, [], ◌∷◌, leb, ◌==◌, if◌then◌else◌}
use ecs150fs.Base.Int.{ℤ, pos, negsuc}
use ecs150fs.Base.Bytes.{Bytes}

-- A character in front of the first of some strings.
abbrev push : ℕ → List Bytes → List Bytes
push c [] = (c ∷ []) ∷ []
push c (l ∷ ls) = (c ∷ l) ∷ ls

-- The strings that `fgets` stores, the first of which has room for `suc room` more characters.
abbrev lines_from : (room : ℕ) → Bytes → List Bytes
lines_from room [] = []
lines_from room (c ∷ s) =
    let full = c == 10 || room == 0 in
    let rest = lines_from (if full then 1022 else room - 1) s in
    if full then (c ∷ []) ∷ rest else push c rest

abbrev pub script_lines : Bytes → List Bytes
script_lines = lines_from 1022

-- The string without its newline and what stands behind it.
abbrev before_newline : Bytes → Bytes
before_newline [] = []
before_newline (c ∷ s) = if c == 10 || c == 0 then [] else c ∷ before_newline s

-- The pieces between tabs, the empty ones too.
abbrev pieces : Bytes → List Bytes
pieces [] = [] ∷ []
pieces (c ∷ s) = let rest = pieces s in if c == 9 then [] ∷ rest else push c rest

abbrev not_empty : List Bytes → List Bytes
not_empty [] = []
not_empty ([] ∷ ps) = not_empty ps
not_empty ((c ∷ p) ∷ ps) = (c ∷ p) ∷ not_empty ps

-- All that `strtok` gives of a line.
abbrev pub words_of : Bytes → List Bytes
words_of line = not_empty (pieces (before_newline line))

abbrev digits : ℕ → Bytes → ℕ
digits n [] = n
digits n (c ∷ s) = if leb 48 c && leb c 57 then digits (n * 10 + (c - 48)) s else n

abbrev negated : ℕ → ℤ
negated zero = pos 0
negated (suc n) = negsuc n

abbrev sign_and_digits : Bytes → ℤ
sign_and_digits [] = pos 0
sign_and_digits (c ∷ s) =
    if c == 45
    then negated (digits 0 s)
    else if c == 43
    then pos (digits 0 s)
    else pos (digits 0 (c ∷ s))

-- White space, a sign, and decimal digits. A value outside `int`, where C promises nothing, is kept.
abbrev pub atoi : Bytes → ℤ
atoi [] = pos 0
atoi (c ∷ s) = if c == 32 || (leb 9 c && leb c 13) then atoi s else sign_and_digits (c ∷ s)
