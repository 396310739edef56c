-- ===== src/Base/Bytes.antt =====
-- Byte strings: C strings inside arrays, and little-endian words.
use Prim.Native.Nat.{ℕ, suc}
use mathlib.Core.Path.{◌≡◌, refl}
use mathlib.Core.Logic.{◌↔◌}
use mathlib.Core.Bool.{Bool, true, false, ◌&&◌}
use mathlib.Core.List.{List, [], ◌∷◌, ◌++◌}
use native.Mathlib.Omega.{arith}
use ecs150fs.Base.Tests.{◌==◌, if◌then◌else◌}
use ecs150fs.Base.Lists.{length, drop}

abbrev pub Bytes : Type 0
Bytes = List ℕ

-- The characters before the terminator: what the string functions of C see in an array.
abbrev pub c_str : Bytes → Bytes
c_str [] = []
c_str (c ∷ s) = if c == 0 then [] else c ∷ c_str s

abbrev pub strlen : Bytes → ℕ
strlen s = length (c_str s)

abbrev pub bytes_eq : Bytes → Bytes → Bool
bytes_eq [] [] = true
bytes_eq (a ∷ s) (b ∷ t) = a == b && bytes_eq s t
bytes_eq _ _ = false

-- `strcmp(s, t) == 0`.
abbrev pub same_string : Bytes → Bytes → Bool
same_string s t = bytes_eq (c_str s) (c_str t)

-- `strcpy(dst, src)`: the string, its terminator, and what `dst` held behind it.
abbrev pub strcpy : Bytes → Bytes → Bytes
strcpy dst src = c_str src ++ 0 ∷ drop (suc (strlen src)) dst

pub bytes_eq_iff : (s t : Bytes) → (bytes_eq s t ≡ true) ↔ (s ≡ t)
bytes_eq_iff [] [] = ground arith
bytes_eq_iff [] (b ∷ t) = ground arith
bytes_eq_iff (a ∷ s) [] = ground arith
bytes_eq_iff (a ∷ s) (b ∷ t) = ground (arith, bytes_eq_iff s t)

pub c_str-append_zero : (s t : Bytes) → c_str (c_str s ++ 0 ∷ t) ≡ c_str s
c_str-append_zero [] t = refl
c_str-append_zero (c ∷ s) t = ground (arith, c_str-append_zero s t)

-- What `strcpy` leaves behind is the string that it was given.
pub c_str-strcpy : (dst src : Bytes) → c_str (strcpy dst src) ≡ c_str src
c_str-strcpy dst src = c_str-append_zero src (drop (suc (strlen src)) dst)

pub bytes_eq_comm : (s t : Bytes) → bytes_eq s t ≡ bytes_eq t s
bytes_eq_comm [] [] = refl
bytes_eq_comm [] (b ∷ t) = refl
bytes_eq_comm (a ∷ s) [] = refl
bytes_eq_comm (a ∷ s) (b ∷ t) = ground (arith, bytes_eq_comm s t)
