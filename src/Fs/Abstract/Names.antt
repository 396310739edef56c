-- ===== src/Fs/Abstract/Names.antt =====
-- The names in the directory of libfs/fs.c under its calls.
use ecs150fs.Base.{
  ◌≡◌, refl, ap, sym, true, false, not, ◌&&◌, ◌||◌, List, [], ◌∷◌, arith, Bool-cases, inl, inr,
}
use ecs150fs.Base.Bytes.{
  Bytes, same_string, bytes_eq, c_str, bytes_eq_iff, bytes_eq_comm, c_str-strcpy,
}
use ecs150fs.Fs.State.{RootEntry}
use ecs150fs.Fs.Directory.{name_taken, empty, fill_free, reset_named, new_entry}
use ecs150fs.Fs.Directory.Creation.{any_free}
use ecs150fs.Fs.Abstract.{used_name, left_name}

pub name_taken-used :
    (f : Bytes) (es : List RootEntry) → name_taken f es ≡ (used_name f es || left_name f es)
unfolding name_taken
name_taken-used f [] = refl
name_taken-used f (e ∷ es) = ground (arith, name_taken-used f es)

same_string-new_entry :
    (f g : Bytes) (e : RootEntry) → same_string (new_entry f e).filename g ≡ same_string f g
same_string-new_entry f g e = ap (λ c. bytes_eq c (c_str g)) (c_str-strcpy e.filename f)

pub used_name-fill_free :
    (f g : Bytes) (es : List RootEntry)
    → used_name g (fill_free f es).1 ≡ ((any_free es && same_string f g) || used_name g es)
unfolding fill_free
used_name-fill_free f g [] = refl
used_name-fill_free f g (e ∷ es) = elim (Bool-cases (empty e)) [
  | inl y ↦ rw (y, same_string-new_entry f g e, used_name-fill_free f g es) (ground arith)
  | inr n ↦ rw (n, used_name-fill_free f g es) (ground arith)
]

pub left_name-fill_free :
    (f g : Bytes) (es : List RootEntry) → left_name g (fill_free f es).1 ≡ false
unfolding fill_free
left_name-fill_free f g [] = refl
left_name-fill_free f g (e ∷ es) = ground (arith, left_name-fill_free f g es)

-- Names that are the same are the same as any other.
same_string_trans : (f g h : Bytes) → same_string f g ≡ true → same_string g h ≡ same_string f h
same_string_trans f g h e = ap (λ c. bytes_eq c (c_str h)) (sym ((bytes_eq_iff _ _).0 e))

-- One name is not the same as two that differ.
other_name :
    (f g h : Bytes) → same_string f g ≡ false → (same_string f h && same_string g h) ≡ false
other_name f g h n = elim (Bool-cases (same_string f h)) [
  | inl y ↦ rw (y, bytes_eq_comm (c_str g) (c_str h), same_string_trans f h g y) n
  | inr m ↦ rw m
]

pub used_name-reset_named :
    (f g : Bytes) (es : List RootEntry)
    → used_name g (reset_named f es).1 ≡ (not (same_string f g) && used_name g es)
unfolding reset_named
used_name-reset_named f g [] = ground arith
used_name-reset_named f g (e ∷ es) = elim (Bool-cases (same_string f e.filename)) [
  | inl y ↦ rw (y, same_string_trans f e.filename g y, used_name-reset_named f g es) (ground arith)
  | inr n ↦ rw (n, used_name-reset_named f g es) (ground (arith, other_name f e.filename g n))
]

pub left_name-reset_named :
    (f g : Bytes) (es : List RootEntry)
    → left_name g (reset_named f es).1 ≡ (left_name g es || (same_string f g && used_name g es))
unfolding reset_named
left_name-reset_named f g [] = ground arith
left_name-reset_named f g (e ∷ es) = elim (Bool-cases (same_string f e.filename)) [
  | inl y ↦ rw (y, same_string_trans f e.filename g y, left_name-reset_named f g es) (ground arith)
  | inr n ↦ rw (n, left_name-reset_named f g es) (ground (arith, other_name f e.filename g n))
]

pub any_free-reset_named :
    (f : Bytes) (es : List RootEntry)
    → name_taken f es ≡ true
    → any_free (reset_named f es).1 ≡ true
unfolding reset_named name_taken
any_free-reset_named f [] h = cc
any_free-reset_named f (e ∷ es) h =
    ground (arith, bytes_eq_comm (c_str f) (c_str e.filename), any_free-reset_named f es)
