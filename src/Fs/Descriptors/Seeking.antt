-- ===== src/Fs/Descriptors/Seeking.antt =====
-- fs_lseek of libfs/fs.c: its test of the descriptor is inverted.
use ecs150fs.Base.{
  ℕ, ◌^◌, ◌≤◌, ◌<◌, ◌≡◌, ◌⊎◌, inl, inr, true, false, some, arith, ltb, Bool-cases, Option-cases, ap,
  sym, ◌∙◌,
}
use ecs150fs.Base.Int.{ℤ, pos, negsuc, minus_one, pattern_of}
use ecs150fs.Base.Lists.{length, get_elem?, set, lt_of_get_elem?-some, le_of_get_elem?-none}
use ecs150fs.Fs.State.{FdTableEntry, State, returns, undefined, >>=-eq-returns, state_of_returns}
use ecs150fs.Fs.Descriptors.{is_valid_fd, update_fd, fs_stat, fs_lseek}

-- fs_lseek of a valid descriptor returns -1 and changes nothing, for every offset.
pub fs_lseek_valid :
    (fd : ℤ) (offset : ℕ) (s : State)
    → is_valid_fd fd s ≡ true
    → fs_lseek fd offset s ≡ returns (minus_one, s)
unfolding fs_lseek
fs_lseek_valid fd offset s h = rw h

-- fs_lseek of a descriptor number that is not valid, with an offset of 64 bits, returns 0 and sets
-- the offset if the number is in the table, and writes out of bounds if it is not.
pub fs_lseek_invalid :
    (i offset : ℕ) (s : State)
    → is_valid_fd (pos i) s ≡ false
    → offset < 2 ^ 64
    → ((i < length s.fd_table)
        × (e : FdTableEntry) × (get_elem? s.fd_table i ≡ some e)
        × (fs_lseek (pos i) offset s
            ≡ returns
                (pos 0, record s { fd_table = set s.fd_table i (record e { offset = offset }) })))
      ⊎ ((length s.fd_table ≤ i) × (fs_lseek (pos i) offset s ≡ undefined))
unfolding fs_lseek fs_stat update_fd
fs_lseek_invalid i offset s h small =
    let fits : ltb (pattern_of (2 ^ 64) minus_one) offset ≡ false = ground arith in
    elim (Option-cases (get_elem? s.fd_table i)) [
      | inl o ↦ inr (le_of_get_elem?-none s.fd_table i o, rw (h, fits, update_fd, o))
      | inr (e, o) ↦ inl (lt_of_get_elem?-some s.fd_table i o, e, o, rw (h, fits, update_fd, o))
    ]

-- fs_lseek of a descriptor number, with an offset of 64 bits: if the descriptor is valid it returns
-- -1 and changes nothing; if not, it returns 0 and sets the offset if the number is in the table,
-- and writes out of bounds if it is not.
pub fs_lseek_lem :
    (i offset : ℕ) (s : State)
    → offset < 2 ^ 64
    → ((is_valid_fd (pos i) s ≡ true) × (fs_lseek (pos i) offset s ≡ returns (minus_one, s)))
      ⊎ ((is_valid_fd (pos i) s ≡ false)
          × (((i < length s.fd_table)
                × (e : FdTableEntry) × (get_elem? s.fd_table i ≡ some e)
                × (fs_lseek (pos i) offset s
                    ≡ returns (
                      pos 0,
                      record s { fd_table = set s.fd_table i (record e { offset = offset }) },
                    )))
              ⊎ ((length s.fd_table ≤ i) × (fs_lseek (pos i) offset s ≡ undefined))))
fs_lseek_lem i offset s small = elim (Bool-cases (is_valid_fd (pos i) s)) [
  | inl v ↦ inl (v, fs_lseek_valid (pos i) offset s v)
  | inr n ↦ inr (n, fs_lseek_invalid i offset s n small)
]

fs_lseek_passed :
    (fd : ℤ) (offset : ℕ) (s s' : State) {r : ℤ}
    → is_valid_fd fd s ≡ false
    → fs_lseek fd offset s ≡ returns (r, s')
    → (s' ≡ s) ⊎ ((i : ℕ) × (f : FdTableEntry → FdTableEntry) × (update_fd i f s ≡ returns s'))
unfolding fs_lseek fs_stat
fs_lseek_passed (negsuc i) offset s s' v h =
    elim (Bool-cases (ltb (pattern_of (2 ^ 64) minus_one) offset)) [
      | inl y ↦ inl (sym (state_of_returns (rw (v, y) at h)))
      | inr n ↦ cc (rw (v, n) at h)
    ]
fs_lseek_passed (pos i) offset s s' v h =
    elim (Bool-cases (ltb (pattern_of (2 ^ 64) minus_one) offset)) [
      | inl y ↦ inl (sym (state_of_returns (rw (v, y) at h)))
      | inr n ↦
          let (t, put, e) = >>=-eq-returns (update_fd i _ s) _ (rw (v, n) at h) in
          inr (
            i,
            λ (x : FdTableEntry). record x { offset = offset },
            put ∙ ap returns (state_of_returns e),
          )
    ]

-- An `fs_lseek` that returned has changed nothing, or one entry of the table.
pub fs_lseek_writes :
    (fd : ℤ) (offset : ℕ) (s s' : State) {r : ℤ}
    → fs_lseek fd offset s ≡ returns (r, s')
    → (s' ≡ s) ⊎ ((i : ℕ) × (f : FdTableEntry → FdTableEntry) × (update_fd i f s ≡ returns s'))
fs_lseek_writes fd offset s s' h = elim (Bool-cases (is_valid_fd fd s)) [
  | inl v ↦ inl (state_of_returns (sym h ∙ fs_lseek_valid fd offset s v))
  | inr v ↦ fs_lseek_passed fd offset s s' v h
]
