-- ===== src/Fs/Sessions/Room.antt =====
-- fs_open of libfs/fs.c in sessions with fs_mount and fs_unmount: the room in the table of
-- descriptors.
use ecs150fs.Base.{Bool, ◌≤◌, ◌≡◌, refl, ◌⊎◌, inl, inr, ap, List, arith}
use ecs150fs.Base.Int.{ℤ, minus_one, pos_part}
use ecs150fs.Base.Lists.{length}
use ecs150fs.Base.Bytes.{Bytes}
use ecs150fs.Disk.Posix.{Host}
use ecs150fs.Disk.{Disk}
use ecs150fs.Fs.State.{
  FdTableEntry, State, Outcome, freed, returns, undefined, >>=-eq-returns, deref,
}
use ecs150fs.Fs.Mount.{fs_unmount, write_fat_of}
use ecs150fs.Fs.Mount.Keeping.{SameTable, fs_mount-SameTable}
use ecs150fs.Fs.Mount.Unmounting.{release_system-SameTable}
use ecs150fs.Fs.Descriptors.{fs_open}
use ecs150fs.Fs.Descriptors.Opening.{Opened, fs_open-Opened}
use ecs150fs.Fs.Descriptors.Invariant.{Grows, Grows-refl, Grows-trans, Step-Grows, fs_open_full}
use ecs150fs.Fs.Sessions.{Whole, Step, mounted, unmounted, in_memory, Reach, here, next, start}

SameTable-Grows : (s t : State) → SameTable s t → Grows s t
SameTable-Grows s t (table, count) = record {
  table = ap length table;
  count = omega (arith, count);
  bound = inl (omega (arith, count));
}

fs_open_defined :
    (unspecified : Bool) (f : Bytes) (s : State) (o : Outcome (ℤ × State))
    → s.fd_open_count ≤ length s.fd_table
    → Opened unspecified f s o
    → (s.file_system ≡ freed) ⊎ ((r : ℤ) × (s' : State) × (o ≡ returns (r, s')))
fs_open_defined unspecified f s undefined room (inl gone) = inl gone
fs_open_defined unspecified f s undefined room (inr over) = absurd (omega arith)
fs_open_defined unspecified f s (returns (r, s')) room h = inr (r, s', refl)

module _ {W : Type 0} (os : Host W) where
  fs_unmount-SameTable :
      (s : State) (d : Disk) (w : W) {r : ℤ} {s1 : State} {d1 : Disk} {w1 : W}
      → fs_unmount os s d w ≡ returns (r, s1, d1, w1)
      → SameTable s s1
  unfolding fs_unmount
  fs_unmount-SameTable s d w h =
      let (fs, _, e) = >>=-eq-returns (deref s.file_system) _ h in
      let (_, _, e') =
        >>=-eq-returns (write_fat_of os fs.fat_blocks (pos_part fs.sp.fat_blck_amount) d w) _ e in
      release_system-SameTable os fs.fat_blocks s d _ e'

  call-Grows : {x y : Whole W} → Step os x y → Grows x.variables y.variables
  call-Grows {x} (mounted name memory h) =
      SameTable-Grows _ _ (fs_mount-SameTable os name memory x.variables x.disk x.host h)
  call-Grows {x} (unmounted h) =
      SameTable-Grows _ _ (fs_unmount-SameTable x.variables x.disk x.host h)
  call-Grows (in_memory step) = Step-Grows step

  calls-Grows : {x y : Whole W} → Reach os x y → Grows x.variables y.variables
  calls-Grows here = Grows-refl _ _ refl
  calls-Grows (next r step) = Grows-trans (calls-Grows r) (call-Grows step)

  -- From the start of a program, after any calls of fs_mount, fs_unmount, fs_create, fs_delete,
  -- fs_open, fs_close and fs_lseek that returned: the table of descriptors has its length, no more
  -- opens are counted than it has entries, and an fs_open of any name returns, unless the file
  -- system was freed by fs_unmount.
  pub session_room :
      (table : List FdTableEntry) (w : W) (x : Whole W)
      → Reach os (start table w) x
      → (length x.variables.fd_table ≡ length table)
        × (x.variables.fd_open_count ≤ length table)
        × ((unspecified : Bool) (f : Bytes)
            → (x.variables.file_system ≡ freed)
              ⊎ ((r : ℤ) × (s : State) × (fs_open unspecified f x.variables ≡ returns (r, s))))
  session_room table w x reached =
      let g = calls-Grows reached in
      let size : length x.variables.fd_table ≡ length table = g.table in
      let room : x.variables.fd_open_count ≤ length x.variables.fd_table = omega (arith, g.bound) in
      (
        size,
        omega arith,
        λ unspecified f.
            fs_open_defined unspecified f x.variables _ room
              (fs_open-Opened unspecified f x.variables),
      )

  -- Once as many opens are counted as the table has entries, fs_open returns -1 and changes nothing
  -- after any further calls of fs_mount, fs_unmount, fs_create, fs_delete, fs_open, fs_close and
  -- fs_lseek that returned.
  pub fs_open_exhausted :
      (x y : Whole W) (unspecified : Bool) (f : Bytes)
      → x.variables.fd_open_count ≡ length x.variables.fd_table
      → Reach os x y
      → fs_open unspecified f y.variables ≡ returns (minus_one, y.variables)
  fs_open_exhausted x y unspecified f full reached =
      let g = calls-Grows reached in fs_open_full unspecified f y.variables (omega (arith, g.bound))
