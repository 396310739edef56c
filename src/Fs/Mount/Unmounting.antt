-- ===== src/Fs/Mount/Unmounting.antt =====
-- What fs_unmount of libfs/fs.c leaves.
use ecs150fs.Base.{
  ℕ, ◌≡◌, refl, ◌⊎◌, inl, inr, ap, ◌∙◌, false, Option, none, some, List, if◌then◌else◌, Bool-cases,
}
use ecs150fs.Base.Int.{ℤ, pos, minus_one, pos_part}
use ecs150fs.Base.Bytes.{Bytes}
use ecs150fs.Disk.Posix.{Host}
use ecs150fs.Disk.{Disk, is_open, block_disk_close}
use ecs150fs.Fs.State.{
  FsSystem, FdTableEntry, State, Pointer, null, freed, returns, undefined, >>=-eq-returns, state,
  deref,
}
use ecs150fs.Fs.Directory.{fs_delete, fs_ls}
use ecs150fs.Fs.Mount.{fs_unmount, release_system, write_fat_of}
use ecs150fs.Fs.Mount.Failing.{parts}
use ecs150fs.Fs.Mount.Keeping.{SameTable, same_table}

module _ {W : Type 0} (os : Host W) where
  release_system-returns :
      (fat : Option (List ℕ)) (s : State) (d : Disk) (w : W) {r : ℤ} {s1 : State} {d1 : Disk}
      {w1 : W}
      → release_system os fat s d w ≡ returns (r, s1, d1, w1)
      → (s1.file_system ≡ freed)
        × (is_open d1 ≡ false)
        × (r ≡ (if is_open d then pos 0 else minus_one))
  unfolding release_system block_disk_close
  release_system-returns none s d w h = cc
  release_system-returns (some fat) s d w h = elim (Bool-cases (is_open d)) [
    | inl y ↦
        let (r, s1, d1, _) = parts (rw (y) at h) in
        (ap (λ (t : State). t.file_system) s1, ap is_open d1, rw y r)
    | inr n ↦
        let (r, s1, d1, _) = parts (rw n at h) in
        (ap (λ (t : State). t.file_system) s1, ap is_open d1 ∙ n, rw n r)
  ]

  -- The table of descriptors is left as it was.
  pub release_system-SameTable :
      (fat : Option (List ℕ)) (s : State) (d : Disk) (w : W) {r : ℤ} {s1 : State} {d1 : Disk}
      {w1 : W}
      → release_system os fat s d w ≡ returns (r, s1, d1, w1)
      → SameTable s s1
  unfolding release_system block_disk_close
  release_system-SameTable none s d w h = cc
  release_system-SameTable (some fat) s d w h = elim (Bool-cases (is_open d)) [
    | inl y ↦ let (_, e, _, _) = parts (rw y at h) in same_table s _ _ e (refl, refl)
    | inr n ↦ let (_, e, _, _) = parts (rw n at h) in same_table s _ _ e (refl, refl)
  ]

  -- With the pointer null or stale, what follows it is undefined.
  stale_calls :
      (p : Pointer FsSystem) (table : List FdTableEntry) (count : ℕ) (d : Disk) (w : W)
      → (p ≡ null) ⊎ (p ≡ freed)
      → (fs_unmount os (state p table count) d w ≡ undefined)
        × (fs_ls (state p table count) ≡ undefined)
        × ((f : Bytes) → fs_delete f (state p table count) ≡ undefined)
  unfolding fs_unmount fs_ls fs_delete
  stale_calls p table count d w (inl e) = rw e (refl, refl, λ f. refl)
  stale_calls p table count d w (inr e) = rw e (refl, refl, λ f. refl)

  -- An fs_unmount that returns has closed the disk, with 0 just if it was open, whatever
  -- descriptors are open, and left a stale pointer: a second fs_unmount, fs_ls and fs_delete of any
  -- name are then undefined.
  pub fs_unmount_ends :
      (s s1 : State) (d d1 : Disk) (w w1 : W) (r : ℤ)
      → fs_unmount os s d w ≡ returns (r, s1, d1, w1)
      → (r ≡ (if is_open d then pos 0 else minus_one))
        × (is_open d1 ≡ false)
        × (s1.file_system ≡ freed)
        × (fs_unmount os s1 d1 w1 ≡ undefined)
        × (fs_ls s1 ≡ undefined)
        × ((f : Bytes) → fs_delete f s1 ≡ undefined)
  unfolding fs_unmount
  fs_unmount_ends s s1 d d1 w w1 r h =
      let (fs, on, e) = >>=-eq-returns (deref s.file_system) _ h in
      let (w', written, e') =
        >>=-eq-returns (write_fat_of os fs.fat_blocks (pos_part fs.sp.fat_blck_amount) d w) _ e in
      let (gone, shut, value) = release_system-returns fs.fat_blocks s d _ e' in
      let (again, ls, delete) =
        stale_calls s1.file_system s1.fd_table s1.fd_open_count d1 w1 (inr gone) in
      (value, shut, gone, again, ls, delete)

  -- With a null file_system fs_unmount, fs_ls and fs_delete of any name are undefined.
  pub fs_unmount_unmounted :
      (s : State) (d : Disk) (w : W)
      → s.file_system ≡ null
      → (fs_unmount os s d w ≡ undefined)
        × (fs_ls s ≡ undefined)
        × ((f : Bytes) → fs_delete f s ≡ undefined)
  fs_unmount_unmounted s d w e = stale_calls s.file_system s.fd_table s.fd_open_count d w (inl e)
