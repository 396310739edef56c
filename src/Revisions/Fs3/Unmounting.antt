-- ===== src/Revisions/Fs3/Unmounting.antt =====
-- fs_unmount of libfs/fs3.0.c: what it writes.
use ecs150fs.Base.{
  ℕ, zero, suc, ◌+◌, ◌-◌, ◌^◌, ◌≤◌, ◌<◌, ◌&&◌, leb, [], ◌≡◌, refl, ◌∙◌, ap, sym, inl, inr, Bool,
  true, false, not, Option, none, some, List, arith, ltb, ◌==◌, Bool-cases, if◌then◌else◌,
}
use ecs150fs.Base.Int.{ℤ, pos, minus_one, ◌==ℤ◌, pos_part, pattern_of}
use ecs150fs.Base.Lists.{length, take, drop, length-take, length-drop}
use ecs150fs.Base.Bytes.{Bytes}
use ecs150fs.Disk.Posix.{Host, HostLaws}
use ecs150fs.Disk.{Disk, is_open, reaches_buffer, block_size, block_write, block_disk_close}
use ecs150fs.Disk.Opening.{transfer_refused}
use ecs150fs.Disk.Blocks.{Backed, block_at, write_inversion, block_write-update}
use ecs150fs.Fs.State.{Pointer, null, freed, live, Outcome, returns, undefined, >>=-eq-returns}
use ecs150fs.Fs.Layout.{store_words}
use ecs150fs.Fs.Mount.{write_fat, entries}
use ecs150fs.Fs.Mount.Persisting.{length-store_words, block_write-take}
use ecs150fs.Fs.Mount.Loading.{Serves}
use ecs150fs.Revisions.Structures.{FsSystem, State, store_entries, free_fat}
use ecs150fs.Revisions.Fs3.{fs_unmount, write_fat_of}

ltb-false : (n m : ℕ) → ltb n m ≡ false → m ≤ n
ltb-false n m h = ground arith

left_false : (a b : Bool) → (a && b) ≡ false → b ≡ true → a ≡ false
left_false a b h e = ground arith

length-window :
    (i : ℕ) (fat : List ℕ)
    → i + entries ≤ length fat
    → length (store_words (take entries (drop i fat))) ≡ block_size
length-window i fat room =
    length-store_words (take entries (drop i fat))
    ∙ omega (arith, length-take entries (drop i fat), length-drop i fat)

-- The end of fs_unmount, on an open disk.
closed_host :
    {W : Type 0} (os : Host W) (d : Disk) (w : W) {r : ℤ} {s' : State} {d' : Disk} {w' : W}
    → is_open d ≡ true
    → ◌≡◌ {A = Outcome (ℤ × State × Disk × W)}
        (let (c, d1, w1) = block_disk_close os d w in
          if not (c ==ℤ pos 0)
          then returns (minus_one, freed, d1, w1)
          else returns (pos 0, freed, d1, w1))
        (returns (r, s', d', w'))
    → w' ≡ os.close_fd d.fd w
unfolding block_disk_close
closed_host {W} os d w {r} {s'} {d'} {w'} op h =
    let closed : ◌≡◌ {A = Outcome (ℤ × State × Disk × W)}
        (returns (pos 0, freed, record d { fd = minus_one }, os.close_fd d.fd w))
        (returns (r, s', d', w')) =
      rw op at h in
    cc

module _ {W : Type 0} {os : Host W} (laws : HostLaws os) (d : Disk) (serves : Serves os d) where
  -- A block is as it was, and the file still holds all blocks.
  abbrev Same : ℕ → W → W → Type 0
  Same c w w' = Backed laws d w' × (block_at laws d w' c ≡ block_at laws d w c)

  block_write-Same :
      (c b : ℕ) (buf : Bytes) (w : W)
      → Backed laws d w
      → (b < d.bcount → length buf ≡ block_size)
      → (c == b) ≡ false
      → Same c w (block_write os d b buf w).1
  block_write-Same c b buf w k whole other = elim (Bool-cases (ltb b d.bcount)) [
    | inl inside ↦
        let below : b < d.bcount = ground arith in
        let (_, _, _, k', now) =
          block_write-update laws d b w buf k (whole below) (serves.writes b buf w below) in
        (k', now c ∙ rw other)
    | inr outside ↦
        let (same, _) = transfer_refused os d w b buf (inr (ground arith)) in rw same (k, refl)
  ]

  -- A transfer of a block that the disk has gets to its buffer.
  reached : (b : ℕ) (w : W) → b < d.bcount → reaches_buffer os d b w ≡ true
  unfolding reaches_buffer
  reached b w below =
      let ((op, inside, at), _, _) = write_inversion os d b w [] (serves.writes b [] w below) in
      let in_range : leb d.bcount b ≡ false = ground arith in rw (op, in_range, at) refl

  write_fat-Same :
      (rounds i c : ℕ) (fat : List ℕ) (w : W) {w' : W}
      → Backed laws d w
      → c ≤ i
      → write_fat os rounds i d fat w ≡ returns w'
      → Same c w w'
  unfolding write_fat
  write_fat-Same zero i c fat w {w'} k below h = let same : w ≡ w' = cc in rw (← same) (k, refl)
  write_fat-Same (suc rounds) i c fat w k below h =
      elim (Bool-cases (ltb (length fat) (i + entries) && reaches_buffer os d (1 + i) w)) [
        | inl short ↦ cc (rw (write_fat, short) at h)
        | inr room ↦
            let buf = store_words (take entries (drop i fat)) in
            let whole : 1 + i < d.bcount → length buf ≡ block_size = λ below. length-window i fat (
              ltb-false (length fat) (i + entries)
                (left_false _ _ room (reached (1 + i) w below))) in
            let (k', same) = block_write-Same c (1 + i) buf w k whole (ground arith) in
            let (k2, same2) =
              write_fat-Same rounds (i + 1) c fat _ k' (omega arith) (rw (write_fat, room) at h) in
            (k2, same2 ∙ same)
      ]

  none_written :
      (b : Bool) {w w' : W}
      → Backed laws d w
      → ◌≡◌ {A = Outcome W} (if b then undefined else returns w) (returns w')
      → Same 1 w w'
  none_written true k h = cc
  none_written false {w} {w'} k h = let same : w ≡ w' = cc in rw (← same) (k, refl)

  write_fat_of-Same :
      (fat : Option (Pointer (List ℕ))) (amount : ℕ) (w : W) {w' : W}
      → Backed laws d w
      → write_fat_of os fat amount d w ≡ returns w'
      → Same 1 w w'
  unfolding write_fat_of
  write_fat_of-Same none amount w k h = none_written (ltb 1 amount) k h
  write_fat_of-Same (some null) amount w k h =
      write_fat-Same (amount - 1) 1 1 [] w k (omega arith) h
  write_fat_of-Same (some freed) amount w k h = none_written (ltb 1 amount) k h
  write_fat_of-Same (some (live fat)) amount w k h =
      write_fat-Same (amount - 1) 1 1 fat w k (omega arith) h

  -- On an open disk whose file holds all its blocks and whose transfers do not fail, an fs_unmount
  -- of fs3.0.c that returns, of a file system with a directory of at least 4096 bytes and a
  -- root_dir_index other than 1, never writes the first block of the FAT: before it closes the
  -- disk, block 1 is as it was.
  pub fs_unmount_skips :
      (fs : FsSystem) (s' : State) (d' : Disk) (w w' : W) (r : ℤ)
      → Backed laws d w
      → block_size ≤ length (store_entries fs.root_dir)
      → (1 == pattern_of (2 ^ 64) fs.sp.root_dir_index) ≡ false
      → is_open d ≡ true
      → fs_unmount os (live fs) d w ≡ returns (r, s', d', w')
      → (w1 : W) × (w' ≡ os.close_fd d.fd w1) × (block_at laws d w1 1 ≡ block_at laws d w 1)
  unfolding fs_unmount
  fs_unmount_skips fs s' d' w w' r k full apart op h =
      let root = pattern_of (2 ^ 64) fs.sp.root_dir_index in
      let bytes = store_entries fs.root_dir in
      let (w1, written, e) =
        >>=-eq-returns (write_fat_of os fs.fat_blocks (pos_part fs.sp.fat_blck_amount) d w) _ h in
      let (k1, same) =
        write_fat_of-Same fs.fat_blocks (pos_part fs.sp.fat_blck_amount) w k written in
      let (_, _, e1) = >>=-eq-returns (free_fat fs.fat_blocks) _ e in
      let (_, same1) =
        block_write-Same 1 root (take block_size bytes) w1 k1
          (λ below. omega (arith, length-take block_size bytes, full)) apart in
      let cut = ap (λ x. block_at laws d x.1 1) (block_write-take os d root bytes w1) in
      (_, closed_host os d _ op e1, sym cut ∙ same1 ∙ same)
