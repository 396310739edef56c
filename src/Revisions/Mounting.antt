-- ===== src/Revisions/Mounting.antt =====
-- fs_mount of libfs/fs2.0.c and libfs/fs3.0.c: the memory of the FAT.
use ecs150fs.Base.{
  ℕ, zero, suc, ◌*◌, ◌≤◌, ◌<◌, ◌≡◌, ◌++◌, ◌⊎◌, refl, inl, inr, ap, Bool, true, false, not,
  if◌then◌else◌, none, some, List, [], ltb, Bool-cases, arith,
}
use ecs150fs.Base.Int.{ℤ, pos, negsuc, minus_one, pos_part, signed, ◌==ℤ◌}
use ecs150fs.Base.Lists.{length, take, drop}
use ecs150fs.Base.Bytes.{Bytes, strlen}
use ecs150fs.Disk.{Disk, block_size, block_disk_open, block_read}
use ecs150fs.Disk.Posix.{Host}
use ecs150fs.Fs.State.{
  Pointer, null, freed, live, Outcome, returns, undefined, ◌>>=◌, >>=-eq-returns, SuperBlock,
}
use ecs150fs.Fs.Layout.{byte_at, store_superblock, store_words}
use ecs150fs.Fs.Mount.{read_fat, entries}
use ecs150fs.Revisions.Structures.{
  FsSystem, State, fat_bytes, read_fat_to, mount_tables, read_super, load_superblock,
}
use ecs150fs.Revisions.Fs2
use ecs150fs.Revisions.Fs3

-- What `malloc` gives is no longer than what it was asked for.
abbrev pub Fits : (ℕ → Pointer (List ℕ)) → Type 0
Fits malloc = (n : ℕ) (fat : List ℕ) → malloc n ≡ live fat → length fat * 2 ≤ n

-- The file system that is left has no block of FAT.
abbrev pub HasNoFat : State → Type 0
HasNoFat s = (fs : FsSystem) × (s ≡ live fs) × (pos_part fs.sp.fat_blck_amount ≡ 0)

-- Every block_read of block 1 delivers a whole block.
abbrev pub ReadsBlock : {W : Type 0} → Host W → Disk → Type 0
ReadsBlock {W} os d = (buf : Bytes) (w : W) → block_size ≤ length (block_read os d 1 buf w).1

too_long : (n m : ℕ) → n < 2048 → block_size ≤ m → ltb (n * 2) m ≡ true
too_long n m short long = ground arith

parts :
    {W : Type 0} {r r' : ℤ} {s s' : State} {d d' : Disk} {w w' : W}
    → ◌≡◌ {A = Outcome (ℤ × State × Disk × W)} (returns (r, s, d, w)) (returns (r', s', d', w'))
    → (r' ≡ r) × (s' ≡ s)
parts h = (cc, cc)

small_amount : (u : ℕ) → pos_part (signed 256 u) < 128
small_amount u = ground arith

-- So the array is shorter than a block of FAT.
short_fat :
    (malloc : ℕ → Pointer (List ℕ)) (sp : SuperBlock) (n : ℕ) (fat : List ℕ)
    → Fits malloc
    → sp.fat_blck_amount ≡ pos n
    → n < 128
    → malloc (fat_bytes sp) ≡ live fat
    → length fat < 2048
short_fat malloc sp n fat fits amount small given =
    let bytes : fat_bytes sp ≤ 1016 = rw amount (omega arith) in
    omega (arith, fits (fat_bytes sp) fat given)

module _ {W : Type 0} (os : Host W) (malloc : ℕ → Pointer (List ℕ)) (fits : Fits malloc) where
  read_super-small :
      (memory : FsSystem) (d : Disk) (w : W)
      → pos_part (read_super os memory d w).0.fat_blck_amount < 128
  unfolding read_super load_superblock
  read_super-small memory d w = small_amount (
      byte_at (
        drop 24 (
          (block_read os d 0 (take block_size (store_superblock memory.sp)) w).1
          ++ drop block_size (store_superblock memory.sp))))

  -- A whole block does not fit into less.
  read_fat-none :
      (fat : List ℕ) (rounds : ℕ) (d : Disk) (w : W) {fat' : List ℕ} {w' : W}
      → ReadsBlock os d
      → length fat < 2048
      → read_fat os rounds 0 d fat w ≡ returns (fat', w')
      → rounds ≡ 0
  unfolding read_fat
  read_fat-none fat zero d w long short h = refl
  read_fat-none fat (suc rounds) d w {fat'} {w'} long short h =
      let buf = store_words (take entries fat) in
      let full : ltb (length fat * 2) (length (block_read os d 1 buf w).1) ≡ true =
        too_long _ _ short (long buf w) in
      let stuck : ◌≡◌ {A = Outcome (List ℕ × W)} undefined (returns (fat', w')) =
        rw (read_fat, full) at h in
      cc

  read_fat_to-none :
      (p : Pointer (List ℕ)) (rounds : ℕ) (d : Disk) (w : W) {p' : Pointer (List ℕ)} {w' : W}
      → ReadsBlock os d
      → ((fat : List ℕ) → p ≡ live fat → length fat < 2048)
      → read_fat_to os p rounds d w ≡ returns (p', w')
      → rounds ≡ 0
  unfolding read_fat_to read_fat
  read_fat_to-none null rounds d w long short h =
      let (_, done, _) = >>=-eq-returns (read_fat os rounds 0 d [] w) _ h in
      read_fat-none [] rounds d w long (omega arith) done
  read_fat_to-none freed rounds d w long short h = cc
  read_fat_to-none (live fat) rounds d w long short h =
      let (_, done, _) = >>=-eq-returns (read_fat os rounds 0 d fat w) _ h in
      read_fat-none fat rounds d w long (short fat refl) done

  -- `fs_mount` behind its check returns 0 if it returns, and then there was no FAT to read.
  mount_tables-HasNoFat :
      (fs : FsSystem) (d : Disk) (w : W) {r : ℤ} {s' : State} {d' : Disk} {w' : W}
      → ReadsBlock os d
      → pos_part fs.sp.fat_blck_amount < 128
      → mount_tables os malloc fs d w ≡ returns (r, s', d', w')
      → HasNoFat s'
  unfolding mount_tables
  mount_tables-HasNoFat fs d w {r} {s'} long small h =
      let ((fat, w1), got, e) =
        >>=-eq-returns
          (read_fat_to os (malloc (fat_bytes fs.sp)) (pos_part fs.sp.fat_blck_amount) d w) _ h in
      let (_, same) = parts e in (_, same, none_of fs.sp.fat_blck_amount refl got)
    where
      none_of :
          (amount : ℤ) {p : Pointer (List ℕ)} {w1 : W}
          → fs.sp.fat_blck_amount ≡ amount
          → read_fat_to os (malloc (fat_bytes fs.sp)) (pos_part fs.sp.fat_blck_amount) d w
            ≡ returns (p, w1)
          → pos_part fs.sp.fat_blck_amount ≡ 0
      none_of (pos n) eq got =
          let below : n < 128 = rw eq at small in
          read_fat_to-none (malloc (fat_bytes fs.sp)) _ d w long
            (λ fat given. short_fat malloc fs.sp n fat fits eq below given) got
      none_of (negsuc n) eq got = ap pos_part eq

  not_failed :
      {s s' : State} {d d' : Disk} {w w' : W}
      → ◌≡◌ {A = Outcome (ℤ × State × Disk × W)}
          (returns (minus_one, s, d, w))
          (returns (pos 0, s', d', w'))
      → HasNoFat s'
  not_failed h = cc

  module _ (name : Bytes) (memory : FsSystem) (s : State) (d : Disk) (w : W)
      (long : ReadsBlock os (block_disk_open os (some name) d w).1) where
    -- The shape of both functions: a test of the name, the disk, the super block with its check, and
    -- a test of what the check returned.
    abbrev mount_with :
        (bad_name : Bool) (check : Disk → SuperBlock → Outcome ℤ) (stops : ℤ → Bool)
        → Outcome (ℤ × State × Disk × W)
    mount_with bad_name check stops =
        if bad_name
        then returns (minus_one, s, d, w)
        else let (r, d1, w1) = block_disk_open os (some name) d w in
          if not (r ==ℤ pos 0)
          then returns (minus_one, s, d1, w1)
          else let (sp, w2) = read_super os memory d1 w1 in
            let fs = record memory { sp = sp; fat_blocks = none } in
            check d1 sp >>= λ error.
            if stops error
            then returns (minus_one, live fs, d1, w2)
            else mount_tables os malloc fs d1 w2

    mount_with-HasNoFat :
        (bad_name : Bool) (check : Disk → SuperBlock → Outcome ℤ) (stops : ℤ → Bool) {s' : State}
        {d' : Disk} {w' : W}
        → mount_with bad_name check stops ≡ returns (pos 0, s', d', w')
        → HasNoFat s'
    mount_with-HasNoFat true check stops h = not_failed h
    mount_with-HasNoFat false check stops h =
        let d1 = (block_disk_open os (some name) d w).1 in
        let w1 = (block_disk_open os (some name) d w).2 in
        elim (Bool-cases ((block_disk_open os (some name) d w).0 ==ℤ pos 0)) [
          | inl ok ↦
              let (error, _, e) =
                >>=-eq-returns (check d1 (read_super os memory d1 w1).0) _ (rw ok at h) in
              elim (Bool-cases (stops error)) [
                | inl refused ↦ not_failed (rw refused at e)
                | inr accepted ↦
                    mount_tables-HasNoFat _ _ _ long (read_super-small memory d1 w1)
                      (rw accepted at e)
              ]
          | inr bad ↦ not_failed (rw bad at h)
        ]

    fs3_mount :
        {s' : State} {d' : Disk} {w' : W}
        → Fs3.fs_mount os malloc name memory s d w ≡ returns (pos 0, s', d', w')
        → HasNoFat s'
    unfolding Fs3.fs_mount
    fs3_mount h =
        mount_with-HasNoFat _ (Fs3.sys_error_check (strlen name) name)
          (λ error. not (error ==ℤ pos 0)) h

    fs2_mount :
        {s' : State} {d' : Disk} {w' : W}
        → Fs2.fs_mount os malloc name memory s d w ≡ returns (pos 0, s', d', w')
        → HasNoFat s'
    unfolding Fs2.fs_mount
    fs2_mount h =
        mount_with-HasNoFat _ (Fs2.sys_error_check (strlen name) name)
          (λ error. error ==ℤ minus_one) h

    -- If malloc gives no more memory than it is asked for, and every block_read of block 1 of the
    -- disk that was opened delivers a whole block, an fs_mount of fs2.0.c or fs3.0.c that returns 0
    -- has left a file system whose amount of FAT blocks is 0 or less.
    pub mount_without_fat :
        {s' : State} {d' : Disk} {w' : W}
        → (Fs2.fs_mount os malloc name memory s d w ≡ returns (pos 0, s', d', w'))
          ⊎ (Fs3.fs_mount os malloc name memory s d w ≡ returns (pos 0, s', d', w'))
        → HasNoFat s'
    mount_without_fat (inl h) = fs2_mount h
    mount_without_fat (inr h) = fs3_mount h
