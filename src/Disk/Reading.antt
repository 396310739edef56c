-- ===== src/Disk/Reading.antt =====
-- block_read of libfs/disk.c on an array of blocks, with the laws of the system calls.
use ecs150fs.Base.{
  leb, ap, ℕ, zero, suc, ◌∷◌, ◌++◌, ◌*◌, ◌%◌, ◌^◌, ◌≤◌, ◌≡◌, refl, inl, inr, ◌∙◌, false, arith,
  Bool-cases, ==_iff,
}
use mathlib.Core.List.{append-nil}
use ecs150fs.Base.Int.{pos, is_negative}
use ecs150fs.Base.Lists.{length, take, drop, drop_all}
use ecs150fs.Base.Bytes.{Bytes}
use ecs150fs.Disk.{Disk, is_open, block_size, fill, block_write, block_read}
use ecs150fs.Disk.Posix.{Host, HostLaws, Whole, bytes_from}
use ecs150fs.Disk.Posix.Splice.{length-bytes_from}
use ecs150fs.Disk.Blocks.{
  Backed, block_at, sought, Sought, sought_facts, count_of, length-block_at, block_write-whole,
}

fill_whole : (got buf : Bytes) → length buf ≤ length got → fill got buf ≡ got
fill_whole got buf h = rw (drop_all (length got) buf h) (append-nil got)

take-bytes_from : (f : ℕ → ℕ) (a n m : ℕ) → n ≤ m → bytes_from f a n ≡ take n (bytes_from f a m)
unfolding bytes_from
take-bytes_from f a zero m h = refl
take-bytes_from f a (suc n) zero h = absurd (omega arith)
take-bytes_from f a (suc n) (suc m) h = ap (◌∷◌ (f a)) (take-bytes_from f (suc a) n m (omega arith))

module _ {W : Type 0} (os : Host W) (d : Disk) (b : ℕ) (w : W) where
  read_inversion :
      (buf : Bytes)
      → (block_read os d b buf w).0 ≡ pos 0
      → Sought os d b w
        × (is_negative (os.read_fd d.fd block_size (sought os d b w)).0 ≡ false)
        × ((block_read os d b buf w).1 ≡ fill (os.read_fd d.fd block_size (sought os d b w)).1 buf)
  unfolding block_read
  read_inversion buf h = ground arith

module _ {W : Type 0} {os : Host W} (laws : HostLaws os) (d : Disk) (b : ℕ) (w : W) where
  open laws use {content, position, extent}

  -- If reads are not short, a `block_read` that returns 0 puts the block at the front of the buffer.
  pub block_read-fill :
      (buf : Bytes)
      → Whole laws
      → Backed laws d w
      → (block_read os d b buf w).0 ≡ pos 0
      → (block_read os d b buf w).1 ≡ fill (block_at laws d w b) buf
  unfolding block_at
  block_read-fill buf long k done =
      let (s, got, e) = read_inversion os d b w buf done in
      let (at, same, size, inside) = sought_facts laws d b w s k in
      let bytes : (os.read_fd d.fd block_size (sought os d b w)).1
          ≡ bytes_from (content w d.fd) (b * block_size) block_size =
        let (n, count) = count_of _ got in
        let n_bytes = (laws.read_bytes d.fd block_size _ n count (rw (at, size) inside)).1 in
        let all = long.whole_read d.fd block_size _ n count (rw (at, size) inside) in
        n_bytes ∙ rw (all, same, at) in
      e ∙ rw bytes

  -- A buffer of one block then holds exactly the block.
  pub block_read-block :
      (buf : Bytes)
      → Whole laws
      → Backed laws d w
      → length buf ≡ block_size
      → (block_read os d b buf w).0 ≡ pos 0
      → (block_read os d b buf w).1 ≡ block_at laws d w b
  block_read-block buf long k whole done =
      block_read-fill buf long k done ∙ fill_whole _ buf (omega (arith, length-block_at laws d b w))

  -- Whatever it returns, `block_read` leaves the file as it was.
  block_read-keeps :
      (buf : Bytes)
      → let w' = (block_read os d b buf w).2 in
        (content w' d.fd ≡ content w d.fd) × (extent w' d.fd ≡ extent w d.fd)
  unfolding block_read
  block_read-keeps buf =
      let off = (b * block_size) % 2 ^ 64 in
      let seek_keeps = laws.seek_content d.fd off w in
      let seek_size = laws.seek_extent d.fd off w in
      let keeps = laws.read_content d.fd block_size (sought os d b w) ∙ seek_keeps in
      let size = laws.read_extent d.fd block_size (sought os d b w) ∙ seek_size in
      elim (Bool-cases (is_open d)) [
        | inr n ↦ rw n (refl, refl)
        | inl y ↦ elim (Bool-cases (leb d.bcount b)) [
          | inl out ↦ rw (y, out) (refl, refl)
          | inr in_range ↦ elim (Bool-cases (is_negative (os.seek d.fd off w).0)) [
            | inl bad ↦ rw (y, in_range, bad) (seek_keeps, seek_size)
            | inr ok ↦
                elim (Bool-cases (is_negative (os.read_fd d.fd block_size (sought os d b w)).0)) [
                  | inl bad ↦ rw (y, in_range, ok, bad) (keeps, size)
                  | inr got ↦ rw (y, in_range, ok, got) (keeps, size)
                ]
          ]
        ]
      ]

  pub Backed-block_read :
      (buf : Bytes) → Backed laws d w → Backed laws d (block_read os d b buf w).2
  Backed-block_read buf k = record { room = rw (block_read-keeps buf).1 k.room; fits = k.fits }

  pub block_at-block_read :
      (buf : Bytes) (c : ℕ) → block_at laws d (block_read os d b buf w).2 c ≡ block_at laws d w c
  unfolding block_at
  block_at-block_read buf c =
      ap (λ f. bytes_from f (c * block_size) block_size) (block_read-keeps buf).0

  -- On a disk whose file holds all its blocks, for a block_read that returns 0: read has returned a
  -- number n of bytes, at most those of a block, and exactly the first n bytes of the buffer have
  -- become those of the block, whatever n is. The disk is as it was.
  pub block_read_lem :
      (buf : Bytes)
      → Backed laws d w
      → (block_read os d b buf w).0 ≡ pos 0
      → let (_, buf', w') = block_read os d b buf w in
        (n : ℕ) × ((os.read_fd d.fd block_size (sought os d b w)).0 ≡ pos n)
        × (n ≤ block_size)
        × (buf' ≡ take n (block_at laws d w b) ++ drop n buf)
        × Backed laws d w'
        × ((c : ℕ) → block_at laws d w' c ≡ block_at laws d w c)
  unfolding block_at
  block_read_lem buf k done =
      let (s, got, e) = read_inversion os d b w buf done in
      let (at, same, size, inside) = sought_facts laws d b w s k in
      let (n, count) = count_of _ got in
      let (most, bytes) = laws.read_bytes d.fd block_size _ n count (rw (at, size) inside) in
      let delivered : (os.read_fd d.fd block_size (sought os d b w)).1
          ≡ bytes_from (content w d.fd) (b * block_size) n =
        bytes ∙ rw (same, at) in
      let cut = length-bytes_from (content w d.fd) (b * block_size) n in
      (
        n,
        count,
        most,
        e
            ∙ rw (delivered, cut)
                (ap (λ x. x ++ drop n buf)
                  (take-bytes_from (content w d.fd) (b * block_size) n block_size most)),
        Backed-block_read buf k,
        block_at-block_read buf,
      )

-- On a disk whose file holds all its blocks, on a host whose transfers inside a file are not short,
-- and with buffers of one block, once block_write has returned 0 a block_read of the same block
-- that returns 0 delivers the buffer that was written.
pub block_read-block_write :
    {W : Type 0} {os : Host W} (laws : HostLaws os) (d : Disk) (b : ℕ) (w : W) (buf old : Bytes)
    → Whole laws
    → Backed laws d w
    → length buf ≡ block_size
    → length old ≡ block_size
    → (block_write os d b buf w).0 ≡ pos 0
    → (block_read os d b old (block_write os d b buf w).1).0 ≡ pos 0
    → (block_read os d b old (block_write os d b buf w).1).1 ≡ buf
block_read-block_write laws d b w buf old long k whole whole' put got =
    let (backed, now) = block_write-whole laws d b w buf k whole long put in
    block_read-block laws d b _ old long backed whole' got ∙ now b ∙ rw ((==_iff b b).1 refl)
