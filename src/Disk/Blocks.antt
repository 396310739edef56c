-- ===== src/Disk/Blocks.antt =====
-- block_write of libfs/disk.c on an array of blocks. The sections suppose the documented behaviour
-- of the system calls, `HostLaws`.
use native.Mathlib.Nat.{mod-eq_of_lt}
use ecs150fs.Base.{
  ap, ℕ, ◌++◌, ◌+◌, ◌*◌, ◌%◌, ◌^◌, ◌≤◌, ◌<◌, ◌≡◌, refl, ◌⊎◌, inl, inr, ◌∙◌, true, false, arith,
  ◌==◌, if◌then◌else◌, Bool-cases, ==_iff,
}
use mathlib.Core.List.{append-nil}
use ecs150fs.Base.Int.{ℤ, pos, negsuc, is_negative}
use ecs150fs.Base.Lists.{length, take, drop, drop_all, take_all, length-take}
use ecs150fs.Base.Bytes.{Bytes}
use ecs150fs.Disk.{Disk, is_open, block_size, block_write}
use ecs150fs.Disk.Posix.{Host, HostLaws, Whole, bytes_from, splice}
use ecs150fs.Disk.Posix.Splice.{length-bytes_from, bytes_from-splice_front, bytes_from-splice_apart}

pub count_of : (r : ℤ) → is_negative r ≡ false → (n : ℕ) × (r ≡ pos n)
count_of (pos n) h = (n, refl)
count_of (negsuc n) h = cc

module _ {W : Type 0} (os : Host W) (d : Disk) (b : ℕ) (w : W) where
  -- The state in which a transfer takes place, if the test and the seek let it.
  abbrev pub sought : W
  sought = (os.seek d.fd ((b * block_size) % 2 ^ 64) w).1

  abbrev pub Sought : Type 0
  Sought =
      (is_open d ≡ true)
      × (b < d.bcount)
      × (is_negative (os.seek d.fd ((b * block_size) % 2 ^ 64) w).0 ≡ false)

  pub write_inversion :
      (buf : Bytes)
      → (block_write os d b buf w).0 ≡ pos 0
      → Sought
        × (is_negative (os.write_fd d.fd (take block_size buf) sought).0 ≡ false)
        × ((block_write os d b buf w).1 ≡ (os.write_fd d.fd (take block_size buf) sought).1)
  unfolding block_write
  write_inversion buf h = ground arith

-- The file behind an open disk holds every block that the disk counts, and its size fits `size_t`.
pub record Backed {W : Type 0} {os : Host W} (laws : HostLaws os) (d : Disk) (w : W) : Type 0 where
  pub room : d.bcount * block_size ≤ laws.extent w d.fd
  pub fits : d.bcount * block_size < 2 ^ 64

-- Block `b` of the file.
unfoldable pub block_at : {W : Type 0} {os : Host W} (laws : HostLaws os) → Disk → W → ℕ → Bytes
block_at laws d w b = bytes_from (laws.content w d.fd) (b * block_size) block_size

module _ {W : Type 0} {os : Host W} (laws : HostLaws os) (d : Disk) (b : ℕ) (w : W) where
  open laws use {content, position, extent}

  -- What a successful seek leaves.
  pub sought_facts :
      Sought os d b w
      → Backed laws d w
      → (position (sought os d b w) d.fd ≡ b * block_size)
        × (content (sought os d b w) d.fd ≡ content w d.fd)
        × (extent (sought os d b w) d.fd ≡ extent w d.fd)
        × (b * block_size + block_size ≤ extent w d.fd)
  sought_facts (op, lt, at) k = (
    laws.seek_position d.fd _ w at ∙ mod-eq_of_lt (omega (arith, k.fits, lt)),
    laws.seek_content d.fd _ w,
    laws.seek_extent d.fd _ w,
    omega (arith, k.room, lt),
  )

  pub length-block_at : length (block_at laws d w b) ≡ block_size
  unfolding block_at
  length-block_at = length-bytes_from (content w d.fd) (b * block_size) block_size

  module _ (buf : Bytes) (k : Backed laws d w) (whole : length buf ≡ block_size) where
    write_facts :
        (block_write os d b buf w).0 ≡ pos 0
        → let w' = (block_write os d b buf w).1 in
          (n : ℕ) × ((os.write_fd d.fd buf (sought os d b w)).0 ≡ pos n)
          × (n ≤ length buf)
          × (content w' d.fd ≡ splice (content w d.fd) (b * block_size) (take n buf))
          × (extent w' d.fd ≡ extent w d.fd)
    write_facts done =
        let (s, put, e) = write_inversion os d b w buf done in
        let (at, same, size, inside) = sought_facts s k in
        let cut : take block_size buf ≡ buf = take_all block_size buf (omega arith) in
        let fits : position (sought os d b w) d.fd + length buf ≤ extent (sought os d b w) d.fd =
          rw (at, size, whole) inside in
        let (n, some_count) = count_of _ (rw cut at put) in
        let (most, new) = laws.write_content d.fd buf _ n some_count fits in
        (
          n,
          some_count,
          most,
          rw (e, cut, new, same, at),
          rw (e, cut, laws.write_extent d.fd buf _ fits) size,
        )

    -- On a disk whose file holds all its blocks, for a buffer of one block and a block_write of it
    -- that returns 0: write has returned a number n of bytes, at most those of a block, and exactly
    -- the first n bytes of the block have become those of the buffer, whatever n is. Every other
    -- block is as it was, and the file still holds all blocks.
    pub block_write-update :
        (block_write os d b buf w).0 ≡ pos 0
        → let w' = (block_write os d b buf w).1 in
          (n : ℕ) × ((os.write_fd d.fd buf (sought os d b w)).0 ≡ pos n)
          × (n ≤ block_size)
          × Backed laws d w'
          × ((c : ℕ)
              → block_at laws d w' c ≡ (
                  if c == b
                  then take n buf ++ drop n (block_at laws d w b)
                  else block_at laws d w c))
    unfolding block_at
    block_write-update done =
        let (n, count, most, new, size) = write_facts done in
        let cut : length (take n buf) ≡ n = omega (arith, length-take n buf) in
        (
          n,
          count,
          omega arith,
          record { room = rw size (k.room); fits = k.fits },
          λ c. rw new (elim (Bool-cases (c == b)) [
            | inl e ↦
                rw (e, (==_iff c b).0 e)
                  (bytes_from-splice_front (content w d.fd) (b * block_size) (take n buf) block_size
                      (omega arith)
                    ∙ rw cut)
            | inr e ↦
                rw e (
                  bytes_from-splice_apart (content w d.fd) _ (take n buf) _ _
                    (apart n c cut most e))
          ]),
        )
      where
        apart :
            (n c : ℕ)
            → length (take n buf) ≡ n
            → n ≤ length buf
            → (c == b) ≡ false
            → (c * block_size + block_size ≤ b * block_size)
              ⊎ (b * block_size + length (take n buf) ≤ c * block_size)
        apart n c cut most e = ground arith

    -- If the write is not short, the buffer is the content of the block.
    pub block_write-whole :
        Whole laws
        → (block_write os d b buf w).0 ≡ pos 0
        → let w' = (block_write os d b buf w).1 in
          Backed laws d w'
          × ((c : ℕ) → block_at laws d w' c ≡ (if c == b then buf else block_at laws d w c))
    block_write-whole long done =
        let (n, count, most, backed, now) = block_write-update done in
        let (s, _, _) = write_inversion os d b w buf done in
        let (at, same, size, inside) = sought_facts s k in
        let all : n ≡ length buf =
          long.whole_write d.fd buf _ n count (rw (at, size, whole) inside) in
        let front : take n buf ++ drop n (block_at laws d w b) ≡ buf =
          rw
            (
              all,
              take_all (length buf) buf (omega arith),
              drop_all (length buf) (block_at laws d w b) (omega (arith, length-block_at)),
            )
            (append-nil buf) in
        (backed, λ c. now c ∙ ap (λ x. if c == b then x else block_at laws d w c) front)
