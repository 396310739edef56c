-- ===== src/Disk/Opening.antt =====
-- block_disk_open, block_disk_close and block_disk_count of libfs/disk.c: the life of the one
-- open disk.
use ecs150fs.Base.{ℕ, ◌*◌, ◌%◌, ◌≤◌, ◌≢◌, ◌≡◌, refl, ◌⊎◌, true, false, some, arith}
use ecs150fs.Base.Int.{ℤ, pos, minus_one, is_negative}
use ecs150fs.Base.Bytes.{Bytes, c_str}
use ecs150fs.Disk.{
  Disk, is_open, block_size, block_disk_open, block_disk_close, block_disk_count, block_write,
  block_read,
}
use ecs150fs.Disk.Posix.{Host}

module _ {W : Type 0} (os : Host W) (d : Disk) (w : W) where
  -- What a call of `block_disk_open` with a name returned: an error, and the variable `disk` as it
  -- was; or 0 for a disk that was closed, now open on the descriptor that the host gave, with as
  -- many blocks as fill its size.
  abbrev pub Opened : Bytes → ℤ × Disk × W → Type 0
  Opened name (r, d', w') =
      ((r ≡ minus_one) × (d' ≡ d))
      ⊎ ((r ≡ pos 0)
          × (is_open d ≡ false)
          × (is_open d' ≡ true)
          × (d'.fd ≡ (os.open_file (c_str name) w).0)
          × (os.file_size d'.fd w' ≡ some (d'.bcount * block_size)))

  -- A block_disk_open with a name returns -1 and keeps the variable disk, or returns 0 for a disk
  -- that was closed, which is then open on the descriptor that the host gave, with as many blocks
  -- as fill its size.
  pub block_disk_open-Opened : (name : Bytes) → Opened name (block_disk_open os (some name) d w)
  unfolding block_disk_open
  block_disk_open-Opened name = ground arith

  -- A block_disk_open whose file is no whole number of blocks returns -1 and keeps the variable
  -- disk, and stops right after open and fstat: the descriptor is not closed.
  pub block_disk_open_leak :
      (name : Bytes) (size : ℕ)
      → is_open d ≡ false
      → is_negative (os.open_file (c_str name) w).0 ≡ false
      → os.file_size (os.open_file (c_str name) w).0 (os.open_file (c_str name) w).1 ≡ some size
      → size % block_size ≢ 0
      → block_disk_open os (some name) d w ≡ (minus_one, d, (os.open_file (c_str name) w).1)
  unfolding block_disk_open
  block_disk_open_leak name size closed got sized odd = ground arith

  -- With no disk open, or for a block that the disk does not have, block_write and block_read
  -- return -1, call nothing of the host and leave the buffer alone.
  pub transfer_refused :
      (b : ℕ) (buf : Bytes)
      → (is_open d ≡ false) ⊎ (d.bcount ≤ b)
      → (block_write os d b buf w ≡ (minus_one, w))
        × (block_read os d b buf w ≡ (minus_one, buf, w))
  unfolding block_write block_read
  transfer_refused b buf h = ground arith

  -- block_disk_close of an open disk returns 0 and closes its descriptor; from then on
  -- block_disk_close and block_disk_count return -1, and block_write of any block returns -1 and
  -- calls nothing of the host.
  pub block_disk_close_lem :
      is_open d ≡ true
      → let (r, d', w') = block_disk_close os d w in
        (r ≡ pos 0)
        × (w' ≡ os.close_fd d.fd w)
        × (is_open d' ≡ false)
        × (block_disk_close os d' w' ≡ (minus_one, d', w'))
        × (block_disk_count d' ≡ minus_one)
        × ((b : ℕ) (buf : Bytes) → block_write os d' b buf w' ≡ (minus_one, w'))
  unfolding block_disk_close block_disk_count block_write
  block_disk_close_lem h = rw h (refl, refl, refl, refl, refl, λ b buf. refl)
