-- ===== src/Disk.antt =====
-- libfs/disk.c and libfs/disk.h: the virtual disk, a host file that is read and written by blocks.
-- The system calls are the fields of `Host`, over a type `W` of states of the host; `disk`, the
-- file's one static variable, is passed in and out by the functions that assign it. A message on
-- stderr is left out.
pub mod Posix
pub mod Opening
pub mod Blocks
pub mod Reading
pub mod Session
pub mod Examples
use ecs150fs.Base.{
  ℕ, ◌*◌, ◌/◌, ◌%◌, ◌^◌, Bool, true, false, not, ◌&&◌, Option, none, some, ◌++◌, leb, ◌==◌,
  if◌then◌else◌,
}
use ecs150fs.Base.Int.{ℤ, pos, minus_one, is_negative, signed, ◌==ℤ◌}
use ecs150fs.Base.Lists.{length, take, drop}
use ecs150fs.Base.Bytes.{Bytes, c_str}
use ecs150fs.Disk.Posix.{Host}

-- Size of a disk block in bytes.
abbrev pub block_size : ℕ
block_size = 4096

abbrev pub invalid_fd : ℤ
invalid_fd = minus_one

-- Disk instance description.
pub record Disk : Type 0 where
  pub fd : ℤ
  pub bcount : ℕ

-- The initial value of the static variable.
abbrev pub closed_disk : Disk
closed_disk = record { fd = invalid_fd; bcount = 0 }

abbrev pub is_open : Disk → Bool
is_open d = not (d.fd ==ℤ invalid_fd)

-- What `read` stored in a buffer: the bytes delivered, in front of what the buffer held.
abbrev pub fill : Bytes → Bytes → Bytes
fill got buf = got ++ drop (length got) buf

module _ {W : Type 0} (os : Host W) where
  -- `none` is a null pointer.
  unfoldable pub block_disk_open : Option Bytes → Disk → W → ℤ × Disk × W
  block_disk_open none d w = (minus_one, d, w)
  block_disk_open (some diskname) d w =
      if is_open d
      then (minus_one, d, w)
      else let (fd, w1) = os.open_file (c_str diskname) w in
        if is_negative fd then (minus_one, d, w1) else elim (os.file_size fd w1) [
          | none ↦ (minus_one, d, w1)
          | some size ↦
              if not (size % block_size == 0)
              then (minus_one, d, w1)
              else (pos 0, record { fd = fd; bcount = size / block_size }, w1)
        ]

  unfoldable pub block_disk_close : Disk → W → ℤ × Disk × W
  block_disk_close d w =
      if not (is_open d)
      then (minus_one, d, w)
      else (pos 0, record d { fd = invalid_fd }, os.close_fd d.fd w)

  -- The buffer is `block_size` bytes at `buf`.
  unfoldable pub block_write : Disk → ℕ → Bytes → W → ℤ × W
  block_write d block buf w =
      if not (is_open d)
      then (minus_one, w)
      else if leb d.bcount block
      then (minus_one, w)
      else let (at, w1) = os.seek d.fd ((block * block_size) % 2 ^ 64) w in
        if is_negative at
        then (minus_one, w1)
        else let (put, w2) = os.write_fd d.fd (take block_size buf) w1 in
          if is_negative put then (minus_one, w2) else (pos 0, w2)

  -- Whether `block_write` gets as far as the buffer.
  unfoldable pub reaches_buffer : Disk → ℕ → W → Bool
  reaches_buffer d block w =
      is_open d
      && not (leb d.bcount block)
      && not (is_negative (os.seek d.fd ((block * block_size) % 2 ^ 64) w).0)

  -- Returns the new content of the buffer too.
  unfoldable pub block_read : Disk → ℕ → Bytes → W → ℤ × Bytes × W
  block_read d block buf w =
      if not (is_open d)
      then (minus_one, buf, w)
      else if leb d.bcount block
      then (minus_one, buf, w)
      else let (at, w1) = os.seek d.fd ((block * block_size) % 2 ^ 64) w in
        if is_negative at
        then (minus_one, buf, w1)
        else let (got, bytes, w2) = os.read_fd d.fd block_size w1 in
          if is_negative got then (minus_one, buf, w2) else (pos 0, fill bytes buf, w2)

-- The conversion to `int` keeps 32 bits of the count.
unfoldable pub block_disk_count : Disk → ℤ
block_disk_count d = if not (is_open d) then minus_one else signed (2 ^ 32) (d.bcount % 2 ^ 32)
