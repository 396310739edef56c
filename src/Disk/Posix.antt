-- ===== src/Disk/Posix.antt =====
-- The system calls that libfs/disk.c makes, as fields over a type `W` of states of the host, and
-- what POSIX says of them: the parts that the block layer relies on.
pub mod Splice
use ecs150fs.Base.{
  ℕ, zero, suc, ◌+◌, ◌-◌, ◌≤◌, ◌≡◌, Bool, false, Option, [], ◌∷◌, ◌&&◌, leb, ltb, if◌then◌else◌,
}
use ecs150fs.Base.Int.{ℤ, pos, is_negative}
use ecs150fs.Base.Lists.{length, take}
use ecs150fs.Base.Bytes.{Bytes}

pub record Host (W : Type 0) : Type 0 where
  -- `open(name, O_RDWR, 0644)`
  pub open_file : Bytes → W → ℤ × W
  -- `fstat`: nothing if it fails, otherwise `st_size`
  pub file_size : ℤ → W → Option ℕ
  -- `lseek(fd, offset, SEEK_SET)`
  pub seek : ℤ → ℕ → W → ℤ × W
  -- `write(fd, buf, n)`, the buffer being its `n` bytes
  pub write_fd : ℤ → Bytes → W → ℤ × W
  -- `read(fd, buf, n)`, with the bytes that it delivers
  pub read_fd : ℤ → ℕ → W → ℤ × Bytes × W
  pub close_fd : ℤ → W → W

-- The `n` bytes from an address on.
unfoldable pub bytes_from : (ℕ → ℕ) → ℕ → ℕ → Bytes
bytes_from f a zero = []
bytes_from f a (suc n) = f a ∷ bytes_from f (suc a) n

-- A file's bytes after `buf` was written at `off`.
abbrev pub splice : (ℕ → ℕ) → ℕ → Bytes → ℕ → ℕ
splice f off [] a = f a
splice f off (b ∷ buf) a =
    let rest = splice f (suc off) buf a in if leb off a && leb a off then b else rest

-- The calls on an open regular file. `content` has its bytes, `position` its offset and `extent`
-- its size. A read or a write inside the file returns the number of the bytes it transferred, from
-- the position on, which may be less than what was asked for.
pub record HostLaws {W : Type 0} (os : Host W) : Type 0 where
  pub content : W → ℤ → ℕ → ℕ
  pub position : W → ℤ → ℕ
  pub extent : W → ℤ → ℕ
  pub seek_position :
      (fd : ℤ) (off : ℕ) (w : W)
      → is_negative (os.seek fd off w).0 ≡ false
      → position (os.seek fd off w).1 fd ≡ off
  pub seek_content : (fd : ℤ) (off : ℕ) (w : W) → content (os.seek fd off w).1 fd ≡ content w fd
  pub seek_extent : (fd : ℤ) (off : ℕ) (w : W) → extent (os.seek fd off w).1 fd ≡ extent w fd
  pub write_content :
      (fd : ℤ) (buf : Bytes) (w : W) (n : ℕ)
      → (os.write_fd fd buf w).0 ≡ pos n
      → position w fd + length buf ≤ extent w fd
      → (n ≤ length buf)
        × (content (os.write_fd fd buf w).1 fd ≡ splice (content w fd) (position w fd) (take n buf))
  pub write_extent :
      (fd : ℤ) (buf : Bytes) (w : W)
      → position w fd + length buf ≤ extent w fd
      → extent (os.write_fd fd buf w).1 fd ≡ extent w fd
  pub read_bytes :
      (fd : ℤ) (n : ℕ) (w : W) (m : ℕ)
      → (os.read_fd fd n w).0 ≡ pos m
      → position w fd + n ≤ extent w fd
      → (m ≤ n) × ((os.read_fd fd n w).1 ≡ bytes_from (content w fd) (position w fd) m)
  pub read_content : (fd : ℤ) (n : ℕ) (w : W) → content (os.read_fd fd n w).2 fd ≡ content w fd
  pub read_extent : (fd : ℤ) (n : ℕ) (w : W) → extent (os.read_fd fd n w).2 fd ≡ extent w fd

-- No read or write inside the file is short.
pub record Whole {W : Type 0} {os : Host W} (laws : HostLaws os) : Type 0 where
  pub whole_write :
      (fd : ℤ) (buf : Bytes) (w : W) (n : ℕ)
      → (os.write_fd fd buf w).0 ≡ pos n
      → laws.position w fd + length buf ≤ laws.extent w fd
      → n ≡ length buf
  pub whole_read :
      (fd : ℤ) (n : ℕ) (w : W) (m : ℕ)
      → (os.read_fd fd n w).0 ≡ pos m
      → laws.position w fd + n ≤ laws.extent w fd
      → m ≡ n
