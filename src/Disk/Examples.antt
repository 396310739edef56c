-- ===== src/Disk/Examples.antt =====
-- The theorems on libfs/disk.c at a small disk: a host with one file of two blocks, descriptor 3.
use ecs150fs.Base.{
  ℕ, ◌+◌, ◌≤◌, ◌≡◌, refl, ap, sym, ◌++◌, false, some, [], ◌∷◌, arith, ◌==◌, if◌then◌else◌,
}
use ecs150fs.Base.Int.{pos, minus_one}
use ecs150fs.Base.Lists.{length, replicate, take, drop, take_all, length-replicate}
use ecs150fs.Base.Bytes.{Bytes}
use ecs150fs.Disk.{
  Disk, block_size, is_open, closed_disk, block_disk_open, block_disk_close, block_disk_count,
  block_write, block_read,
}
use ecs150fs.Disk.Posix.{Host, HostLaws, Whole, bytes_from, splice}
use ecs150fs.Disk.Opening.{Opened, block_disk_open-Opened, block_disk_close_lem}
use ecs150fs.Disk.Blocks.{Backed, block_at, sought, block_write-update}
use ecs150fs.Disk.Reading.{block_read_lem, block_read-block_write}
use ecs150fs.Disk.Session.{Step, here, next, opened, IsValid, Reach-IsValid}

pub record World : Type 0 where
  pub image : ℕ → ℕ
  pub offset : ℕ
  pub size : ℕ

abbrev pub host : Host World
host = record {
  open_file = λ name w. (pos 3, w);
  file_size = λ fd w. some w.size;
  seek = λ fd off w. (pos off, record w { offset = off });
  write_fd = λ fd buf w. (
    pos (length buf),
    record w { image = splice w.image w.offset buf; offset = w.offset + length buf },
  );
  read_fd = λ fd n w. (pos n, bytes_from w.image w.offset n, record w { offset = w.offset + n });
  close_fd = λ fd w. w;
}

pub write_all :
    (w : World) (buf : Bytes) (n : ℕ)
    → pos (length buf) ≡ pos n
    → (n ≤ length buf) × (splice w.image w.offset buf ≡ splice w.image w.offset (take n buf))
write_all w buf n count =
    let all : length buf ≡ n = cc in
    (omega (arith, all), ap (splice w.image w.offset) (sym (take_all n buf (omega (arith, all)))))

pub read_all :
    (w : World) (n m : ℕ)
    → pos n ≡ pos m
    → (m ≤ n) × (bytes_from w.image w.offset n ≡ bytes_from w.image w.offset m)
read_all w n m count =
    let all : n ≡ m = cc in (omega (arith, all), ap (bytes_from w.image w.offset) all)

abbrev pub host_laws : HostLaws host
host_laws = record {
  content = λ w fd. w.image;
  position = λ w fd. w.offset;
  extent = λ w fd. w.size;
  seek_position = λ fd off w ok. refl;
  seek_content = λ fd off w. refl;
  seek_extent = λ fd off w. refl;
  write_content = λ fd buf w n count room. write_all w buf n count;
  write_extent = λ fd buf w room. refl;
  read_bytes = λ fd n w m count room. read_all w n m count;
  read_content = λ fd n w. refl;
  read_extent = λ fd n w. refl;
}

pub host_laws-Whole : Whole host_laws
host_laws-Whole = record {
  whole_write = λ fd buf w n count room. cc;
  whole_read = λ fd n w m count room. cc;
}

abbrev pub blank : World
blank = record { image = λ a. 0; offset = 0; size = 8192 }

abbrev ragged : World
ragged = record { image = λ a. 0; offset = 0; size = 5000 }

abbrev pub two_blocks : Disk
two_blocks = record { fd = pos 3; bcount = 2 }

two_blocks-Backed : Backed host_laws two_blocks blank
two_blocks-Backed = omega arith

abbrev sevens : Bytes
sevens = replicate block_size 7

length-sevens : length sevens ≡ block_size
length-sevens = length-replicate {A = ℕ} block_size 7

put : (block_write host two_blocks 1 sevens blank).0 ≡ pos 0
unfolding block_write
put = refl

got : (block_read host two_blocks 1 sevens (block_write host two_blocks 1 sevens blank).1).0 ≡ pos 0
unfolding block_read
got = refl

block_write-update_example :
    let w' = (block_write host two_blocks 1 sevens blank).1 in
    (n : ℕ) × ((host.write_fd (pos 3) sevens (sought host two_blocks 1 blank)).0 ≡ pos n)
    × (n ≤ block_size)
    × Backed host_laws two_blocks w'
    × ((c : ℕ)
        → block_at host_laws two_blocks w' c ≡ (
            if c == 1
            then take n sevens ++ drop n (block_at host_laws two_blocks blank 1)
            else block_at host_laws two_blocks blank c))
block_write-update_example =
    block_write-update host_laws two_blocks 1 blank sevens two_blocks-Backed length-sevens put

block_read-block_write_example :
    (block_read host two_blocks 1 sevens (block_write host two_blocks 1 sevens blank).1).1 ≡ sevens
block_read-block_write_example =
    block_read-block_write host_laws two_blocks 1 blank sevens sevens host_laws-Whole
      two_blocks-Backed length-sevens length-sevens put got

block_disk_open-Opened_example :
    Opened host closed_disk blank
      (100 ∷ [])
      (block_disk_open host (some (100 ∷ [])) closed_disk blank)
block_disk_open-Opened_example = block_disk_open-Opened host closed_disk blank (100 ∷ [])

opens_two_blocks :
    block_disk_open host (some (100 ∷ [])) closed_disk blank ≡ (pos 0, two_blocks, blank)
unfolding block_disk_open
opens_two_blocks = refl

block_disk_close_lem_example :
    let (r, d', w') = block_disk_close host two_blocks blank in
    (r ≡ pos 0)
    × (w' ≡ blank)
    × (is_open d' ≡ false)
    × (block_disk_close host d' w' ≡ (minus_one, d', w'))
    × (block_disk_count d' ≡ minus_one)
    × ((b : ℕ) (buf : Bytes) → block_write host d' b buf w' ≡ (minus_one, w'))
block_disk_close_lem_example = block_disk_close_lem host two_blocks blank refl

counts_two : block_disk_count two_blocks ≡ pos 2
unfolding block_disk_count
counts_two = refl

opening_step : Step host closed_disk blank two_blocks blank
unfolding block_disk_open
opening_step = opened (some (100 ∷ []))

Reach-IsValid_example : IsValid host two_blocks
Reach-IsValid_example = Reach-IsValid host (next here opening_step)

got_blank : (block_read host two_blocks 1 sevens blank).0 ≡ pos 0
unfolding block_read
got_blank = refl

block_read_lem_example :
    let (_, buf', w') = block_read host two_blocks 1 sevens blank in
    (n : ℕ) × ((host.read_fd (pos 3) block_size (sought host two_blocks 1 blank)).0 ≡ pos n)
    × (n ≤ block_size)
    × (buf' ≡ take n (block_at host_laws two_blocks blank 1) ++ drop n sevens)
    × Backed host_laws two_blocks w'
    × ((c : ℕ) → block_at host_laws two_blocks w' c ≡ block_at host_laws two_blocks blank c)
block_read_lem_example =
    block_read_lem host_laws two_blocks 1 blank sevens two_blocks-Backed got_blank
