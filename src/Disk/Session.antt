-- ===== src/Disk/Session.antt =====
-- The calls of libfs/disk.c in any order, as steps on the variable `disk` and the host's state.
use ecs150fs.Base.{◌⊎◌, inl, refl, ℕ, ◌≡◌, false, Option, none, some, arith}
use ecs150fs.Base.Int.{is_negative}
use ecs150fs.Base.Bytes.{Bytes}
use ecs150fs.Disk.{
  Disk, is_open, closed_disk, block_disk_open, block_disk_close, block_write, block_read,
}
use ecs150fs.Disk.Posix.{Host}

module _ {W : Type 0} (os : Host W) where
  -- One call by a client.
  pub data Step (d : Disk) (w : W) : Disk → W → Type 0 where
    opened :
        (name : Option Bytes)
        → Step d w (block_disk_open os name d w).1 (block_disk_open os name d w).2
    closed : Step d w (block_disk_close os d w).1 (block_disk_close os d w).2
    written : (b : ℕ) (buf : Bytes) → Step d w d (block_write os d b buf w).1
    read : (b : ℕ) (buf : Bytes) → Step d w d (block_read os d b buf w).2

  -- What the program can reach from its start.
  pub data Reach (start : W) : Disk → W → Type 0 where
    here : Reach start closed_disk start
    next :
        {d : Disk} {w : W} {d' : Disk} {w' : W}
        → Reach start d w
        → Step d w d' w'
        → Reach start d' w'

  -- A disk is closed, or its descriptor is one that `open` can return.
  abbrev pub IsValid : Disk → Type 0
  IsValid d = (is_open d ≡ false) ⊎ (is_negative d.fd ≡ false)

  Step-IsValid : {d : Disk} {w : W} {d' : Disk} {w' : W} → Step d w d' w' → IsValid d → IsValid d'
  unfolding block_disk_open block_disk_close
  Step-IsValid (opened none) v = v
  Step-IsValid (opened (some name)) v = ground arith
  Step-IsValid closed v = ground arith
  Step-IsValid (written b buf) v = v
  Step-IsValid (read b buf) v = v

  -- Whatever is called in whatever order from the start, the disk is closed or holds a descriptor
  -- that is not negative.
  pub Reach-IsValid : {start : W} {d : Disk} {w : W} → Reach start d w → IsValid d
  Reach-IsValid here = inl refl
  Reach-IsValid (next r s) = Step-IsValid s (Reach-IsValid r)
