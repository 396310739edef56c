-- ===== src/Revisions/Closing.antt =====
-- fs_close of libfs/fs2.0.c and libfs/fs3.0.c, which gives back the whole file system.
use ecs150fs.Base.{◌≡◌, refl}
use ecs150fs.Base.Int.{ℤ, pos}
use ecs150fs.Base.Bytes.{Bytes}
use ecs150fs.Disk.{Disk}
use ecs150fs.Disk.Posix.{Host}
use ecs150fs.Fs.State.{live, freed, returns, undefined}
use ecs150fs.Revisions.Structures.{State, FsSystem}
use ecs150fs.Revisions.Fs2
use ecs150fs.Revisions.Fs3

-- With the file system given back, these calls of a revision use freed memory.
abbrev pub IsGone2 : {W : Type 0} → Host W → State → Type 0
IsGone2 {W} os s =
    ((d : Disk) (w : W) → Fs2.fs_unmount os s d w ≡ undefined)
    × (Fs2.fs_ls s ≡ undefined)
    × (Fs2.fs_info s ≡ undefined)
    × ((fd : ℤ) → Fs2.fs_close fd s ≡ undefined)

abbrev pub IsGone3 : {W : Type 0} → Host W → State → Type 0
IsGone3 {W} os s =
    ((d : Disk) (w : W) → Fs3.fs_unmount os s d w ≡ undefined)
    × (Fs3.fs_ls s ≡ undefined)
    × (Fs3.fs_info s ≡ undefined)
    × ((f : Bytes) → Fs3.fs_delete f s ≡ undefined)
    × ((fd : ℤ) → Fs3.fs_close fd s ≡ undefined)

-- fs_close, whatever the descriptor, returns 0 and gives back the file system, after which the calls
-- that look at it are undefined.
pub fs_close_gives_back :
    {W : Type 0} (os : Host W) (fd : ℤ) (fs : FsSystem)
    → (s : State) × (Fs2.fs_close fd (live fs) ≡ returns (pos 0, s))
      × (Fs3.fs_close fd (live fs) ≡ returns (pos 0, s))
      × IsGone2 os s
      × IsGone3 os s
unfolding Fs2.fs_close Fs3.fs_close Fs2.fs_unmount Fs2.fs_ls Fs2.fs_info Fs3.fs_unmount Fs3.fs_ls
    Fs3.fs_info Fs3.fs_delete
fs_close_gives_back os fd fs = (
  freed,
  refl,
  refl,
  ((λ d w. refl), refl, refl, (λ fd'. refl)),
  ((λ d w. refl), refl, refl, (λ f. refl), (λ fd'. refl)),
)
