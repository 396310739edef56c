-- ===== src/Apps/Library/Linking.antt =====
-- Calls of the interface of libfs/fs.h as calls of libfs/fs.c.
use ecs150fs.Base.{ℕ, ◌⊎◌, ◌≡◌, ◌≤◌, ap, ◌∙◌, Bool, false, arith}
use ecs150fs.Base.Int.{ℤ, pos, negsuc, minus_one, is_negative, ==ℤ_iff}
use ecs150fs.Base.Lists.{length}
use ecs150fs.Base.Bytes.{Bytes}
use ecs150fs.Disk.Posix.{Host}
use ecs150fs.Fs.State.{FsSystem, State, Outcome, returns, undefined, ◌>>=◌}
use ecs150fs.Fs.Descriptors.{fs_open, fs_stat}
use ecs150fs.Disk.{Disk}
use ecs150fs.Fs.Directory.{fs_create}
use ecs150fs.Fs.Descriptors.Opening.{fs_open-fs_create}
use ecs150fs.Fs.Descriptors.Invariant.{fs_create-Grows}
use ecs150fs.Fs.Descriptors.Closing.{fs_stat-fs_open}
use ecs150fs.Fs.Mount.Keeping.{fs_mount-SameTable}
use ecs150fs.Fs.Mount.{fs_mount}
use ecs150fs.Apps.Calls.{Run, exits, crashes}
use ecs150fs.Apps.Library.{Machine, in_memory, on_disk}
use ecs150fs.Apps.TestFs.{failed}

pub in_memory-returns :
    {W : Type 0} (os : Host W) (f : State → Outcome (ℤ × State)) (m : Machine W) {r : ℤ}
    {m' : Machine W}
    → in_memory os f m ≡ returns (r, m')
    → f m.variables ≡ returns (r, m'.variables)
in_memory-returns {W} os f m {r} {m'} h = go (f m.variables) h
  where
    go :
        (o : Outcome (ℤ × State))
        → ◌>>=◌ {B = ℤ × Machine W} o (λ (r', s). returns (r', record m { variables = s }))
          ≡ returns (r, m')
        → o ≡ returns (r, m'.variables)
    go (returns (r', s)) e = cc
    go undefined e = cc

-- A descriptor that was just opened has size 0.
pub new_size :
    {W : Type 0} (os : Host W) (unspecified : Bool) (f : Bytes) (m : Machine W) (fd : ℤ)
    (m' : Machine W)
    → in_memory os (fs_open unspecified f) m ≡ returns (fd, m')
    → is_negative fd ≡ false
    → fs_stat fd m'.variables ≡ returns (pos 0)
new_size os unspecified f m (pos n) m' h up =
    fs_stat-fs_open unspecified f m.variables m'.variables n
      (in_memory-returns os (fs_open unspecified f) m h)
new_size os unspecified f m (negsuc n) m' h up = cc

pub on_disk-returns :
    {W : Type 0} (os : Host W) (f : State → Disk → W → Outcome (ℤ × State × Disk × W))
    (m : Machine W) {r : ℤ} {m' : Machine W}
    → on_disk os f m ≡ returns (r, m')
    → f m.variables m.disk m.host ≡ returns (r, m'.variables, m'.disk, m'.host)
on_disk-returns {W} os f m {r} {m'} h = go (f m.variables m.disk m.host) h
  where
    go :
        (o : Outcome (ℤ × State × Disk × W))
        → ◌>>=◌ {B = ℤ × Machine W} o
            (λ (r', s, d, w). returns (r', record m { variables = s; disk = d; host = w }))
          ≡ returns (r, m')
        → o ≡ returns (r, m'.variables, m'.disk, m'.host)
    go (returns (r', s, d, w)) e = cc
    go undefined e = cc

-- No more opens are counted than the table has entries.
abbrev pub HasRoom : {W : Type 0} → Machine W → Type 0
HasRoom m = m.variables.fd_open_count ≤ length m.variables.fd_table

-- What was just created cannot be opened.
pub created_unopened :
    {W : Type 0} (os : Host W) (unspecified unspecified' : Bool) (f : Bytes) (m m' : Machine W)
    (r : ℤ)
    → HasRoom m
    → in_memory os (fs_create unspecified f) m ≡ returns (r, m')
    → failed r ≡ false
    → fs_open unspecified' f m'.variables ≡ returns (minus_one, m'.variables)
created_unopened os unspecified unspecified' f m m' r room h ok =
    let made = in_memory-returns os (fs_create unspecified f) m h in
    let grows = fs_create-Grows unspecified f m.variables m'.variables made in
    let zero_result : r ≡ pos 0 = (==ℤ_iff r (pos 0)).0 (ground arith) in
    fs_open-fs_create unspecified unspecified' f m.variables m'.variables
      (made ∙ ap (λ (x : ℤ). returns (x, m'.variables)) zero_result)
      (omega (arith, grows.table, grows.count, grows.bound, room))

-- `fs_mount` leaves the table alone.
pub mounted_room :
    {W : Type 0} (os : Host W) (diskname : Bytes) (memory : FsSystem) (m m' : Machine W) (r : ℤ)
    → on_disk os (fs_mount os diskname memory) m ≡ returns (r, m')
    → HasRoom m
    → HasRoom m'
mounted_room os diskname memory m m' r h room =
    let (table, count) =
      fs_mount-SameTable os diskname memory m.variables m.disk m.host
        (on_disk-returns os (fs_mount os diskname memory) m h) in
    rw (table, count) room

-- The process has ended with status 1, or a call was undefined.
abbrev pub GivesUp : {W : Type 0} → Run (Machine W) ℕ → Type 0
GivesUp {W} r = (r ≡ crashes) ⊎ ((m : Machine W) × (r ≡ exits 1 m))
