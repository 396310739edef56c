-- ===== src/Apps/Library.antt =====
-- libfs/fs.c on top of libfs/disk.c as an implementation of the interface of libfs/fs.h: what the
-- programs under apps are linked with.
pub mod Linking
pub mod Ending
pub mod Adding
use ecs150fs.Base.{Bool, some, List, ◌∷◌}
use ecs150fs.Base.Int.{ℤ}
use ecs150fs.Base.Bytes.{Bytes}
use ecs150fs.Disk.{Disk}
use ecs150fs.Disk.Posix.{Host}
use ecs150fs.Fs.State.{FsSystem, State, Outcome, returns, ◌>>=◌}
use ecs150fs.Fs.Mount.{fs_mount, fs_unmount}
use ecs150fs.Fs.Directory.{fs_create, fs_delete, fs_ls}
use ecs150fs.Fs.Descriptors.{fs_open, fs_close, fs_stat, fs_lseek, fs_write, fs_read}
use ecs150fs.Apps.Calls.{FsApi, Message, listed}

-- The global variables of the two files, the host, and what was printed, the latest first.
pub record Machine (W : Type 0) : Type 0 where
  pub variables : State
  pub disk : Disk
  pub host : W
  pub output : List Message

module _ {W : Type 0} (os : Host W) where
  -- A call that touches the variables of libfs/fs.c alone.
  abbrev pub in_memory : (State → Outcome (ℤ × State)) → Machine W → Outcome (ℤ × Machine W)
  in_memory f m = f m.variables >>= λ (r, s). returns (r, record m { variables = s })

  -- A call that goes to the disk.
  abbrev pub on_disk :
      (State → Disk → W → Outcome (ℤ × State × Disk × W)) → Machine W → Outcome (ℤ × Machine W)
  on_disk f m = f m.variables m.disk m.host >>= λ (r, s, d, w).
      returns (r, record m { variables = s; disk = d; host = w })

  -- `memory` is what malloc finds; `unspecified` is the value of an isValidName that ends without
  -- `return`, which may depend on the name and on the state; `fs_info` is an argument. The
  -- `fs_umount` of the interface is the code's `fs_unmount`.
  abbrev pub fs_c :
      FsSystem
      → (Bytes → Machine W → Bool)
      → (fs_info : Machine W → Outcome (ℤ × Machine W)) → FsApi (Machine W)
  fs_c memory unspecified fs_info = record {
    fs_mount = λ diskname. on_disk (fs_mount os diskname memory);
    fs_umount = on_disk (fs_unmount os);
    fs_info = fs_info;
    fs_create = λ filename m. in_memory (fs_create (unspecified filename m) filename) m;
    fs_delete = λ filename. in_memory (fs_delete filename);
    fs_ls = λ m. fs_ls m.variables >>= λ (r, lines).
        returns (r, record m { output = listed lines ∷ m.output });
    fs_open = λ filename m. in_memory (fs_open (unspecified filename m) filename) m;
    fs_close = λ fd. in_memory (fs_close fd);
    fs_stat = λ fd m. fs_stat fd m.variables >>= λ r. returns (r, m);
    fs_lseek = λ fd offset. in_memory (fs_lseek fd offset);
    fs_write = λ fd buf count. in_memory (fs_write fd (some buf) count);
    fs_read = λ fd buf count m. fs_read fd (some buf) count m.variables >>= λ (r, s).
        returns ((r, buf), record m { variables = s });
  }
