-- ===== src/Fs/Sessions/Examples.antt =====
-- Sessions: an fs_mount that fails and an fs_close; an fs_close and an fs_unmount.
use ecs150fs.Base.{Bool, true, false, ◌≤◌, ◌⊎◌, ◌≡◌, refl, [], ◌∷◌}
use ecs150fs.Base.Int.{ℤ, pos, minus_one}
use ecs150fs.Base.Lists.{length}
use ecs150fs.Base.Bytes.{Bytes}
use ecs150fs.Disk.{block_write, block_disk_close}
use ecs150fs.Disk.Examples.{World, host, blank, two_blocks}
use ecs150fs.Fs.State.{State, returns, freed}
use ecs150fs.Fs.Samples.{closed_fd, open_fd, name_a, array_of}
use ecs150fs.Fs.Mount.{fs_unmount}
use ecs150fs.Fs.Mount.Examples
use ecs150fs.Fs.Mount.Examples.{
  three_blocks, shut, world_of, half, after, diskname, memory, refuses,
}
use ecs150fs.Fs.Descriptors.{fs_open, fs_close, is_valid_fd, update_fd}
use ecs150fs.Fs.Descriptors.Invariant.{closed}
use ecs150fs.Fs.Sessions.{
  Whole, Reach, here, next, mounted, in_memory, start, Agrees, Reach-Agrees, unmounted,
}
use ecs150fs.Fs.Sessions.Room.{session_room, fs_open_exhausted}

abbrev in_the_end : Whole World
in_the_end = record { variables = half; disk = two_blocks; host = after }

not_open : fs_close (pos 0) half ≡ returns (minus_one, half)
unfolding fs_close is_valid_fd
not_open = refl

session : Reach host (start (closed_fd ∷ []) blank) in_the_end
session =
    next {y = in_the_end} (next here (mounted diskname memory {r = minus_one} refuses))
      (in_memory (closed (pos 0) not_open))

Reach-Agrees_example : Agrees in_the_end
Reach-Agrees_example = Reach-Agrees host (closed_fd ∷ []) blank in_the_end session

session_room_example :
    (length half.fd_table ≡ 1)
    × (half.fd_open_count ≤ 1)
    × ((unspecified : Bool) (f : Bytes)
        → (half.file_system ≡ freed)
          ⊎ ((r : ℤ) × (s : State) × (fs_open unspecified f half ≡ returns (r, s))))
session_room_example = session_room host (closed_fd ∷ []) blank in_the_end session

-- A table of one descriptor, which is open, then closed.
abbrev table_full : State
table_full = record Examples.mounted { fd_table = open_fd name_a ∷ []; fd_open_count = 1 }

abbrev table_closed : State
table_closed = record table_full {
  fd_table = record { filename = array_of []; offset = 0; used = false } ∷ [];
}

closes : fs_close (pos 0) table_full ≡ returns (pos 0, table_closed)
unfolding fs_close is_valid_fd update_fd
closes = refl

abbrev left : World
left = world_of (fs_unmount host table_closed three_blocks blank)

shuts :
    fs_unmount host table_closed three_blocks blank
    ≡ returns (pos 0, record table_closed { file_system = freed }, shut, left)
unfolding fs_unmount block_write block_disk_close world_of
shuts = refl

abbrev full_session : Whole World
full_session = record { variables = table_full; disk = three_blocks; host = blank }

abbrev shut_session : Whole World
shut_session = record {
  variables = record table_closed { file_system = freed };
  disk = shut;
  host = left;
}

calls : Reach host full_session shut_session
calls = next (next here (in_memory (closed (pos 0) closes))) (unmounted {r = pos 0} shuts)

fs_open_exhausted_example :
    fs_open true name_a shut_session.variables ≡ returns (minus_one, shut_session.variables)
fs_open_exhausted_example = fs_open_exhausted host full_session shut_session true name_a refl calls
