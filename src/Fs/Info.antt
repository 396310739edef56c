-- ===== src/Fs/Info.antt =====
-- fs_info of libfs/fs.c.
use ecs150fs.Base.Int.{ℤ, minus_one}
use ecs150fs.Fs.State.{State, null, Outcome, returns, undefined}

-- With a file system in memory, or a stale pointer to one, the first line that it prints gives a
-- number to `printf` for `%s`. What follows, part of which is not well-formed, is not reached.
unfoldable pub fs_info : State → Outcome ℤ
fs_info s = elim s.file_system [ null ↦ returns minus_one | _ ↦ undefined ]
