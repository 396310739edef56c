-- ===== src/Fs/Check/Examples.antt =====
-- The theorems on sys_error_check at the disk "ECS150FS" of 2048 blocks.
use ecs150fs.Base.{◌≡◌, ◌≢◌, refl, ◌↔◌, [], ◌∷◌, ◌++◌, arith}
use ecs150fs.Base.Int.{pos, ◌+ℤ◌, ◌-ℤ◌, double}
use ecs150fs.Base.Lists.{take}
use ecs150fs.Base.Bytes.{Bytes, c_str, strlen}
use ecs150fs.Disk.{Disk, block_disk_count}
use ecs150fs.Fs.State.{returns}
use ecs150fs.Fs.Samples.{super_block}
use ecs150fs.Fs.Check.{sys_error_check}
use ecs150fs.Fs.Check.Geometry.{Geometry, sys_error_check_iff, sys_error_check_small}

abbrev name : Bytes
name = super_block.signature

abbrev image_name : Bytes
image_name = super_block.signature ++ 46 ∷ 102 ∷ 115 ∷ []

abbrev large : Disk
large = record { fd = pos 3; bcount = 2048 }

abbrev small : Disk
small = record { fd = pos 3; bcount = 100 }

accepts : sys_error_check 8 name large super_block ≡ returns (pos 0)
unfolding sys_error_check block_disk_count ◌+ℤ◌ ◌-ℤ◌ double
accepts = refl

sys_error_check_iff_example :
    (sys_error_check (strlen name) name large super_block ≡ returns (pos 0))
    ↔ ((take (strlen name) super_block.signature ≡ c_str name) × Geometry 2048 super_block)
sys_error_check_iff_example =
    sys_error_check_iff name large super_block refl (omega arith) (omega arith)

sys_error_check_small_example :
    sys_error_check (strlen name) name small super_block ≢ returns (pos 0)
sys_error_check_small_example =
    sys_error_check_small name small super_block refl (omega arith) (omega arith)
      (λ e. ground arith)
