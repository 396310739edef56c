-- ===== src/Apps/MountTester/Failing.antt =====
-- libfs/mount_tester.c, linked with libfs/fs.c.
use ecs150fs.Base.{◌≡◌, refl, ◌⊎◌, inl, inr, ◌∙◌, sym, Bool, true}
use ecs150fs.Base.Int.{ℤ, minus_one}
use ecs150fs.Base.Bytes.{Bytes}
use ecs150fs.Disk.Posix.{Host}
use ecs150fs.Fs.State.{FsSystem, Outcome, returns}
use ecs150fs.Fs.Mount.{fs_mount}
use ecs150fs.Fs.Mount.Failing.{fs_mount_ends}
use ecs150fs.Apps.Calls.{Run, goes_on, call-ends}
use ecs150fs.Apps.Library.{Machine, fs_c, on_disk}
use ecs150fs.Apps.Library.Linking.{on_disk-returns}
use ecs150fs.Apps.MountTester.{mount_tester, disk_fs, disk_plain, dk_fs}

-- At least two of the numbers are -1.
abbrev pub TwoFail : {S : Type 0} → Run S (ℤ × ℤ × ℤ) → Type 0
TwoFail (goes_on (a, b, c) _) =
    ((a ≡ minus_one) × (b ≡ minus_one))
    ⊎ (((a ≡ minus_one) × (c ≡ minus_one)) ⊎ ((b ≡ minus_one) × (c ≡ minus_one)))
TwoFail _ = true ≡ true

module _ {W : Type 0} (os : Host W) (memory : FsSystem) where
  abbrev mount : Bytes → Machine W → Outcome (ℤ × Machine W)
  mount name = on_disk os (fs_mount os name memory)

  -- A mount fails, or no later one succeeds.
  mount_once :
      (name : Bytes) (m m' : Machine W) (r : ℤ)
      → mount name m ≡ returns (r, m')
      → (r ≡ minus_one) ⊎ ((later : Bytes) → mount later m' ≡ returns (minus_one, m'))
  mount_once name m m' r h =
      elim (fs_mount_ends os name memory _ _ _ _ _ _ r
        (on_disk-returns os (fs_mount os name memory) m h)) [
          | inl (fail, _, _) ↦ inl fail
          | inr (_, _, again) ↦ inr (λ later. rw (again later memory) refl)
        ]

  mount_fails :
      (m m' : Machine W) (r : ℤ) (name : Bytes)
      → mount name m ≡ returns (minus_one, m)
      → mount name m ≡ returns (r, m')
      → (r ≡ minus_one) × (m' ≡ m)
  mount_fails m m' r name e h =
      let same : ◌≡◌ {A = Outcome (ℤ × Machine W)} (returns (minus_one, m)) (returns (r, m')) =
        sym e ∙ h in
      (cc, cc)

  -- Linked with libfs/fs.c, whatever the disk and the variables are, a run of mount_tester that
  -- comes to an end has printed -1 at least twice.
  pub mount_tester_once :
      (unspecified : Bytes → Machine W → Bool) (info : Machine W → Outcome (ℤ × Machine W))
      (m : Machine W)
      → TwoFail (mount_tester (fs_c os memory unspecified info) m)
  unfolding mount_tester
  mount_tester_once unspecified info m = call-ends TwoFail (mount disk_fs) _ m refl (λ a m1 ea.
      call-ends TwoFail (mount disk_plain) _ m1 refl (λ b m2 eb.
        call-ends TwoFail (mount dk_fs) _ m2 refl (λ c m3 ec. elim (mount_once disk_fs m m1 a ea) [
          | inl a_fails ↦ elim (mount_once disk_plain m1 m2 b eb) [
            | inl b_fails ↦ inl (a_fails, b_fails)
            | inr later ↦ inr (inl (a_fails, (mount_fails m2 m3 c dk_fs (later dk_fs) ec).0))
          ]
          | inr later ↦
              let (b_fails, same) = mount_fails m1 m2 b disk_plain (later disk_plain) eb in
              inr (inr (b_fails, (mount_fails m1 m3 c dk_fs (later dk_fs) (rw same at ec)).0))
        ])))
