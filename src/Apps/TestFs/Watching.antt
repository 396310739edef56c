-- ===== src/Apps/TestFs/Watching.antt =====
-- The library of libfs/fs.h under watch: each call of it is written down, for the question whether
-- a program unmounts what it has mounted.
use ecs150fs.Base.{◌≡◌, refl, Bool, true, false, not, List, [], ◌∷◌, if◌then◌else◌}
use ecs150fs.Base.Int.{ℤ}
use ecs150fs.Fs.State.{Outcome, returns, undefined, ◌>>=◌}
use ecs150fs.Apps.Calls.{
  FsApi, HostFiles, Run, goes_on, exits, crashes, Cmd, ◌>>◌, call, of_outcome, run_on,
}
use ecs150fs.Apps.TestFs.{failed}

-- A call with what it returned.
pub data Call : Type 0 where
  mount_call umount_call other_call : ℤ → Call

abbrev pub log :
    {S A : Type 0}
    → (A → Call)
    → (S → Outcome (A × S))
    → S × List Call
    → Outcome (A × (S × List Call))
log mark f (s, t) = f s >>= λ (a, s'). returns (a, (s', mark a ∷ t))

-- The library with the calls made so far, the latest first, beside its state.
abbrev pub logged : {S : Type 0} → FsApi S → FsApi (S × List Call)
logged fs = record {
  fs_mount = λ name. log mount_call (fs.fs_mount name);
  fs_umount = log umount_call fs.fs_umount;
  fs_info = log other_call fs.fs_info;
  fs_create = λ name. log other_call (fs.fs_create name);
  fs_delete = λ name. log other_call (fs.fs_delete name);
  fs_ls = log other_call fs.fs_ls;
  fs_open = λ name. log other_call (fs.fs_open name);
  fs_close = λ fd. log other_call (fs.fs_close fd);
  fs_stat = λ fd. log other_call (fs.fs_stat fd);
  fs_lseek = λ fd offset. log other_call (fs.fs_lseek fd offset);
  fs_write = λ fd buf n. log other_call (fs.fs_write fd buf n);
  fs_read = λ fd buf n. log (λ (r, _). other_call r) (fs.fs_read fd buf n);
}

abbrev pub beside : {S T : Type 0} → HostFiles S → HostFiles (S × T)
beside os = record {
  print = λ message (s, t). (os.print message s, t);
  open_rdonly = λ name (s, t). let (fd, s') = os.open_rdonly name s in (fd, (s', t));
  fstat = λ fd (s, t). os.fstat fd s;
  mmap = λ n fd (s, t). os.mmap n fd s;
  malloc = λ n (s, t). os.malloc n s;
  close_fd = λ fd (s, t). (os.close_fd fd s, t);
  fopen = λ name (s, t). os.fopen name s;
}

-- The calls of an open session: a mount that succeeded, and others than mount and umount.
abbrev pub inside : List Call → Bool
inside (other_call _ ∷ t) = inside t
inside (mount_call r ∷ []) = not (failed r)
inside _ = false

-- No call, a mount that failed, or a session that umount ends.
abbrev pub whole : List Call → Bool
whole [] = true
whole (mount_call r ∷ []) = failed r
whole (umount_call _ ∷ t) = inside t
whole _ = false

abbrev pub whole_run : {S A : Type 0} → Run (S × List Call) A → Bool
whole_run (goes_on _ (_, t)) = whole t
whole_run (exits _ (_, t)) = whole t
whole_run crashes = true

-- A call under watch, and what follows it: every end is as wanted, given that `crashes` is.
pub logged_call-ends :
    {S A B : Type 0} (P : Run (S × List Call) B → Type 0) (mark : A → Call)
    (f : S → Outcome (A × S)) (k : A → Cmd (S × List Call) B) (s : S) (t : List Call)
    → P crashes
    → ((a : A) (s' : S) → P (k a (s', mark a ∷ t)))
    → P ((call (log mark f) >> k) (s, t))
logged_call-ends {S} {A} P mark f k s t c h = go (f s)
  where
    go :
        (o : Outcome (A × S))
        → P (run_on (of_outcome (o >>= λ (a, s'). returns (a, (s', mark a ∷ t)))) k)
    go (returns (a, s')) = h a s'
    go undefined = c

-- The same with what the call returned, and with the cases of a test of the result.
pub logged_test-returns :
    {S B : Type 0} (P : Run (S × List Call) B → Type 0) (mark : ℤ → Call) (f : S → Outcome (ℤ × S))
    (test : ℤ → Bool) (then_do else_do : ℤ → Cmd (S × List Call) B) (s : S) (t : List Call)
    → P crashes
    → ((r : ℤ) (s' : S) → f s ≡ returns (r, s') → test r ≡ true → P (then_do r (s', mark r ∷ t)))
    → ((r : ℤ) (s' : S) → f s ≡ returns (r, s') → test r ≡ false → P (else_do r (s', mark r ∷ t)))
    → P ((call (log mark f) >> λ r. if test r then then_do r else else_do r) (s, t))
logged_test-returns {S} {B} P mark f test then_do else_do s t c h k = go (f s) refl
  where
    branch :
        (r : ℤ) (s' : S) (b : Bool)
        → f s ≡ returns (r, s')
        → test r ≡ b
        → P ((if b then then_do r else else_do r) (s', mark r ∷ t))
    branch r s' true o e = h r s' o e
    branch r s' false o e = k r s' o e

    go :
        (o : Outcome (ℤ × S))
        → f s ≡ o
        → P (
            run_on
              (of_outcome (o >>= λ (r, s'). returns (r, (s', mark r ∷ t))))
              (λ r. if test r then then_do r else else_do r))
    go (returns (r, s')) e = branch r s' (test r) e refl
    go undefined e = c

pub logged_test-ends :
    {S B : Type 0} (P : Run (S × List Call) B → Type 0) (mark : ℤ → Call) (f : S → Outcome (ℤ × S))
    (test : ℤ → Bool) (then_do else_do : ℤ → Cmd (S × List Call) B) (s : S) (t : List Call)
    → P crashes
    → ((r : ℤ) (s' : S) → test r ≡ true → P (then_do r (s', mark r ∷ t)))
    → ((r : ℤ) (s' : S) → test r ≡ false → P (else_do r (s', mark r ∷ t)))
    → P ((call (log mark f) >> λ r. if test r then then_do r else else_do r) (s, t))
logged_test-ends P mark f test then_do else_do s t c h k =
    logged_test-returns P mark f test then_do else_do s t c (λ r s' _. h r s') (λ r s' _. k r s')

abbrev pub IsWhole : {S A : Type 0} → Run (S × List Call) A → Type 0
IsWhole r = whole_run r ≡ true
