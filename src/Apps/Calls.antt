-- ===== src/Apps/Calls.antt =====
-- libfs/fs.h as an interface: the operations that the programs under apps call, over any type `S`
-- of states; beside it what the programs ask of the host, and how a program can end.
use ecs150fs.Base.{ℕ, ◌≡◌, refl, Bool, true, false, Option, List, if◌then◌else◌}
use ecs150fs.Base.Int.{ℤ}
use ecs150fs.Base.Bytes.{Bytes}
use ecs150fs.Fs.State.{Outcome, returns, undefined}

-- The functions that libfs/fs.h declares.
pub record FsApi (S : Type 0) : Type 0 where
  pub fs_mount : Bytes → S → Outcome (ℤ × S)
  pub fs_umount : S → Outcome (ℤ × S)
  pub fs_info : S → Outcome (ℤ × S)
  pub fs_create : Bytes → S → Outcome (ℤ × S)
  pub fs_delete : Bytes → S → Outcome (ℤ × S)
  pub fs_ls : S → Outcome (ℤ × S)
  pub fs_open : Bytes → S → Outcome (ℤ × S)
  pub fs_close : ℤ → S → Outcome (ℤ × S)
  pub fs_stat : ℤ → S → Outcome (ℤ × S)
  pub fs_lseek : ℤ → ℕ → S → Outcome (ℤ × S)
  pub fs_write : ℤ → Bytes → ℕ → S → Outcome (ℤ × S)
  -- With the new content of the buffer.
  pub fs_read : ℤ → Bytes → ℕ → S → Outcome ((ℤ × Bytes) × S)

-- What the programs print on stdout; `listed` is what fs_ls prints.
pub data Message : Type 0 where
  empty_file : Message
  size_of_file : Bytes → ℤ → Message
  read_file : Bytes → ℤ → ℤ → Message
  content : Bytes → Message
  removed : Bytes → Message
  wrote_file : Bytes → ℤ → ℕ → Message
  listed : List (ℕ × Bytes) → Message
  successful : Bytes → Message
  wrote_bytes : ℤ → Message

-- Calls of the host; those that only look at it give no new state.
pub record HostFiles (S : Type 0) : Type 0 where
  pub print : Message → S → S
  -- `open(name, O_RDONLY)`
  pub open_rdonly : Bytes → S → ℤ × S
  -- `fstat`: nothing if it fails, otherwise whether the file is a regular one, and its size
  pub fstat : ℤ → S → Option (Bool × ℕ)
  -- `mmap` of so many bytes: nothing for a null pointer, otherwise the bytes
  pub mmap : ℕ → ℤ → S → Option Bytes
  -- `malloc`: nothing for a null pointer, otherwise the bytes that the memory holds
  pub malloc : ℕ → S → Option Bytes
  pub close_fd : ℤ → S → S
  -- `fopen(name, "r")`: nothing if it fails, otherwise the bytes that `fgets` reads from then on
  pub fopen : Bytes → S → Option Bytes

-- How a part of a program ends: it goes on with a result, the process ends with a status, or a
-- call that it makes is undefined.
pub data Run (S A : Type 0) : Type 0 where
  goes_on : A → S → Run S A
  exits : ℕ → S → Run S A
  crashes : Run S A

-- A part of a program, from the state in which it starts.
abbrev pub Cmd : Type 0 → Type 0 → Type 0
Cmd S A = S → Run S A

abbrev pub run_on : {S A B : Type 0} → Run S A → (A → Cmd S B) → Run S B
run_on (goes_on a s) f = f a s
run_on (exits status s) f = exits status s
run_on crashes f = crashes

infixl 5 ◌>>◌
-- One part, then the next.
abbrev pub ◌>>◌ : {S A B : Type 0} → Cmd S A → (A → Cmd S B) → Cmd S B
(c >> f) s = run_on (c s) f

abbrev pub of_outcome : {S A : Type 0} → Outcome (A × S) → Run S A
of_outcome (returns (a, s)) = goes_on a s
of_outcome undefined = crashes

-- A call of the library.
abbrev pub call : {S A : Type 0} → (S → Outcome (A × S)) → Cmd S A
call f s = of_outcome (f s)

abbrev pub done : {S A : Type 0} → A → Cmd S A
done a s = goes_on a s

abbrev pub exit : {S A : Type 0} → ℕ → Cmd S A
exit status s = exits status s

-- `die` and `die_perror` print on stderr and end the process.
abbrev pub die : {S A : Type 0} → Cmd S A
die s = exits 1 s

-- A call, and what follows it: every end is as wanted, given that `crashes` is.
pub call-ends :
    {S A B : Type 0} (P : Run S B → Type 0) (f : S → Outcome (A × S)) (k : A → Cmd S B) (s : S)
    → P crashes
    → ((a : A) (s' : S) → f s ≡ returns (a, s') → P (k a s'))
    → P ((call f >> k) s)
call-ends {S} {A} P f k s c h = go (f s) refl
  where
    go : (o : Outcome (A × S)) → f s ≡ o → P (run_on (of_outcome o) k)
    go (returns (a, s')) e = h a s' e
    go undefined e = c

-- The same with the cases of a test of the result.
pub call_test-ends :
    {S B : Type 0} (P : Run S B → Type 0) (f : S → Outcome (ℤ × S)) (test : ℤ → Bool)
    (then_do else_do : ℤ → Cmd S B) (s : S)
    → P crashes
    → ((r : ℤ) (s' : S) → f s ≡ returns (r, s') → test r ≡ true → P (then_do r s'))
    → ((r : ℤ) (s' : S) → f s ≡ returns (r, s') → test r ≡ false → P (else_do r s'))
    → P ((call f >> λ r. if test r then then_do r else else_do r) s)
call_test-ends {S} P f test then_do else_do s c h k =
    call-ends P f _ s c (λ r s' e. go r s' e (test r) refl)
  where
    go :
        (r : ℤ) (s' : S)
        → f s ≡ returns (r, s')
        → (b : Bool) → test r ≡ b
        → P ((if b then then_do r else else_do r) s')
    go r s' e true t = h r s' e t
    go r s' e false t = k r s' e t
