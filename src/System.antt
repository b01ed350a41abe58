-- ===== src/System.antt =====
-- The operating system as the program meets it (packages os and os/exec), and programs over it.
-- An `Os` is a parameter of every command: what a file read returns is a function of the state,
-- and only the kernel's `key` attribute is changed by being read (src/key.c: it is shown once).
pub mod Laws
use kblocker.Base.{ℕ, ◌≡◌, refl, ◌⊎◌, inl, inr, Bool, true, false, List, Text}
use kblocker.Base.Int.{ℤ}

-- The errors that the program tells apart.
pub data Errno : Type 0 where
  enoent einval eperm eaddrinuse other_error : Errno

pub data Reply (A : Type 0) : Type 0 where
  ok : A → Reply A
  err : Errno → Reply A

pub record Entry : Type 0 where
  pub name : Text
  pub is_dir : Bool

pub record Os : Type 1 where
  pub State : Type 0
  -- os.Geteuid, os.Getenv, os.Executable, exec.LookPath
  pub euid : State → ℕ
  pub getenv : State → Text → Text
  pub executable : State → Reply Text
  pub has_program : State → Text → Bool
  -- time.Now, as an instant in nanoseconds and as Unix seconds
  pub now : State → ℕ
  pub now_unix : State → ℤ
  -- os.ReadFile, os.Stat (whether the file is a directory), os.ReadDir
  pub read_file : State → Text → Reply Text
  pub stat : State → Text → Reply Bool
  pub read_dir : State → Text → Reply (List Entry)
  -- os.ReadFile of /sys/kernel/kblocker/key
  pub read_key : State → Reply Text × State
  -- whether stdin is a terminal, and io.ReadAll or a line of it
  pub stdin_is_terminal : State → Bool
  pub read_stdin : State → Reply Text × State
  -- os.WriteFile, an append to a file, os.Remove, os.RemoveAll, os.Rename, os.MkdirAll, os.Chmod
  pub write_file : Text → Text → State → Reply (Unit {0}) × State
  pub append_file : Text → Text → State → Reply (Unit {0}) × State
  pub remove : Text → State → Reply (Unit {0}) × State
  pub remove_all : Text → State → Reply (Unit {0}) × State
  pub rename : Text → Text → State → Reply (Unit {0}) × State
  pub mkdir_all : Text → State → Reply (Unit {0}) × State
  pub chmod : Text → State → Reply (Unit {0}) × State
  -- os.CreateTemp with a pattern, whose reply is the file's path, and net.Listen on an address, whose
  -- reply is the address that is listened on
  pub create_temp : Text → State → Reply Text × State
  pub listen : Text → State → Reply Text × State
  -- exec.Command: the program and its arguments, what it is given on stdin, and its output
  pub run : List Text → Text → State → Reply Text × State

-- The program goes on with a value, or has ended with a status.
pub data Exec (S A : Type 0) : Type 0 where
  done : A → S → Exec S A
  exit : ℕ → S → Exec S A

abbrev pub Prog : Type 0 → Type 0 → Type 0
Prog S A = S → Exec S A

infixl 5 ◌>>=◌ ◌>>◌
abbrev pub ◌>>=◌ : {S A B : Type 0} → Prog S A → (A → Prog S B) → Prog S B
◌>>=◌ m f s = elim (m s) [ done a s' ↦ f a s' | exit n s' ↦ exit n s' ]

abbrev pub ◌>>◌ : {S B : Type 0} → Prog S (Unit {0}) → Prog S B → Prog S B
m >> k = m >>= λ _. k

abbrev pub ret : {S A : Type 0} → A → Prog S A
ret a s = done a s

-- os.Exit and log.Fatal
abbrev pub quit : {S A : Type 0} → ℕ → Prog S A
quit n s = exit n s

-- A look at the state, an action, and an action whose result is dropped.
abbrev pub ask : {S A : Type 0} → (S → A) → Prog S A
ask f s = done (f s) s

abbrev pub act : {S A : Type 0} → (S → A × S) → Prog S A
act f s = let (a, s') = f s in done a s'

abbrev pub act_ : {S A : Type 0} → (S → A × S) → Prog S (Unit {0})
act_ f s = let (a, s') = f s in done tt s'

abbrev pub is_ok : {A : Type 0} → Reply A → Bool
is_ok (ok a) = true
is_ok (err e) = false

-- The state in which a program stops.
abbrev pub final : {S A : Type 0} → Exec S A → S
final (done a s) = s
final (exit n s) = s

pub Reply-cases : {A : Type 0} (r : Reply A) → ((e : Errno) × (r ≡ err e)) ⊎ ((a : A) × (r ≡ ok a))
Reply-cases (ok a) = inr (a, refl)
Reply-cases (err e) = inl (e, refl)
