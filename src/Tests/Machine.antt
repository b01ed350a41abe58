-- ===== src/Tests/Machine.antt =====
-- A small operating system: files in a list, a clock, one directory of keys, and the kernel's key.
use kblocker.Base.{
  ℕ, true, false, List, [], ◌∷◌, ◌++◌, Text, lit, text_eq, text_eq_iff, arith, if◌then◌else◌,
}
use kblocker.Base.Int.{pos}
use kblocker.System.{Os, Entry, enoent, Reply, ok, err}
use kblocker.System.Laws.{IsWritable}
use kblocker.Cli.{sysfs_base, newline}

pub record Machine : Type 0 where
  pub files : List (Text × Text)
  pub clock : ℕ
  pub keys : List Entry
  pub shown_key : Text

unfoldable pub lookup : List (Text × Text) → Text → Reply Text
unfolding text_eq
lookup [] path = err enoent
lookup ((name, text) ∷ files) path =
    let rest = lookup files path in if text_eq name path then ok text else rest

-- A program of one argument prints it after some attributes; the others print nothing.
abbrev pub printed : List Text → Text
printed (program ∷ path ∷ []) = lit "----" ++ (b' ' ∷ path ++ newline)
printed args = []

abbrev pub machine : Os
machine = record {
  State = Machine;
  euid = λ s. 0;
  getenv = λ s name. [];
  executable = λ s. ok (lit "/usr/bin/kblockerctl");
  has_program = λ s name. true;
  now = λ s. s.clock;
  now_unix = λ s. pos s.clock;
  read_file = λ s path. lookup s.files path;
  stat = λ s path.
      if text_eq sysfs_base path
      then ok true
      else elim (lookup s.files path) [ ok text ↦ ok false | err e ↦ err e ];
  read_dir = λ s path. ok s.keys;
  read_key = λ s. (ok s.shown_key, record s { shown_key = lit "encrypted" });
  stdin_is_terminal = λ s. true;
  read_stdin = λ s. (ok [], s);
  write_file = λ path text s. (ok tt, record s { files = (path, text) ∷ s.files });
  append_file = λ path text s. (ok tt, record s { files = (path, text) ∷ s.files });
  remove = λ path s. (ok tt, s);
  remove_all = λ path s. (ok tt, s);
  rename = λ from to s. elim (lookup s.files from) [
    | ok text ↦ (ok tt, record s { files = (to, text) ∷ s.files })
    | err e ↦ (err e, s)
  ];
  mkdir_all = λ path s. (ok tt, s);
  chmod = λ path s. (ok tt, s);
  create_temp = λ pattern s. (ok (lit "/tmp/key.asc"), s);
  listen = λ address s. (ok address, s);
  run = λ args input s. (ok (printed args), s);
}

pub machine-IsWritable : (path : Text) → IsWritable machine path
unfolding lookup
machine-IsWritable path = record { read-write = λ d s. ground (arith, text_eq_iff path path) }
