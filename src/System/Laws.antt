-- ===== src/System/Laws.antt =====
-- What the commands rely on of the operating system, as package os documents it, and programs
-- that always come to their end.
use kblocker.Base.{◌≡◌, refl, Text, arith, Bool, true, false}
use kblocker.System.{Os, ok, Exec, done, exit, Prog, ◌>>◌, act_, final}

-- A plain file that can be written: a write is read back.
pub record IsWritable (O : Os) (path : Text) : Type 0 where
  pub read-write : (d : Text) (s : O.State) → O.read_file (O.write_file path d s).1 path ≡ ok d

module _ {S : Type 0} where
  -- The program does not end the process.
  abbrev pub Completes : Prog S (Unit {0}) → Type 0
  Completes m = (s : S) → (s' : S) × (m s ≡ done tt s')

  pub Completes-act : {A : Type 0} (f : S → A × S) → Completes (act_ f)
  Completes-act f s = ((f s).1, refl)

  pub Completes-then : (m k : Prog S (Unit {0})) → Completes m → Completes k → Completes (m >> k)
  Completes-then m k hm hk s = let (a, p) = hm s in let (b, q) = hk a in (b, ground (arith, p, q))

-- The program has gone on with a value.
abbrev pub is_done : {S A : Type 0} → Exec S A → Bool
is_done (done a s) = true
is_done (exit n s) = false

pub done-final : {S A : Type 0} (e : Exec S A) → is_done e ≡ true → (a : A) × (e ≡ done a (final e))
done-final (done a s) h = (a, refl)
done-final (exit n s) h = absurd (ground (arith, h))
