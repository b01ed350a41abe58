-- ===== src/Cli/Attributes.antt =====
-- `hasImmutable`, which looks for an `i` in what lsattr prints.
use kblocker.Base.{ℕ, ◌≡◌, true, [], ◌∷◌, ◌++◌, arith, Text, lit}
use kblocker.System.{Os, ok, done}
use kblocker.Cli.{newline, contains_byte, list_attributes, has_immutable}

contains_byte-append :
    (b : ℕ) (s t : Text) → contains_byte b t ≡ true → contains_byte b (s ++ t) ≡ true
unfolding contains_byte
contains_byte-append b [] t h = h
contains_byte-append b (c ∷ s) t h = ground (arith, contains_byte-append b s t h)

contains_byte-before :
    (b : ℕ) (s t : Text) → contains_byte b s ≡ true → contains_byte b (s ++ t) ≡ true
unfolding contains_byte
contains_byte-before b [] t h = cc
contains_byte-before b (c ∷ s) t h = ground (arith, contains_byte-before b s t)

-- A file whose path has an `i` in it is taken to be immutable whatever its attributes are: lsattr
-- prints the path after the attributes, and the test reads the whole line.
pub has_immutable_path :
    (O : Os) (path flags : Text) (s s' : O.State)
    → O.has_program s (lit "lsattr") ≡ true
    → O.run (lit "lsattr" ∷ path ∷ []) [] s ≡ (ok (flags ++ (b' ' ∷ path ++ newline)), s')
    → contains_byte b'i' path ≡ true
    → has_immutable O path s ≡ done true s'
unfolding has_immutable list_attributes
has_immutable_path O path flags s s' found printed has_i =
    let line = contains_byte-append b'i' flags (b' ' ∷ path ++ newline) (
      contains_byte-append b'i' (b' ' ∷ []) (path ++ newline)
        (contains_byte-before b'i' path newline has_i)) in
    ground (arith, found, printed, line)
