-- ===== src/Kernel/Shows/Reads.antt =====
-- The program reads in the files of the kernel's session what the session is.
use mathlib.Core.List.{append_assoc}
use mathlib.Core.Path.{subst}
use kblocker.Base.{
  ℕ, ◌+◌, ◌^◌, ◌<◌, ◌≡◌, refl, ◌∙◌, ap, sym, ◌++◌, Bool, true, false, List, [], ◌∷◌, Text, lit,
  arith, split, cut, trim_space, text_eq, All, not, ◌&&◌, ◌==◌, ◌≢◌,
}
use kblocker.Base.Int.{pos}
use kblocker.Numbers.{itoa}
use kblocker.Numbers.Decimal.{IsDigit, itoa-digits, parse_int-itoa}
use kblocker.Base.Strings.{is_space}
use kblocker.Base.Words.{
  IsSolid, trim_space-word, trim_space-blank, split-append, cut-append, All-append, fields-cons,
  trim_space-words,
}
use kblocker.Base.Trim.{trim_space-newline}
use kblocker.Cli.{says_enabled}
use kblocker.History.{ModuleState, not_loaded, set_field, read_status_lines, parse_status}
use kblocker.Kernel.{Kernel, Session, remaining_seconds}
use kblocker.Kernel.Shows.{
  bit, enabled_show, Counts, status_line, status_lines, status_fields, status_show,
}
use kblocker.Kernel.Runs.{Reachable}
use kblocker.Kernel.Invariant.{Reachable-IsSound}

-- What a line of `status` is made of.
abbrev pub IsName : Text → Type 0
IsName name = All (λ c. c ≢ b':') name × All (λ c. c ≢ b'\n') name × All IsSolid name

abbrev pub IsValue : Text → Type 0
IsValue value = All (λ c. c ≢ b'\n') value × All IsSolid value

pub is_name : Text → Bool
is_name [] = true
is_name (c ∷ s) =
    let rest = is_name s in not (c == b':') && not (c == b'\n') && not (is_space c) && rest

pub is_name-IsName : (s : Text) → is_name s ≡ true → IsName s
unfolding is_name
is_name-IsName [] h = (tt, tt, tt)
is_name-IsName (c ∷ s) h =
    let (a, b, d) = is_name-IsName s (ground (arith, h)) in
    ((ground (arith, h), a), (ground (arith, h), b), (ground (arith, h), d))

-- The fields of `status`, one after the other.
set_fields : List (Text × Text) → ModuleState → ModuleState
set_fields [] st = st
set_fields ((name, value) ∷ rest) st = set_fields rest (set_field name value st)

unfoldable pub AllLines : List (Text × Text) → Type 0
AllLines [] = Unit
AllLines ((name, value) ∷ rest) = (is_name name ≡ true) × IsValue value × AllLines rest

status_line_last :
    (name value rest : Text)
    → status_line name value ++ rest ≡ (name ++ (b':' ∷ b' ' ∷ value)) ++ (b'\n' ∷ rest)
unfolding status_line lit
status_line_last name value rest = simp append_assoc

pub status_line-split :
    (name value rest : Text)
    → IsName name
    → IsValue value
    → split b'\n' (status_line name value ++ rest)
      ≡ (name ++ (b':' ∷ b' ' ∷ value)) ∷ split b'\n' rest
unfolding status_line lit
status_line-split name value rest hn hv =
    ap (split b'\n') (status_line_last name value rest)
    ∙ split-append b'\n' (name ++ (b':' ∷ b' ' ∷ value)) rest
        (All-append (λ c. c ≢ b'\n') name (b':' ∷ b' ' ∷ value) hn.1 ((λ e. cc), ((λ e. cc), hv.0)))

status_line-set :
    (name value : Text) (st : ModuleState)
    → IsName name
    → IsValue value
    → (lines : List Text)
    → read_status_lines ((name ++ (b':' ∷ b' ' ∷ value)) ∷ lines) st
      ≡ read_status_lines lines (set_field name value st)
unfolding read_status_lines
status_line-set name value st hn hv lines =
    ap (λ st'. read_status_lines lines st')
      (ground (
        arith,
        cut-append b':' name (b' ' ∷ value) hn.0,
        trim_space-word name hn.2,
        trim_space-blank value,
        trim_space-word value hv.1,
      ))

read_status_lines-status_lines :
    (ps : List (Text × Text)) (st : ModuleState)
    → AllLines ps
    → read_status_lines (split b'\n' (status_lines ps)) st ≡ set_fields ps st
unfolding status_lines set_fields AllLines split cut read_status_lines
read_status_lines-status_lines [] st h = refl
read_status_lines-status_lines ((name, value) ∷ rest) st (hn, hv, hs) =
    ap (λ lines. read_status_lines lines st)
      (status_line-split name value (status_lines rest) (is_name-IsName name hn) hv)
    ∙ status_line-set name value st (is_name-IsName name hn) hv (split b'\n' (status_lines rest))
    ∙ read_status_lines-status_lines rest (set_field name value st) hs

digit-IsValueByte : (c : ℕ) → IsDigit c → (c ≢ b'\n') × IsSolid c
digit-IsValueByte c h = ground arith

digits-IsValue : (s : Text) → All IsDigit s → IsValue s
digits-IsValue [] h = (tt, tt)
digits-IsValue (c ∷ s) (hc, hs) =
    let (a, b) = digits-IsValue s hs in let (x, y) = digit-IsValueByte c hc in ((x, a), (y, b))

itoa-IsValue : (n : ℕ) → IsValue (itoa (pos n))
itoa-IsValue n =
    let (c, (s, e, digits)) = itoa-digits n in subst IsValue (sym e) (digits-IsValue (c ∷ s) digits)

bit-IsValue : (b : Bool) → IsValue (bit b)
unfolding bit lit
bit-IsValue true = ground arith
bit-IsValue false = ground arith

pub status_fields-AllLines : (n : Counts) (s : Session) → AllLines (status_fields n s)
unfolding status_fields AllLines lit is_name
status_fields-AllLines n s = (
  refl,
  bit-IsValue s.enabled,
  (
    refl,
    itoa-IsValue n.ips_v4,
    (
      refl,
      itoa-IsValue n.ips_v6,
      (
        refl,
        itoa-IsValue n.domains,
        (
          refl,
          itoa-IsValue (n.ips_v4 + n.ips_v6),
          (
            refl,
            itoa-IsValue (remaining_seconds s),
            (
              refl,
              bit-IsValue s.allow_unload,
              (
                refl,
                itoa-IsValue n.protected,
                (
                  refl,
                  bit-IsValue s.state_restored,
                  (refl, bit-IsValue s.pgp_active, (refl, itoa-IsValue n.allowed, tt)),
                ),
              ),
            ),
          ),
        ),
      ),
    ),
  ),
)

pub bit_lem : (b : Bool) → text_eq (bit b) (lit "1") ≡ b
unfolding bit lit text_eq
bit_lem true = refl
bit_lem false = refl

status_fields-set :
    (n : Counts) (s : Session) (st : ModuleState)
    → remaining_seconds s < 2 ^ 63
    → set_fields (status_fields n s) st
      ≡ record st { enabled = s.enabled; remaining = pos (remaining_seconds s); pgp = s.pgp_active }
unfolding status_fields set_fields set_field lit text_eq
status_fields-set n s st small =
    ground
      (arith, bit_lem s.enabled, bit_lem s.pgp_active, parse_int-itoa (remaining_seconds s) small)

-- The program reads the state of the session in `status`, whatever state the module has come to and
-- whatever the other counts are: that it is loaded, whether a session runs, the seconds it has to
-- go, and whether it is locked.
pub parse_status-status_show :
    (K : Kernel) (n : Counts) {s : Session}
    → Reachable K s
    → parse_status (status_show n s) ≡ record {
      loaded = true;
      enabled = s.enabled;
      remaining = pos (remaining_seconds s);
      pgp = s.pgp_active;
    }
unfolding parse_status status_show
parse_status-status_show K n {s} r =
    read_status_lines-status_lines (status_fields n s) (record not_loaded { loaded = true })
      (status_fields-AllLines n s)
    ∙ status_fields-set n s (record not_loaded { loaded = true })
        (omega (arith, (Reachable-IsSound K r).is_bounded))

trim_space-bit :
    (b : Bool) (w : Text)
    → All IsSolid w
    → w ≢ []
    → trim_space (bit b ++ (lit " " ++ (w ++ lit "\n"))) ≡ bit b ++ (lit " " ++ w)
unfolding bit lit
trim_space-bit true w h some_w =
    trim_space-newline (b'1' ∷ b' ' ∷ w) ∙ trim_space-words b'1' w refl h some_w
trim_space-bit false w h some_w =
    trim_space-newline (b'0' ∷ b' ' ∷ w) ∙ trim_space-words b'0' w refl h some_w

itoa-nonempty : (n : ℕ) → itoa (pos n) ≢ []
itoa-nonempty n none_left =
    let (c, (s, e, digits)) = itoa-digits n in absurd (ground (arith, e, none_left))

says_enabled-bit : (b : Bool) (w : Text) → says_enabled (bit b ++ (lit " " ++ w)) ≡ b
unfolding says_enabled bit lit text_eq
says_enabled-bit true w = ground (arith, fields-cons b'1' w refl)
says_enabled-bit false w = ground (arith, fields-cons b'0' w refl)

-- Whether a session runs is what `enabled` says, with the white space at its end and without.
pub says_enabled-enabled_show :
    (s : Session)
    → (says_enabled (enabled_show s) ≡ s.enabled)
      × (says_enabled (trim_space (enabled_show s)) ≡ s.enabled)
unfolding enabled_show
says_enabled-enabled_show s =
    let digits = itoa (pos (remaining_seconds s)) in
    (
      says_enabled-bit s.enabled (digits ++ lit "\n"),
      ap says_enabled (
            trim_space-bit s.enabled digits (itoa-IsValue (remaining_seconds s)).1
              (itoa-nonempty (remaining_seconds s)))
          ∙ says_enabled-bit s.enabled digits,
    )
