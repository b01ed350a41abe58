-- ===== src/Kernel.antt =====
-- src/state.c and src/key.c: the session that the kernel module keeps, and its start and its end.
-- The clock counts the seconds since boot without a bound, random bytes are an argument, and
-- SHA-256, kstrtou64 and kstrtobool are the parameter `Kernel`. What the module does to files
-- besides is left out.
pub mod Attributes
pub mod Runs
pub mod Invariant
pub mod Locked
pub mod Timer
pub mod Keys
pub mod Shows
pub mod Domains
pub mod StateFile
pub mod Names
pub mod Hello
pub mod Lists
pub mod Filter
pub mod Hosts
pub mod Enforced
pub mod SavedState
use kblocker.Base.{
  ℕ, zero, suc, ◌+◌, ◌-◌, ◌*◌, ◌/◌, ◌%◌, ◌==◌, ◌&&◌, Bool, true, false, Option, none, some, List,
  [], ◌∷◌, Text, lit, if◌then◌else◌, ltb, leb, is_digit, length, text_eq, trim_suffix,
}

pub record Kernel : Type 0 where
  pub sha256 : List ℕ → List ℕ
  -- kstrtou64 with base 0, and kstrtobool; `none` is an error
  pub parse_u64 : Text → Option ℕ
  pub parse_bool : Text → Option Bool

-- What a write to an attribute returns.
pub data Status : Type 0 where
  success einval erange eperm : Status

pub record Session : Type 0 where
  pub enabled : Bool
  pub pgp_active : Bool
  pub allow_unload : Bool
  pub state_restored : Bool
  pub pgp_key_consumed : Bool
  pub ref_taken : Bool
  pub unload_key : List ℕ
  pub pgp_key : List ℕ
  pub key_hash : List ℕ
  pub expiry_boot : ℕ
  pub now_boot : ℕ

-- MAX_SESSION_SECONDS, ten years
abbrev pub max_session_seconds : ℕ
max_session_seconds = 10 * 365 * 24 * 3600

unfoldable pub zeros : ℕ → List ℕ
zeros zero = []
zeros (suc n) = 0 ∷ zeros n

unfoldable pub remaining_seconds : Session → ℕ
remaining_seconds s =
    if s.enabled
    then (if ltb s.now_boot s.expiry_boot then s.expiry_boot - s.now_boot else 0)
    else 0

unfoldable pub stop_session : Session → Session
stop_session s = record s {
  enabled = false;
  expiry_boot = 0;
  state_restored = false;
  pgp_active = false;
  pgp_key = zeros 16;
  pgp_key_consumed = true;
  ref_taken = false;
}

unfoldable pub disable_blocking : Session → Session
disable_blocking s = stop_session s

unfoldable pub start_session : ℕ → Session → Session
start_session seconds s = record s {
  expiry_boot = s.now_boot + seconds;
  allow_unload = false;
  enabled = true;
  ref_taken = true;
}

-- A key is two lower-case digits for each of its bytes.
abbrev pub hex_digit : ℕ → ℕ
hex_digit d = if ltb d 10 then b'0' + d else b'a' + (d - 10)

unfoldable pub hex_text : List ℕ → Text
hex_text [] = []
hex_text (b ∷ bs) = hex_digit (b / 16) ∷ hex_digit (b % 16) ∷ hex_text bs

abbrev pub hex_val : ℕ → Option ℕ
hex_val c =
    if is_digit c
    then some (c - b'0')
    else if leb b'A' c && leb c b'F'
    then some (c - b'A' + 10)
    else if leb b'a' c && leb c b'f'
    then some (c - b'a' + 10)
    else none

-- The byte of two digits, before the bytes of the others.
abbrev pub hex_byte : ℕ → ℕ → Option (List ℕ) → Option (List ℕ)
hex_byte hi lo rest = elim (hex_val hi) [
  | none ↦ none
  | some h ↦ elim (hex_val lo) [
    | none ↦ none
    | some l ↦ elim rest [ none ↦ none | some bs ↦ some ((h * 16 + l) ∷ bs) ]
  ]
]

unfoldable pub kb_hex_decode : Text → Option (List ℕ)
kb_hex_decode [] = some []
kb_hex_decode (c ∷ []) = none
kb_hex_decode (hi ∷ lo ∷ s) = let rest = kb_hex_decode s in hex_byte hi lo rest

-- The key that a write holds, of 32 digits.
unfoldable pub parsed_key : Text → Option (List ℕ)
parsed_key buf =
    let text = trim_suffix buf (lit "\n") in if length text == 32 then kb_hex_decode text else none

module _ (K : Kernel) where
  open K use {sha256}

  unfoldable pub generate_unload_key : List ℕ → Session → Session
  generate_unload_key fresh s = record s { unload_key = fresh; key_hash = sha256 fresh }

  unfoldable pub check_key : Text → Session → Status
  check_key buf s = elim (parsed_key buf) [
    | none ↦ einval
    | some key ↦ if text_eq (sha256 key) s.key_hash then success else eperm
  ]

  -- Where the new key goes: to be shown once if PGP was armed, and to stay if not.
  unfoldable pub place_key : Session → Session
  place_key s =
      if s.pgp_active
      then record s { pgp_key = s.unload_key; pgp_key_consumed = false; unload_key = zeros 16 }
      else record s { pgp_key = zeros 16; pgp_key_consumed = true }

  unfoldable pub enable_blocking : List ℕ → ℕ → Session → Status × Session
  enable_blocking fresh seconds s =
      if s.enabled
      then (eperm, s)
      else if seconds == 0
      then (einval, s)
      else if ltb max_session_seconds seconds
      then (einval, s)
      else (
        success,
        start_session seconds
            (record (place_key (generate_unload_key fresh s)) { state_restored = false }),
      )

  -- The end of `try_restore_state_from_disk`, with the hash and the seconds that it has read.
  unfoldable pub restore_session : List ℕ → ℕ → Session → Session
  restore_session hash rem s =
      if s.enabled
      then s
      else if s.state_restored
      then s
      else if rem == 0
      then s
      else start_session (if ltb max_session_seconds rem then max_session_seconds else rem)
          (record s {
            key_hash = hash;
            unload_key = zeros 16;
            pgp_key = zeros 16;
            pgp_key_consumed = true;
            pgp_active = true;
            state_restored = true;
          })

  -- `kblocker_init` at an instant, with the session that the state file holds, if it holds one.
  unfoldable pub initial : ℕ → Session
  initial now = record {
    enabled = false;
    pgp_active = false;
    allow_unload = false;
    state_restored = false;
    pgp_key_consumed = true;
    ref_taken = false;
    unload_key = zeros 16;
    pgp_key = zeros 16;
    key_hash = zeros 32;
    expiry_boot = 0;
    now_boot = now;
  }

  unfoldable pub key_if_new : List ℕ → Session → Session
  key_if_new fresh s = if s.state_restored then s else generate_unload_key fresh s

  unfoldable pub kblocker_init : List ℕ → ℕ → Option (List ℕ × ℕ) → Session
  kblocker_init fresh now saved = elim saved [
    | none ↦ key_if_new fresh (initial now)
    | some (hash, rem) ↦ key_if_new fresh (restore_session hash rem (initial now))
  ]
