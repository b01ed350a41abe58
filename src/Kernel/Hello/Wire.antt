-- ===== src/Kernel/Hello/Wire.antt =====
-- A ClientHello as RFC 8446 and RFC 6066 lay it out.
use kblocker.Base.{ℕ, ◌/◌, ◌%◌, ◌<◌, ◌≡◌, List, [], ◌∷◌, ◌++◌, Text, length, All}

-- A text after its length, of one byte or two.
abbrev pub vector8 : Text → Text
vector8 t = length t ∷ t

abbrev pub vector16 : Text → Text
vector16 t = (length t / 256) ∷ (length t % 256) ∷ t

abbrev pub extension : ℕ → Text → Text
extension kind body = (kind / 256) ∷ (kind % 256) ∷ vector16 body

abbrev pub extension_bytes : List (ℕ × Text) → Text
extension_bytes [] = []
extension_bytes ((kind, body) ∷ others) = extension kind body ++ extension_bytes others

-- The extension that names one host.
abbrev pub name_extension : Text → Text
name_extension host = extension 0 (vector16 (0 ∷ vector16 host))

-- A ClientHello: 37 bytes with its length, the version and random bytes, three vectors, and the
-- extensions before the host's name and after it.
pub record Hello : Type 0 where
  pub front : Text
  pub session : Text
  pub ciphers : Text
  pub compressions : Text
  pub before : List (ℕ × Text)
  pub host : Text
  pub after : List (ℕ × Text)

abbrev pub all_extensions : Hello → Text
all_extensions h = extension_bytes h.before ++ (name_extension h.host ++ extension_bytes h.after)

abbrev pub handshake : Hello → Text
handshake h =
    0x01
    ∷ (h.front
        ++ (vector8 h.session
            ++ (vector16 h.ciphers ++ (vector8 h.compressions ++ vector16 (all_extensions h)))))

-- The record that holds it.
abbrev pub client_hello : Hello → Text
client_hello h = 0x16 ∷ 3 ∷ 1 ∷ vector16 (handshake h)

-- Some other extension.
abbrev pub IsOther : ℕ × Text → Type 0
IsOther (kind, body) = (0 < kind) × (kind < 65536) × (length body < 65536)

pub record IsHello (h : Hello) : Type 0 where
  pub of_front : length h.front ≡ 37
  pub of_ciphers : length h.ciphers < 65536
  pub of_before : All IsOther h.before
  pub of_host : 0 < length h.host
  pub short : length (all_extensions h) < 65536
