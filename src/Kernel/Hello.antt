-- ===== src/Kernel/Hello.antt =====
-- src/parse.c: the server's name in the ClientHello of a TLS connection.
pub mod Bounds
pub mod Wire
pub mod Parts
pub mod Extract
use kblocker.Base.{
  ℕ, zero, suc, ◌+◌, ◌*◌, ◌==◌, ◌||◌, not, Bool, true, false, Option, none, some, Text, length,
  take, drop, ltb, leb, if◌then◌else◌,
}
use kblocker.Base.Parts.{get_elem?}

-- What comes of `kb_sni_extract`: no name (0), or the name that it copies. `outside` is a read of a
-- byte after the last, and `stuck` a loop that has run out of fuel.
pub data Sni : Type 0 where
  no_name outside stuck : Sni
  name : Text → Sni

unfoldable pub read : Text → ℕ → (ℕ → Sni) → Sni
read bytes off k = elim (get_elem? bytes off) [ none ↦ outside | some b ↦ k b ]

-- `get_u16`
unfoldable pub read_u16 : Text → ℕ → (ℕ → Sni) → Sni
read_u16 bytes off k = read bytes off (λ hi. read bytes (off + 1) (λ lo. k (hi * 256 + lo)))

-- `memcpy` of a name
unfoldable pub copy : Text → ℕ → ℕ → Sni
copy bytes off n = if ltb (length bytes) (off + n) then outside else name (take n (drop off bytes))

-- The extension that holds the name, at `off`. Its list starts with two bytes of its length, one
-- of the name's type and two of the name's length.
unfoldable pub server_name : Text → ℕ → ℕ → ℕ → Sni
server_name bytes outlen off ext_len =
    if ltb ext_len 5
    then no_name
    else read bytes (off + 2) (λ kind.
      if not (kind == 0)
      then no_name
      else read_u16 bytes (off + 3) (λ name_len.
        if name_len == 0 || leb outlen name_len || ltb ext_len (5 + name_len)
        then no_name
        else copy bytes (off + 5) name_len))

-- The loop over the extensions up to `end`, with fuel.
unfoldable pub extensions : ℕ → Text → ℕ → ℕ → ℕ → Sni
extensions zero bytes outlen end off = stuck
extensions (suc fuel) bytes outlen end off =
    let round = read_u16 bytes off (λ kind. read_u16 bytes (off + 2) (λ ext_len.
      let rest = extensions fuel bytes outlen end (off + 4 + ext_len) in
      if ltb end (off + 4 + ext_len)
      then no_name
      else if kind == 0
      then server_name bytes outlen (off + 4) ext_len
      else rest)) in
    if ltb end (off + 4) then no_name else round

-- Each round passes over four bytes at least.
unfoldable pub extensions_from : Text → ℕ → ℕ → Sni
extensions_from bytes outlen off =
    if ltb (length bytes) (off + 2)
    then no_name
    else read_u16 bytes off (λ n.
      let ext_end = off + 2 + n in
      let end = if ltb (length bytes) ext_end then length bytes else ext_end in
      extensions (suc (length bytes)) bytes outlen end (off + 2))

unfoldable pub compression_methods : Text → ℕ → ℕ → Sni
compression_methods bytes outlen off =
    if ltb (length bytes) (off + 1)
    then no_name
    else read bytes off (λ n. extensions_from bytes outlen (off + 1 + n))

unfoldable pub cipher_suites : Text → ℕ → ℕ → Sni
cipher_suites bytes outlen off =
    if ltb (length bytes) (off + 2)
    then no_name
    else read_u16 bytes off (λ n. compression_methods bytes outlen (off + 2 + n))

unfoldable pub session_id : Text → ℕ → ℕ → Sni
session_id bytes outlen off =
    if ltb (length bytes) (off + 1)
    then no_name
    else read bytes off (λ n. cipher_suites bytes outlen (off + 1 + n))

-- After the record's 5 bytes come the handshake's type, its length of 3, the version of 2 and 32
-- random bytes.
unfoldable pub kb_sni_extract : Text → ℕ → Sni
kb_sni_extract bytes outlen =
    if ltb (length bytes) 9
    then no_name
    else read bytes 0 (λ record_type.
      if not (record_type == 0x16)
      then no_name
      else read bytes 5 (λ handshake_type.
        if not (handshake_type == 0x01) then no_name else session_id bytes outlen (5 + 4 + 2 + 32)))
