-- ===== src/Kernel/Hello/Bounds.antt =====
-- The search for the server's name stays within the packet and the buffer, and comes to its end.
use kblocker.Base.{
  ℕ, zero, suc, ◌+◌, ◌*◌, ◌≤◌, ◌<◌, ◌≡◌, refl, ◌==◌, ◌||◌, not, Bool, true, false, Text, arith,
  length, take, drop, ltb, leb, Bool-cases, if◌then◌else◌, inl, inr,
}
use kblocker.Base.Parts.{get_elem?-lt, length-take, length-drop}
use kblocker.Kernel.Hello.{
  Sni, read, read_u16, copy, server_name, extensions, extensions_from, compression_methods,
  cipher_suites, session_id, kb_sni_extract,
}

-- No byte after the last is read, the loop comes to its end, and a name fits into the buffer with a
-- NUL after it and is not empty.
pub data IsBounded (outlen : ℕ) : Sni → Type 0 where
  no_name : IsBounded outlen Sni.no_name
  name : {t : Text} → 0 < length t → length t < outlen → IsBounded outlen (Sni.name t)

if-IsBounded :
    {outlen : ℕ} {x y : Sni} (b : Bool)
    → (b ≡ true → IsBounded outlen x)
    → (b ≡ false → IsBounded outlen y)
    → IsBounded outlen (if b then x else y)
if-IsBounded true hx hy = hx refl
if-IsBounded false hx hy = hy refl

-- No name on the first branch.
or_no_name :
    {outlen : ℕ} {y : Sni} (b : Bool)
    → (b ≡ false → IsBounded outlen y)
    → IsBounded outlen (if b then Sni.no_name else y)
or_no_name b h = if-IsBounded b (λ e. no_name) h

read-IsBounded :
    {outlen : ℕ} (bytes : Text) (off : ℕ) (k : ℕ → Sni)
    → off < length bytes
    → ((b : ℕ) → IsBounded outlen (k b))
    → IsBounded outlen (read bytes off k)
unfolding read
read-IsBounded bytes off k inside h =
    let (b, byte) = get_elem?-lt bytes off inside in rw (byte, read) (h b)

read_u16-IsBounded :
    {outlen : ℕ} (bytes : Text) (off : ℕ) (k : ℕ → Sni)
    → off + 2 ≤ length bytes
    → ((n : ℕ) → IsBounded outlen (k n))
    → IsBounded outlen (read_u16 bytes off k)
unfolding read_u16
read_u16-IsBounded bytes off k inside h =
    read-IsBounded bytes off (λ hi. read bytes (off + 1) (λ lo. k (hi * 256 + lo))) (omega arith)
      (λ hi.
        read-IsBounded bytes (off + 1) (λ lo. k (hi * 256 + lo)) (omega arith)
          (λ lo. h (hi * 256 + lo)))

copy-IsBounded :
    (bytes : Text) (outlen off n : ℕ)
    → 0 < n
    → n < outlen
    → off + n ≤ length bytes
    → IsBounded outlen (copy bytes off n)
unfolding copy
copy-IsBounded bytes outlen off n some_bytes fits inside =
    let part : length (take n (drop off bytes)) ≡ n =
      length-take n (drop off bytes) (omega (arith, length-drop off bytes)) in
    elim (Bool-cases (ltb (length bytes) (off + n))) [
      | inl past ↦ absurd (ground (arith, past))
      | inr within ↦ rw within (name (omega (arith, part)) (omega (arith, part)))
    ]

server_name-IsBounded :
    (bytes : Text) (outlen off ext_len : ℕ)
    → off + ext_len ≤ length bytes
    → IsBounded outlen (server_name bytes outlen off ext_len)
unfolding server_name
server_name-IsBounded bytes outlen off ext_len inside = or_no_name (ltb ext_len 5) (λ long.
    read-IsBounded bytes (off + 2) _ (ground (arith, long)) (λ kind.
      or_no_name (not (kind == 0)) (λ host.
        read_u16-IsBounded bytes (off + 3) _ (ground (arith, long)) (λ n.
          or_no_name (n == 0 || leb outlen n || ltb ext_len (5 + n)) (λ good.
            copy-IsBounded bytes outlen (off + 5) n (ground (arith, good)) (ground (arith, good))
              (ground (arith, good)))))))

extensions-IsBounded :
    (fuel : ℕ) (bytes : Text) (outlen end off : ℕ)
    → end < fuel + off
    → off ≤ end
    → end ≤ length bytes
    → IsBounded outlen (extensions fuel bytes outlen end off)
unfolding extensions
extensions-IsBounded zero bytes outlen end off enough before inside = absurd (omega arith)
extensions-IsBounded (suc fuel) bytes outlen end off enough before inside =
    or_no_name (ltb end (off + 4)) (λ more.
      read_u16-IsBounded bytes off _ (ground (arith, more)) (λ kind.
        read_u16-IsBounded bytes (off + 2) _ (ground (arith, more)) (λ ext_len.
          or_no_name (ltb end (off + 4 + ext_len)) (λ within.
            if-IsBounded (kind == 0)
              (λ host.
                server_name-IsBounded bytes outlen (off + 4) ext_len (ground (arith, within)))
              (λ other.
                extensions-IsBounded fuel bytes outlen end (off + 4 + ext_len) (omega arith)
                  (ground (arith, within)) inside)))))

extensions_from-IsBounded :
    (bytes : Text) (outlen off : ℕ) → IsBounded outlen (extensions_from bytes outlen off)
unfolding extensions_from
extensions_from-IsBounded bytes outlen off = or_no_name (ltb (length bytes) (off + 2)) (λ long.
    read_u16-IsBounded bytes off _ (ground (arith, long)) (λ n.
      let end = if ltb (length bytes) (off + 2 + n) then length bytes else off + 2 + n in
      let short : end ≤ length bytes = ground arith in
      let filled : off + 2 ≤ end = ground (arith, long) in
      extensions-IsBounded (suc (length bytes)) bytes outlen end (off + 2) (omega arith) filled
        short))

compression_methods-IsBounded :
    (bytes : Text) (outlen off : ℕ) → IsBounded outlen (compression_methods bytes outlen off)
unfolding compression_methods
compression_methods-IsBounded bytes outlen off = or_no_name (ltb (length bytes) (off + 1)) (λ long.
    read-IsBounded bytes off _ (ground (arith, long))
      (λ n. extensions_from-IsBounded bytes outlen (off + 1 + n)))

cipher_suites-IsBounded :
    (bytes : Text) (outlen off : ℕ) → IsBounded outlen (cipher_suites bytes outlen off)
unfolding cipher_suites
cipher_suites-IsBounded bytes outlen off = or_no_name (ltb (length bytes) (off + 2)) (λ long.
    read_u16-IsBounded bytes off _ (ground (arith, long))
      (λ n. compression_methods-IsBounded bytes outlen (off + 2 + n)))

session_id-IsBounded :
    (bytes : Text) (outlen off : ℕ) → IsBounded outlen (session_id bytes outlen off)
unfolding session_id
session_id-IsBounded bytes outlen off = or_no_name (ltb (length bytes) (off + 1)) (λ long.
    read-IsBounded bytes off _ (ground (arith, long))
      (λ n. cipher_suites-IsBounded bytes outlen (off + 1 + n)))

-- Whatever bytes a packet has, no byte after the last one is read, the loop over the extensions comes
-- to its end, and a name that is found is not empty and fits into the buffer with a NUL after it.
pub kb_sni_extract-IsBounded :
    (bytes : Text) (outlen : ℕ) → IsBounded outlen (kb_sni_extract bytes outlen)
unfolding kb_sni_extract
kb_sni_extract-IsBounded bytes outlen = or_no_name (ltb (length bytes) 9) (λ long.
    read-IsBounded bytes 0 _ (ground (arith, long)) (λ record_type.
      or_no_name (not (record_type == 0x16)) (λ handshake.
        read-IsBounded bytes 5 _ (ground (arith, long)) (λ kind.
          or_no_name (not (kind == 0x01))
            (λ hello. session_id-IsBounded bytes outlen (5 + 4 + 2 + 32))))))
