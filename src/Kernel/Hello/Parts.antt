-- ===== src/Kernel/Hello/Parts.antt =====
-- The parts of a ClientHello are passed over, and its name is copied.
use kblocker.Base.{
  ℕ, ◌+◌, ◌*◌, ◌/◌, ◌%◌, ◌≤◌, ◌<◌, ◌≡◌, ◌||◌, leb, refl, ap, ◌∙◌, ◌==◌, false, List, [], ◌∷◌, ◌++◌,
  Text, arith, length, length-append, ltb,
}
use kblocker.Base.Parts.{At, At-get_elem?, At-drop, At-length, At-shift, take-append}
use kblocker.Kernel.Hello.{
  Sni, name, read, read_u16, copy, server_name, extensions_from, compression_methods, cipher_suites,
  session_id,
}
use kblocker.Kernel.Hello.Wire.{vector8, vector16, extension, extension_bytes}

pub length-extension_bytes : (es : List (ℕ × Text)) → length es ≤ length (extension_bytes es)
length-extension_bytes [] = omega arith
length-extension_bytes ((kind, body) ∷ es) =
    omega
      (arith, length-append (extension kind body) (extension_bytes es), length-extension_bytes es)

module _ (bytes : Text) where
  pub read-At :
      (off b : ℕ) (tail : Text) (k : ℕ → Sni) {r : Sni}
      → At bytes off (b ∷ tail)
      → k b ≡ r
      → read bytes off k ≡ r
  unfolding read
  read-At off b tail k h e = rw (At-get_elem? bytes off b tail h, read) e

  pub read_u16-At :
      (off n : ℕ) (tail : Text) (k : ℕ → Sni) {r : Sni}
      → At bytes off ((n / 256) ∷ (n % 256) ∷ tail)
      → k n ≡ r
      → read_u16 bytes off k ≡ r
  unfolding read_u16
  read_u16-At off n tail k h e =
      let low = At-shift bytes off (off + 1) ((n / 256) ∷ []) ((n % 256) ∷ tail) h refl in
      let value : n / 256 * 256 + n % 256 ≡ n = omega arith in
      read-At off (n / 256) ((n % 256) ∷ tail) _ h
        (read-At (off + 1) (n % 256) tail _ low (ap k value ∙ e))

  pub session_id_lem :
      (outlen off : ℕ) (t tail : Text)
      → At bytes off (vector8 t ++ tail)
      → (session_id bytes outlen off ≡ cipher_suites bytes outlen (off + 1 + length t))
        × At bytes (off + 1 + length t) tail
  unfolding session_id
  session_id_lem outlen off t tail h =
      let size = At-length bytes off (vector8 t ++ tail) h in
      let long : ltb (length bytes) (off + 1) ≡ false = ground (arith, size) in
      (
        rw long (read-At off (length t) (t ++ tail) _ h refl),
        At-shift bytes off (off + 1 + length t) (vector8 t) tail h (omega arith),
      )

  pub cipher_suites_lem :
      (outlen off : ℕ) (t tail : Text)
      → At bytes off (vector16 t ++ tail)
      → (cipher_suites bytes outlen off ≡ compression_methods bytes outlen (off + 2 + length t))
        × At bytes (off + 2 + length t) tail
  unfolding cipher_suites
  cipher_suites_lem outlen off t tail h =
      let size = At-length bytes off (vector16 t ++ tail) h in
      let long : ltb (length bytes) (off + 2) ≡ false = ground (arith, size) in
      (
        rw long (read_u16-At off (length t) (t ++ tail) _ h refl),
        At-shift bytes off (off + 2 + length t) (vector16 t) tail h (omega arith),
      )

  pub compression_methods_lem :
      (outlen off : ℕ) (t tail : Text)
      → At bytes off (vector8 t ++ tail)
      → (compression_methods bytes outlen off ≡ extensions_from bytes outlen (off + 1 + length t))
        × At bytes (off + 1 + length t) tail
  unfolding compression_methods
  compression_methods_lem outlen off t tail h =
      let size = At-length bytes off (vector8 t ++ tail) h in
      let long : ltb (length bytes) (off + 1) ≡ false = ground (arith, size) in
      (
        rw long (read-At off (length t) (t ++ tail) _ h refl),
        At-shift bytes off (off + 1 + length t) (vector8 t) tail h (omega arith),
      )

  copy_lem :
      (off : ℕ) (t tail : Text) → At bytes off (t ++ tail) → copy bytes off (length t) ≡ name t
  unfolding copy
  copy_lem off t tail h =
      let size = At-length bytes off (t ++ tail) h in
      let long : ltb (length bytes) (off + length t) ≡ false =
        ground (arith, size, length-append t tail) in
      rw (long, At-drop bytes off (t ++ tail) h, take-append t tail) refl

  pub server_name_lem :
      (outlen off ext_len : ℕ) (host tail : Text)
      → At bytes off (vector16 (0 ∷ vector16 host) ++ tail)
      → ext_len ≡ 5 + length host
      → 0 < length host
      → length host < outlen
      → server_name bytes outlen off ext_len ≡ name host
  unfolding server_name
  server_name_lem outlen off ext_len host tail h size some_host fits =
      let entry = length (0 ∷ vector16 host) in
      let at_kind =
        At-shift bytes off (off + 2) ((entry / 256) ∷ (entry % 256) ∷ [])
          (0 ∷ vector16 host ++ tail) h refl in
      let at_length =
        At-shift bytes (off + 2) (off + 3) (0 ∷ []) (vector16 host ++ tail) at_kind (omega arith) in
      let at_host =
        At-shift bytes (off + 3) (off + 5) ((length host / 256) ∷ (length host % 256) ∷ [])
          (host ++ tail) at_length (omega arith) in
      let long : ltb ext_len 5 ≡ false = ground (arith, size) in
      let good : (length host == 0 || leb outlen (length host) || ltb ext_len (5 + length host))
          ≡ false =
        ground (arith, size) in
      rw long (
        read-At (off + 2) 0 (vector16 host ++ tail) _ at_kind (
          read_u16-At (off + 3) (length host) (host ++ tail) _ at_length
            (rw good (copy_lem (off + 5) host tail at_host))))
