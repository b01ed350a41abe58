-- ===== src/Kernel/Hello/Extract.antt =====
-- The name that a ClientHello holds is the one that is found.
use mathlib.Core.List.{append_assoc}
use mathlib.Core.Path.{subst}
use kblocker.Base.{
  ℕ, zero, suc, ◌+◌, ◌/◌, ◌%◌, ◌≤◌, ◌<◌, ◌≡◌, refl, ◌∙◌, ◌==◌, false, List, [], ◌∷◌, ◌++◌, Text,
  arith, length, length-append, take, ltb, All, if◌then◌else◌,
}
use kblocker.Base.Parts.{At, At-length, At-shift}
use kblocker.Kernel.Hello.{
  name, read, server_name, extensions, extensions_from, session_id, kb_sni_extract,
}
use kblocker.Kernel.Hello.Wire.{
  vector8, vector16, extension, extension_bytes, name_extension, Hello, all_extensions,
  client_hello, IsOther, IsHello,
}
use kblocker.Kernel.Hello.Parts.{
  read_u16-At, session_id_lem, cipher_suites_lem, compression_methods_lem, server_name_lem,
  length-extension_bytes,
}

module _ (bytes : Text) where
  -- One round of the loop, at an extension.
  extensions_round :
      (fuel outlen end off kind : ℕ) (body tail : Text)
      → At bytes off (extension kind body ++ tail)
      → off + 4 + length body ≤ end
      → (extensions (suc fuel) bytes outlen end off ≡ (
          if kind == 0
          then server_name bytes outlen (off + 4) (length body)
          else extensions fuel bytes outlen end (off + 4 + length body)))
        × At bytes (off + 4) (body ++ tail)
        × At bytes (off + 4 + length body) tail
  unfolding extensions
  extensions_round fuel outlen end off kind body tail h fits =
      let at_length =
        At-shift bytes off (off + 2) ((kind / 256) ∷ (kind % 256) ∷ []) (vector16 body ++ tail) h
          refl in
      let more : ltb end (off + 4) ≡ false = ground arith in
      let within : ltb end (off + 4 + length body) ≡ false = ground arith in
      (
        rw more (
            read_u16-At bytes off kind (vector16 body ++ tail) _ h (
              read_u16-At bytes (off + 2) (length body) (body ++ tail) _ at_length
                (rw within refl))),
        At-shift bytes (off + 2) (off + 4) ((length body / 256) ∷ (length body % 256) ∷ [])
            (body ++ tail) at_length (omega arith),
        At-shift bytes off (off + 4 + length body) (extension kind body) tail h (omega arith),
      )

  extensions_lem :
      (fuel outlen end off : ℕ) (before : List (ℕ × Text)) (host tail : Text)
      → At bytes off (extension_bytes before ++ (name_extension host ++ tail))
      → off + length (extension_bytes before) + (9 + length host) ≤ end
      → length before < fuel
      → All IsOther before
      → 0 < length host
      → length host < outlen
      → extensions fuel bytes outlen end off ≡ name host
  extensions_lem zero outlen end off before host tail h fits enough others some_host short =
      absurd (omega arith)
  extensions_lem (suc fuel) outlen end off [] host tail h fits enough others some_host short =
      let body = vector16 (0 ∷ vector16 host) in
      let (round, at_body, at_tail) =
        extensions_round fuel outlen end off 0 body tail h (omega arith) in
      round
      ∙ server_name_lem bytes outlen (off + 4) (length body) host tail at_body (omega arith)
          some_host short
  extensions_lem (suc fuel) outlen end off ((kind, body) ∷ before) host tail h fits enough others
        some_host short =
      let last = name_extension host ++ tail in
      let here : At bytes off (extension kind body ++ (extension_bytes before ++ last)) =
        subst (At bytes off) (append_assoc (extension kind body) (extension_bytes before) last) h in
      let size = length-append (extension kind body) (extension_bytes before) in
      let (round, at_body, at_tail) =
        extensions_round fuel outlen end off kind body (extension_bytes before ++ last) here
          (omega (arith, size)) in
      let other : (kind == 0) ≡ false = ground (arith, others.0.0) in
      round
      ∙ rw other (
          extensions_lem fuel outlen end (off + 4 + length body) before host tail at_tail
            (omega (arith, size)) (omega arith) others.1 some_host short)

  extensions_from_lem :
      (outlen off : ℕ) (before : List (ℕ × Text)) (host : Text) (after : List (ℕ × Text))
      → At bytes off
          (vector16 (extension_bytes before ++ (name_extension host ++ extension_bytes after)))
      → All IsOther before
      → 0 < length host
      → length host < outlen
      → extensions_from bytes outlen off ≡ name host
  unfolding extensions_from
  extensions_from_lem outlen off before host after h others some_host short =
      let exts = extension_bytes before ++ (name_extension host ++ extension_bytes after) in
      let size = At-length bytes off (vector16 exts) h in
      let long : ltb (length bytes) (off + 2) ≡ false = ground (arith, size) in
      let last : (if ltb (length bytes) (off + 2 + length exts)
            then length bytes
            else off + 2 + length exts)
          ≡ length bytes =
        ground (arith, size) in
      let at_exts =
        At-shift bytes off (off + 2) ((length exts / 256) ∷ (length exts % 256) ∷ []) exts h refl in
      let sizes =
        length-append (extension_bytes before) (name_extension host ++ extension_bytes after) in
      let size_after = length-append (name_extension host) (extension_bytes after) in
      rw long (
        read_u16-At bytes off (length exts) exts _ h (
          rw last (
            extensions_lem (suc (length bytes)) outlen (length bytes) (off + 2) before host
              (extension_bytes after) at_exts (omega (arith, size, sizes, size_after))
              (omega (arith, size, sizes, length-extension_bytes before)) others some_host short)))

-- The name that a ClientHello holds is the one that is found, if it fits into the buffer with a NUL
-- after it, whatever the other vectors and extensions are.
pub kb_sni_extract-client_hello :
    (h : Hello) (outlen : ℕ)
    → IsHello h
    → length h.host < outlen
    → kb_sni_extract (client_hello h) outlen ≡ name h.host
unfolding kb_sni_extract read session_id
kb_sni_extract-client_hello h outlen w short =
    let bytes = client_hello h in
    let exts = vector16 (all_extensions h) in
    let at_front : At bytes 6 (
        h.front
        ++ (vector8 h.session ++ (vector16 h.ciphers ++ (vector8 h.compressions ++ exts)))) =
      record { front = take 6 bytes; whole = refl; place = refl } in
    let at_session = At-shift bytes 6 43 h.front _ at_front (omega (arith, w.of_front)) in
    let (sessions, at_ciphers) = session_id_lem bytes outlen 43 h.session _ at_session in
    let (ciphers, at_methods) = cipher_suites_lem bytes outlen _ h.ciphers _ at_ciphers in
    let (methods, at_exts) = compression_methods_lem bytes outlen _ h.compressions _ at_methods in
    let size = At-length bytes 43 _ at_session in
    let long : ltb (length bytes) 9 ≡ false = ground (arith, size) in
    rw long (
      sessions
      ∙ ciphers
      ∙ methods
      ∙ extensions_from_lem bytes outlen _ h.before h.host h.after at_exts w.of_before w.of_host
          short)
