-- ===== src/Kernel/Keys.antt =====
-- The key that the kernel shows is the one that ends the session, and it is shown once.
use kblocker.Base.{
  ℕ, ◌+◌, ◌*◌, ◌/◌, ◌%◌, ◌≤◌, ◌<◌, ◌≡◌, refl, ◌++◌, true, false, some, List, [], ◌∷◌, Text, lit,
  arith, text_eq, text_eq_iff, ◌∙◌, sym, trim_suffix, length, All,
}
use mathlib.Core.Path.{subst}
use kblocker.Kernel.{
  Kernel, success, Session, max_session_seconds, hex_digit, hex_val, hex_text, kb_hex_decode,
  parsed_key, check_key, generate_unload_key, place_key, enable_blocking, start_session,
  stop_session, disable_blocking,
}
use kblocker.Kernel.Attributes.{enabled_store, unblock_store, disable_store, unload_key_show}
use kblocker.Kernel.Runs.{Run}
use kblocker.Kernel.Locked.{IsKeyless, IsSameSession, Run-IsSameSession}

abbrev pub IsByte : ℕ → Type 0
IsByte b = b < 256

hex_val-hex_digit : (d : ℕ) → d < 16 → hex_val (hex_digit d) ≡ some d
hex_val-hex_digit d small = ground arith

-- The digits of a text of bytes are decoded to these bytes.
pub kb_hex_decode-hex_text : (bs : List ℕ) → All IsByte bs → kb_hex_decode (hex_text bs) ≡ some bs
unfolding kb_hex_decode hex_text
kb_hex_decode-hex_text [] small = refl
kb_hex_decode-hex_text (b ∷ bs) (b_small, small) = ground (
  arith,
  hex_val-hex_digit (b / 16) (omega arith),
  hex_val-hex_digit (b % 16) (omega arith),
  kb_hex_decode-hex_text bs small,
)

length-hex_text : (bs : List ℕ) → length (hex_text bs) ≡ 2 * length bs
unfolding hex_text
length-hex_text [] = refl
length-hex_text (b ∷ bs) = omega (arith, length-hex_text bs)

trim_suffix-newline : (s : Text) → trim_suffix (s ++ lit "\n") (lit "\n") ≡ s
unfolding trim_suffix text_eq lit
trim_suffix-newline [] = refl
trim_suffix-newline (c ∷ []) = ground arith
trim_suffix-newline (c ∷ d ∷ s) = ground (arith, trim_suffix-newline (d ∷ s))

-- A key: 16 bytes.
pub record IsKey (key : List ℕ) : Type 0 where
  pub of_bytes : All IsByte key
  pub has_16 : length key ≡ 16

parsed_key-hex_text : (key : List ℕ) → IsKey key → parsed_key (hex_text key ++ lit "\n") ≡ some key
unfolding parsed_key
parsed_key-hex_text key h = simp (
  arith,
  trim_suffix-newline (hex_text key),
  length-hex_text key,
  h.has_16,
  kb_hex_decode-hex_text key h.of_bytes,
)

module _ (K : Kernel) where
  open K use {sha256, parse_u64}

  check_key-hex_text :
      (key : List ℕ) (s : Session)
      → IsKey key
      → s.key_hash ≡ sha256 key
      → check_key K (hex_text key ++ lit "\n") s ≡ success
  unfolding check_key
  check_key-hex_text key s h same =
      ground (arith, parsed_key-hex_text key h, same, text_eq_iff (sha256 key) s.key_hash)

  -- The session that a write to `enabled` starts, and the first read of its key.
  pub record IsStarted (fresh : List ℕ) (n : ℕ) (s t : Session) : Type 0 where
    pub is_enabled : t.enabled ≡ true
    pub same_lock : t.pgp_active ≡ s.pgp_active
    pub same_now : t.now_boot ≡ s.now_boot
    pub has_expiry : t.expiry_boot ≡ s.now_boot + n
    pub has_hash : t.key_hash ≡ sha256 fresh
    pub not_restored : t.state_restored ≡ false
    pub shows_key : (unload_key_show K t).0 ≡ hex_text fresh ++ lit "\n"

  pub enabled_store-IsStarted :
      (fresh : List ℕ) (buf : Text) (n : ℕ) (s : Session)
      → s.enabled ≡ false
      → parse_u64 buf ≡ some n
      → 0 < n
      → n ≤ max_session_seconds
      → IsStarted fresh n s (enabled_store K fresh buf s).1
  unfolding enabled_store enable_blocking place_key generate_unload_key start_session
      unload_key_show
  enabled_store-IsStarted fresh buf n s off val pos fits = ground (arith, off, val, pos, fits)

  -- The session once its key has been read.
  abbrev pub taken : Session → Session
  taken s = (unload_key_show K s).1

  pub taken-now : (s : Session) → (taken s).now_boot ≡ s.now_boot
  unfolding unload_key_show
  taken-now s = ground arith

  pub taken-IsSameSession :
      (s : Session)
      → s.enabled ≡ true
      → s.pgp_active ≡ true
      → s.state_restored ≡ false
      → IsSameSession s (taken s) × ((taken s).pgp_key_consumed ≡ true)
  unfolding unload_key_show
  taken-IsSameSession s on locked unrestored = ground arith

  shows_encrypted :
      (t : Session)
      → t.pgp_active ≡ true
      → t.state_restored ≡ false
      → t.pgp_key_consumed ≡ true
      → (unload_key_show K t).0 ≡ lit "encrypted\n"
  unfolding unload_key_show
  shows_encrypted t locked unrestored consumed = ground arith

  -- Once the key of a PGP session has been read, no later read of `key` gives it again before the
  -- session's time is out, whatever was read and written meanwhile but for the right key.
  pub unload_key_show_once :
      (s t : Session)
      → s.enabled ≡ true
      → s.pgp_active ≡ true
      → s.state_restored ≡ false
      → Run K (IsKeyless K (taken s).key_hash) (taken s) t
      → t.now_boot < (taken s).expiry_boot
      → (unload_key_show K t).0 ≡ lit "encrypted\n"
  unload_key_show_once s t on locked unrestored r early =
      let (same, consumed) = taken-IsSameSession s on locked unrestored in
      let kept : IsSameSession (taken s) t =
        Run-IsSameSession K same.still_enabled same.still_locked r early in
      shows_encrypted t kept.still_locked (kept.same_restored ∙ same.same_restored ∙ unrestored)
        (kept.still_consumed consumed)

  -- A write of the text ends the session, to `disable` and to `unblock`.
  pub record IsEndedBy (text : Text) (fresh : List ℕ) (t : Session) : Type 0 where
    pub disable_accepts : (disable_store K fresh text t).0 ≡ success
    pub disable_ends : (disable_store K fresh text t).1.enabled ≡ false
    pub unblock_accepts : (unblock_store K text t).0 ≡ success
    pub unblock_ends : (unblock_store K text t).1.enabled ≡ false
    pub unblock_unlocks : (unblock_store K text t).1.allow_unload ≡ true

  hex_text-IsEndedBy :
      (key fresh : List ℕ) (t : Session)
      → IsKey key
      → t.key_hash ≡ sha256 key
      → IsEndedBy (hex_text key ++ lit "\n") fresh t
  unfolding disable_store unblock_store generate_unload_key disable_blocking stop_session
  hex_text-IsEndedBy key fresh t h same = ground (arith, check_key-hex_text key t h same)

  -- A PGP session that a write to `enabled` starts, and what `key` then shows.
  abbrev pub started : List ℕ → Text → Session → Session
  started fresh buf s = (enabled_store K fresh buf s).1

  -- The key that the first read gives ends the PGP session at any moment of its time, whatever was
  -- read and written meanwhile but for the right key: a write of it is accepted by `disable` and by
  -- `unblock`, blocking is off after either, and after `unblock` the module may be unloaded.
  pub unload_key_show-IsEndedBy :
      (fresh next : List ℕ) (buf : Text) (n : ℕ) (s t : Session)
      → IsKey fresh
      → s.enabled ≡ false
      → s.pgp_active ≡ true
      → parse_u64 buf ≡ some n
      → 0 < n
      → n ≤ max_session_seconds
      → Run K (IsKeyless K (taken (started fresh buf s)).key_hash) (taken (started fresh buf s)) t
      → t.now_boot < s.now_boot + n
      → IsEndedBy (unload_key_show K (started fresh buf s)).0 next t
  unload_key_show-IsEndedBy fresh next buf n s t is_key off armed val positive fits r early =
      let st : IsStarted fresh n s (started fresh buf s) =
        enabled_store-IsStarted fresh buf n s off val positive fits in
      let (same, consumed) =
        taken-IsSameSession (started fresh buf s) st.is_enabled (st.same_lock ∙ armed)
          st.not_restored in
      let kept : IsSameSession (taken (started fresh buf s)) t =
        Run-IsSameSession K same.still_enabled same.still_locked r
          (omega (arith, same.same_expiry, st.has_expiry)) in
      subst (λ text. IsEndedBy text next t) (sym st.shows_key)
        (hex_text-IsEndedBy fresh next t is_key (kept.same_hash ∙ same.same_hash ∙ st.has_hash))
