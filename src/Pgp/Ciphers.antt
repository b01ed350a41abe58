-- ===== src/Pgp/Ciphers.antt =====
-- What pgp-cipher prints, and when it prints nothing.
use mathlib.Core.Path.{subst}
use kblocker.Base.{
  ◌≡◌, refl, ◌⊎◌, inl, inr, Bool, true, ◌&&◌, List, [], ◌∷◌, arith, ◌∈◌, Text, has_prefix,
  Bool-cases,
}
use kblocker.System.{Os, Entry, Exec, ok, done, exit, Reply-cases}
use kblocker.Cli.{path_join, is_cipher_name, cipher_fp, pgp_enc_dir, requires_root}
use kblocker.Pgp.{print_first, do_pgp_cipher}

module _ (O : Os) where
  open O use {State, euid, read_file, stat, read_dir}

  -- The entry is a ciphertext that can be read, of a fingerprint that starts with `needle`.
  abbrev pub IsCipherOf : Text → State → Entry → Text → Type 0
  IsCipherOf needle s e text =
      (is_cipher_name e.name ≡ true)
      × (has_prefix (cipher_fp e.name) needle ≡ true)
      × (read_file s (path_join (pgp_enc_dir O s) e.name) ≡ ok text)

  -- The two ends of the search: a text that is found, or none.
  abbrev pub IsSearch : Text → List Entry → State → Exec State Text → Type 0
  IsSearch needle es s r =
      ((e : Entry) × (text : Text) × (e ∈ es) × IsCipherOf needle s e text × (r ≡ done text s))
      ⊎ ((r ≡ exit 1 s) × ((e : Entry) (text : Text) → e ∈ es → ¬ IsCipherOf needle s e text))

  IsSearch-cons :
      (needle : Text) (e : Entry) (es : List Entry) (s : State) (r : Exec State Text)
      → ((text : Text) → ¬ IsCipherOf needle s e text)
      → IsSearch needle es s r
      → IsSearch needle (e ∷ es) s r
  IsSearch-cons needle e es s r is_not (inl (f, text, m, is, p)) = inl (f, text, inr m, is, p)
  IsSearch-cons needle e es s r is_not (inr (p, none_there)) = inr (
    p,
    λ f text m. elim m [
      | inl same ↦ λ is. is_not text (subst (λ g. IsCipherOf needle s g text) same is)
      | inr m' ↦ none_there f text m'
    ],
  )

  print_first-IsSearch :
      (needle : Text) (es : List Entry) (s : State)
      → IsSearch needle es s (print_first O needle (pgp_enc_dir O s) es s)
  unfolding print_first
  print_first-IsSearch needle [] s = inr (refl, λ e text m. absurd m)
  print_first-IsSearch needle (e ∷ es) s =
      let dir = pgp_enc_dir O s in
      let rest = print_first O needle dir es s in
      let later = print_first-IsSearch needle es s in
      elim (Bool-cases (is_cipher_name e.name && has_prefix (cipher_fp e.name) needle)) [
        | inr p ↦
            subst (IsSearch needle (e ∷ es) s) (ground (arith, p))
              (IsSearch-cons needle e es s rest (λ text is. absurd (ground (arith, p, is))) later)
        | inl p ↦ elim (Reply-cases (read_file s (path_join dir e.name))) [
          | inl (x, q) ↦
              subst (IsSearch needle (e ∷ es) s) (ground (arith, p, q))
                (IsSearch-cons needle e es s rest (λ text is. absurd (ground (arith, q, is))) later)
          | inr (text, q) ↦
              inl
                (e, text, inl refl, (ground (arith, p), ground (arith, p), q), ground (arith, p, q))
        ]
      ]

  -- As root, and with a directory of ciphertexts that can be listed, `pgp-cipher` prints the
  -- ciphertext of a fingerprint that starts with its argument if there is one that can be read,
  -- and ends in status 1 if there is none; it changes nothing.
  pub do_pgp_cipher-IsSearch :
      (needle : Text) (args : List Text) (entries : List Entry) (s : State) (d : Bool)
      → euid s ≡ 0
      → stat s (pgp_enc_dir O s) ≡ ok d
      → read_dir s (pgp_enc_dir O s) ≡ ok entries
      → IsSearch needle entries s (do_pgp_cipher O (needle ∷ args) s)
  unfolding do_pgp_cipher requires_root
  do_pgp_cipher-IsSearch needle args entries s d root there listed =
      subst (IsSearch needle entries s) (ground (arith, root, there, listed))
        (print_first-IsSearch needle entries s)
