-- ===== src/Web/Ciphertexts.antt =====
-- `handleAPICiphertextByKey` of cmd/kblockerctl/main.go: the ciphertext for the holder of a key.
use kblocker.Base.{
  not, ◌-◌, ◌&&◌, ◌||◌, none, some, List, [], ◌∷◌, ◌++◌, Text, lit, text_eq, is_empty, leb,
  if◌then◌else◌,
}
use kblocker.System.{Os, Reply, ok, err, Entry, Prog, ◌>>=◌, ret, ask}
use kblocker.Cli.{
  path_join, is_fingerprint, cipher_name, is_cipher_name, cipher_fp, pgp_enc_dir, dir_entries,
}
use kblocker.Http.{Web, Request, Response, KeyRequest, http_error}
use kblocker.Web.Keys.{with_temp_key, with_fingerprint}

-- strings.ToUpper on ASCII texts
unfoldable pub to_upper : Text → Text
to_upper [] = []
to_upper (c ∷ s) = (if leb b'a' c && leb c b'z' then c - 32 else c) ∷ to_upper s

-- The fingerprints that there are ciphertexts for, after those found so far.
unfoldable pub available : Text → List Entry → Text
available avail [] = avail
available avail (e ∷ es) =
    if is_cipher_name e.name
    then available
        (if is_empty avail then cipher_fp e.name else avail ++ (lit ", " ++ cipher_fp e.name)) es
    else available avail es

-- The answer when there is no ciphertext, which names those that there are.
unfoldable pub no_cipher_text : Text → List Entry → Text
no_cipher_text fp entries =
    let avail = available [] entries in
    lit "No ciphertext found for this key (looked for "
    ++ (fp ++ (if is_empty avail then lit ")\n" else lit "; available: " ++ (avail ++ lit ")\n")))

module _ (O : Os) where
  open O use {State, read_file}

  unfoldable pub read_cipher : Text → State → Reply Text
  read_cipher fp s = read_file s (path_join (pgp_enc_dir O s) (cipher_name fp))

  -- By the fingerprint that gpg has reported.
  unfoldable pub send_cipher : Text → Prog State Response
  send_cipher fp = do
    reply ← ask (read_cipher fp)
    elim reply [
      | ok text ↦ ret (record { status = 200; content = text })
      | err _ ↦ (do
        entries ← ask (λ s. dir_entries O s (pgp_enc_dir O s))
        ret (record { status = 404; content = no_cipher_text fp entries }))
    ]

  unfoldable pub send_by_key : KeyRequest → Prog State Response
  send_by_key req =
      with_temp_key O (lit "kblocker-unlock-*.asc") req.public_key
        (λ written path. with_fingerprint O path send_cipher)

  -- By the fingerprint of the request, if there is such a file, and by its key if not.
  unfoldable pub send_for : KeyRequest → Prog State Response
  send_for req =
      let fp = to_upper req.fingerprint in
      if is_empty req.fingerprint || not (is_fingerprint fp) then send_by_key req else (do
        reply ← ask (read_cipher fp)
        elim reply [
          | ok text ↦ ret (record { status = 200; content = text })
          | err _ ↦ send_by_key req
        ])

  unfoldable pub handle_ciphertext_by_key : Web → Request → Prog State Response
  handle_ciphertext_by_key web r =
      if not (text_eq r.method (lit "POST"))
      then http_error 405
      else elim (web.key_request r.body) [
        | none ↦ http_error 400
        | some req ↦ if is_empty req.public_key then http_error 400 else send_for req
      ]
