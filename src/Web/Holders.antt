-- ===== src/Web/Holders.antt =====
-- The handlers of cmd/kblockerctl/main.go that remove a key file, show the key, and encrypt it again
-- for its holders. `newWebMux` routes no request to them.
use kblocker.Base.{
  ℕ, suc, Bool, false, not, ◌||◌, Option, none, some, List, [], ◌∷◌, ◌++◌, Text, lit, text_eq,
  is_empty, split, trim_prefix, if◌then◌else◌,
}
use kblocker.System.{Os, ok, err, Entry, Prog, ◌>>=◌, ◌>>◌, ret, ask, act_, is_ok}
use kblocker.Cli.{
  path_join, is_key_file, is_cipher_name, fp_from_filename, cipher_name, colon_field, pgp_key_dir,
  pgp_enc_dir, dir_entries, gpg_decrypt, read_key_from_sysfs,
}
use kblocker.Lock.Ciphers.{is_recipient}
use kblocker.Http.{Web, Request, Response, text, number, object, http_error, json_reply}
use kblocker.Web.Keys.{show_keys, start_encrypt}

-- A line of gpg whose tenth field is the fingerprint.
unfoldable pub has_fpr_line : Text → List Text → Bool
has_fpr_line fp [] = false
has_fpr_line fp (line ∷ lines) =
    let rest = has_fpr_line fp lines in
    elim (colon_field (lit "fpr") (split b':' line)) [ none ↦ rest | some f ↦ text_eq f fp || rest ]

module _ (O : Os) where
  open O use {State, stat, remove, mkdir_all}

  -- The loop of `handleKeyByFP`: the first key file for which gpg reports the fingerprint. A gpg that
  -- fails is taken to print nothing.
  unfoldable pub key_file_of : Text → List Entry → Prog State (Option Text)
  unfolding has_fpr_line
  key_file_of fp [] = ret none
  key_file_of fp (e ∷ es) =
      let rest = key_file_of fp es in
      if e.is_dir || not (is_key_file e.name) then rest else (do
        keys ← ask (pgp_key_dir O)
        reply ← show_keys O (path_join keys e.name)
        let out : Text = elim reply [ ok shown ↦ shown | err _ ↦ [] ]
        if has_fpr_line fp (split b'\n' out) then ret (some (path_join keys e.name)) else rest)

  -- The ciphertext, the key file and the name go.
  unfoldable pub remove_holder : Web → Text → Text → Prog State Response
  remove_holder web fp key_file = do
    keys ← ask (pgp_key_dir O)
    dir ← ask (pgp_enc_dir O)
    act_ (remove (path_join dir (cipher_name fp)))
    act_ (remove key_file)
    act_ (remove (path_join keys (fp ++ lit ".name")))
    json_reply web 200
        (object ((lit "status", text (lit "removed")) ∷ (lit "fingerprint", text fp) ∷ []))

  unfoldable pub remove_by_fp : Web → Text → Prog State Response
  remove_by_fp web fp = do
    keys ← ask (pgp_key_dir O)
    let key_file = path_join keys (fp ++ lit ".asc")
    there ← ask (λ s. stat s key_file)
    if is_ok there then remove_holder web fp key_file else (do
      entries ← ask (λ s. dir_entries O s keys)
      found ← key_file_of fp entries
      elim found [ none ↦ http_error 404 | some path ↦ remove_holder web fp path ])

  unfoldable pub handle_key_by_fp : Web → Request → Prog State Response
  handle_key_by_fp web r =
      let fp = trim_prefix r.path (lit "/api/keys/") in
      if is_empty fp
      then http_error 400
      else if not (text_eq r.method (lit "DELETE"))
      then http_error 405
      else remove_by_fp web fp

  -- The loop of `handleAPIKey`: the first text that gpg gives without an error, also an empty one.
  unfoldable pub shown_to_holder : Text → List Entry → Prog State Text
  shown_to_holder dir [] = ret []
  shown_to_holder dir (e ∷ es) =
      let rest = shown_to_holder dir es in
      if is_cipher_name e.name
      then (do
        reply ← gpg_decrypt O (path_join dir e.name)
        elim reply [ err _ ↦ rest | ok k ↦ ret k ])
      else rest

  unfoldable pub handle_api_key : Web → Request → Prog State Response
  handle_api_key web r = if not (text_eq r.method (lit "GET")) then http_error 405 else (do
    shown ← read_key_from_sysfs O
    dir ← ask (pgp_enc_dir O)
    entries ← ask (λ s. dir_entries O s dir)
    key ← (if is_empty shown then shown_to_holder dir entries else ret shown)
    json_reply web 200 (object ((lit "key", text key) ∷ [])))

  -- The loop of `handleAPIRefreshEnc`: how many encryptions started.
  unfoldable pub encrypt_again : Text → List Entry → Prog State ℕ
  encrypt_again hex_key [] = ret 0
  encrypt_again hex_key (e ∷ es) =
      let rest = encrypt_again hex_key es in
      if not (is_recipient e) then rest else (do
        keys ← ask (pgp_key_dir O)
        dir ← ask (pgp_enc_dir O)
        started ←
            start_encrypt O hex_key (path_join keys e.name)
              (path_join dir (cipher_name (fp_from_filename e.name)))
        count ← rest
        ret (if started then suc count else count))

  unfoldable pub handle_refresh_enc : Web → Request → Prog State Response
  handle_refresh_enc web r = if not (text_eq r.method (lit "POST")) then http_error 405 else (do
    hex_key ← read_key_from_sysfs O
    if is_empty hex_key then http_error 404 else (do
      dir ← ask (pgp_enc_dir O)
      act_ (mkdir_all dir)
      keys ← ask (pgp_key_dir O)
      entries ← ask (λ s. dir_entries O s keys)
      count ← encrypt_again hex_key entries
      json_reply web 200 (object ((lit "encrypted", number count) ∷ []))))
