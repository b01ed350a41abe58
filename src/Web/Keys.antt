-- ===== src/Web/Keys.antt =====
-- The handlers of cmd/kblockerctl/main.go that list the key files and take a new one.
use kblocker.Base.{
  ◌==◌, Bool, true, false, not, ◌&&◌, ◌||◌, Option, none, some, List, [], ◌∷◌, ◌++◌, Text, lit,
  text_eq, is_empty, split, trim_space, length, if◌then◌else◌,
}
use kblocker.System.{Os, Reply, ok, err, Entry, Prog, ◌>>=◌, ◌>>◌, ret, ask, act, act_, is_ok}
use kblocker.Cli.{
  newline, path_join, is_key_file, is_fingerprint, cipher_name, first_colon_field, pgp_key_dir,
  pgp_enc_dir, module_loaded, gpg_encrypt, dir_entries,
}
use kblocker.Pgp.{pgp_key_name}
use kblocker.Http.{
  Web, Request, Response, KeyRequest, KeyEntry, text, object, key_entry, key_entries, http_error,
  json_reply,
}

-- The first fingerprint in the output of gpg that is not empty.
unfoldable pub shown_fp : Text → Text
shown_fp out = first_colon_field (lit "fpr") (split b'\n' out)

module _ (O : Os) where
  open O use {
    State, has_program, stat, read_key, write_file, remove, mkdir_all, chmod, create_temp, run,
  }

  unfoldable pub show_keys : Text → Prog State (Reply Text)
  show_keys path = act (run (lit "gpg" ∷ lit "--with-colons" ∷ lit "--show-keys" ∷ path ∷ []) [])

  -- `readPGPKeyInfo`; `none` is an error.
  unfoldable pub read_pgp_key_info : Text → Prog State (Option KeyEntry)
  unfolding shown_fp show_keys
  read_pgp_key_info path = do
    reply ← show_keys path
    elim reply [
      | err _ ↦ ret none
      | ok out ↦ ask (λ s.
          let fp = shown_fp out in
          let has_cipher =
            not (is_empty fp) && is_ok (stat s (path_join (pgp_enc_dir O s) (cipher_name fp))) in
          some (record {
            fingerprint = fp;
            name = pgp_key_name O s fp;
            user = first_colon_field (lit "uid") (split b'\n' out);
            encrypted = if has_cipher then lit "yes" else lit "no";
          }))
    ]

  -- The loop of `listKeys`.
  unfoldable pub key_infos : List Entry → Prog State (List KeyEntry)
  key_infos [] = ret []
  key_infos (e ∷ es) =
      let rest = key_infos es in
      if e.is_dir || not (is_key_file e.name) then rest else (do
        keys ← ask (pgp_key_dir O)
        info ← read_pgp_key_info (path_join keys e.name)
        elim info [
          | none ↦ rest
          | some entry ↦
              if is_empty entry.fingerprint then rest else (do others ← rest; ret (entry ∷ others))
        ])

  -- `listKeys`
  unfoldable pub handle_list_keys : Web → Prog State Response
  handle_list_keys web = do
    keys ← ask (pgp_key_dir O)
    act_ (mkdir_all keys)
    entries ← ask (λ s. dir_entries O s keys)
    infos ← key_infos entries
    json_reply web 200 (key_entries infos)

  -- The part of `addKey` and `handleAPIRefreshEnc` that runs gpg: whether it started. Start fails
  -- if there is no gpg; how it ends is not looked at.
  unfoldable pub start_encrypt : Text → Text → Text → Prog State Bool
  start_encrypt hex_key recipient out_path = do
    found ← ask (λ s. has_program s (lit "gpg"))
    if not found
        then ret false
        else (do _ ← gpg_encrypt O hex_key recipient out_path; act_ (chmod out_path); ret true)

  -- The kernel's key, if it shows one of 32 digits, is encrypted for the new holder.
  unfoldable pub encrypt_shown_key : Text → Text → Prog State (Unit {0})
  encrypt_shown_key fp dest = do
    reply ← act read_key
    loaded ← ask (module_loaded O)
    let key : Text = elim reply [ ok raw ↦ trim_space raw | err _ ↦ [] ]
    let is_shown =
        not (is_empty key)
        && not (text_eq key (lit "encrypted"))
        && not (text_eq key (lit "restored"))
    if not (loaded && is_shown && length key == 32) then ret tt else (do
      dir ← ask (pgp_enc_dir O)
      act_ (mkdir_all dir)
      _ ← start_encrypt key dest (path_join dir (cipher_name fp))
      ret tt)

  unfoldable pub save_name : Text → Text → Prog State (Unit {0})
  save_name path name = if is_empty name then ret tt else act_ (write_file path (name ++ newline))

  -- `addKey` once gpg has reported a fingerprint.
  unfoldable pub save_key : Web → KeyRequest → Text → Prog State Response
  save_key web req fp = do
    keys ← ask (pgp_key_dir O)
    act_ (mkdir_all keys)
    let dest = path_join keys (fp ++ lit ".asc")
    there ← ask (λ s. stat s dest)
    if is_ok there
        then json_reply web 409 (
            object (
              (lit "error", text (lit "Key already registered"))
              ∷ (lit "fingerprint", text fp)
              ∷ []))
        else (do
          saved ← act (write_file dest req.public_key)
          if not (is_ok saved) then http_error 500 else (do
            save_name (path_join keys (fp ++ lit ".name")) req.name
            encrypt_shown_key fp dest
            info ← read_pgp_key_info dest
            json_reply web 201 (key_entry info)))

  -- What is done with a key once gpg has reported its fingerprint, in a file that is removed again.
  unfoldable pub with_temp_key :
      Text → Text → (Reply (Unit {0}) → Text → Prog State Response) → Prog State Response
  with_temp_key pattern public_key next = do
    made ← act (create_temp pattern)
    elim made [
      | err _ ↦ http_error 500
      | ok path ↦ (do
        written ← act (write_file path public_key)
        response ← next written path
        act_ (remove path)
        ret response)
    ]

  -- The fingerprint of a key file, by gpg, or status 400.
  unfoldable pub with_fingerprint : Text → (Text → Prog State Response) → Prog State Response
  with_fingerprint path next = do
    reply ← show_keys path
    elim reply [
      | err _ ↦ http_error 400
      | ok out ↦
          let fp = shown_fp out in
          if is_empty fp || not (is_fingerprint fp) then http_error 400 else next fp
    ]

  -- `addKey`
  unfoldable pub handle_add_key : Web → Request → Prog State Response
  handle_add_key web r = elim (web.key_request r.body) [
    | none ↦ http_error 400
    | some req ↦
        if is_empty req.public_key
        then http_error 400
        else with_temp_key (lit "kblocker-pgp-*.asc") req.public_key (λ written path.
          if not (is_ok written) then http_error 500 else with_fingerprint path (save_key web req))
  ]

  unfoldable pub handle_add_key_only : Web → Request → Prog State Response
  handle_add_key_only web r =
      if not (text_eq r.method (lit "POST")) then http_error 405 else handle_add_key web r

  unfoldable pub handle_keys : Web → Request → Prog State Response
  handle_keys web r =
      if text_eq r.method (lit "GET")
      then handle_list_keys web
      else if text_eq r.method (lit "POST")
      then handle_add_key web r
      else http_error 405
