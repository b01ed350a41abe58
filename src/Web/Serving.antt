-- ===== src/Web/Serving.antt =====
-- What a request to the server can do.
use kblocker.Base.{◌≡◌, ◌≢◌, refl, true, arith, Text, lit, text_eq_iff}
use kblocker.System.{Os, done, final}
use kblocker.System.Laws.{is_done, done-final}
use kblocker.Cli.{gpg_encrypt}
use kblocker.Http.{Web, Request, Response, KeyRequest}
use kblocker.Web.{
  Route, home, keys_page, unblock_page, script, status_api, keys_api, ciphertext_api, unblock_api,
  not_found, route, with_same_origin, handle_unblock, unblock_with,
}
use kblocker.Web.Keys.{
  handle_add_key_only, save_key, save_name, read_pgp_key_info, show_keys, start_encrypt,
  encrypt_shown_key, with_temp_key, with_fingerprint, handle_add_key,
}
use kblocker.Web.Ciphertexts.{send_cipher, send_by_key, send_for, handle_ciphertext_by_key}
use kblocker.Web.Server.{handle_status, serve_route, serve}

module _ (O : Os) where
  open O use {State}

  handle_status_done :
      (web : Web) (r : Request) (s : State) → is_done (handle_status O web r s) ≡ true
  unfolding handle_status
  handle_status_done web r s = ground arith

  handle_unblock_done :
      (web : Web) (r : Request) (s : State) → is_done (handle_unblock O web r s) ≡ true
  unfolding handle_unblock unblock_with
  handle_unblock_done web r s = ground arith

  read_pgp_key_info_done : (path : Text) (s : State) → is_done (read_pgp_key_info O path s) ≡ true
  unfolding read_pgp_key_info show_keys
  read_pgp_key_info_done path s = ground arith

  start_encrypt_done :
      (key path out : Text) (s : State) → is_done (start_encrypt O key path out s) ≡ true
  unfolding start_encrypt gpg_encrypt
  start_encrypt_done key path out s = ground arith

  encrypt_shown_key_done :
      (fp dest : Text) (s : State) → is_done (encrypt_shown_key O fp dest s) ≡ true
  unfolding encrypt_shown_key
  encrypt_shown_key_done fp dest s = grind (arith, start_encrypt_done)

  save_key_done :
      (web : Web) (req : KeyRequest) (fp : Text) (s : State)
      → is_done (save_key O web req fp s) ≡ true
  unfolding save_key save_name
  save_key_done web req fp s = grind (arith, encrypt_shown_key_done, read_pgp_key_info_done)

  handle_add_key_done :
      (web : Web) (r : Request) (s : State) → is_done (handle_add_key O web r s) ≡ true
  unfolding handle_add_key with_temp_key with_fingerprint show_keys
  handle_add_key_done web r s = grind (arith, save_key_done)

  send_cipher_done : (fp : Text) (s : State) → is_done (send_cipher O fp s) ≡ true
  unfolding send_cipher
  send_cipher_done fp s = ground arith

  send_by_key_done : (req : KeyRequest) (s : State) → is_done (send_by_key O req s) ≡ true
  unfolding send_by_key with_temp_key with_fingerprint show_keys
  send_by_key_done req s = grind (arith, send_cipher_done)

  handle_ciphertext_by_key_done :
      (web : Web) (r : Request) (s : State) → is_done (handle_ciphertext_by_key O web r s) ≡ true
  unfolding handle_ciphertext_by_key send_for
  handle_ciphertext_by_key_done web r s = grind (arith, send_by_key_done)

  serve_route_done :
      (web : Web) (p : Route) (r : Request) (s : State) → is_done (serve_route O web p r s) ≡ true
  unfolding serve_route handle_add_key_only
  serve_route_done web home r s = refl
  serve_route_done web keys_page r s = refl
  serve_route_done web unblock_page r s = refl
  serve_route_done web script r s = refl
  serve_route_done web status_api r s = handle_status_done web r s
  serve_route_done web keys_api r s = grind (arith, handle_add_key_done)
  serve_route_done web ciphertext_api r s = handle_ciphertext_by_key_done web r s
  serve_route_done web unblock_api r s = handle_unblock_done web r s
  serve_route_done web not_found r s = refl

  serve_done :
      (web : Web) (root : Text) (r : Request) (s : State) → is_done (serve O web root r s) ≡ true
  unfolding serve with_same_origin
  serve_done web root r s = ground (arith, serve_route_done web (route root r.path) r s)

  -- Every request is answered, whatever it asks and whatever the files, the kernel and gpg reply: no
  -- handler ends the program.
  pub serve_answers :
      (web : Web) (root : Text) (r : Request) (s : State)
      → (response : Response) × (serve O web root r s
          ≡ done response (final (serve O web root r s)))
  serve_answers web root r s = done-final (serve O web root r s) (serve_done web root r s)

  serve_route_reads :
      (web : Web) (p : Route) (r : Request) (s : State)
      → r.method ≢ lit "POST"
      → final (serve_route O web p r s) ≡ s
  unfolding serve_route handle_add_key_only handle_ciphertext_by_key handle_unblock handle_status
  serve_route_reads web home r s get = refl
  serve_route_reads web keys_page r s get = refl
  serve_route_reads web unblock_page r s get = refl
  serve_route_reads web script r s get = refl
  serve_route_reads web status_api r s get = ground arith
  serve_route_reads web keys_api r s get = ground (arith, get, text_eq_iff r.method (lit "POST"))
  serve_route_reads web ciphertext_api r s get =
      ground (arith, get, text_eq_iff r.method (lit "POST"))
  serve_route_reads web unblock_api r s get = ground (arith, get, text_eq_iff r.method (lit "POST"))
  serve_route_reads web not_found r s get = refl

  -- A request that is not a POST changes nothing.
  pub serve_reads :
      (web : Web) (root : Text) (r : Request) (s : State)
      → r.method ≢ lit "POST"
      → final (serve O web root r s) ≡ s
  unfolding serve with_same_origin
  serve_reads web root r s get = ground (arith, serve_route_reads web (route root r.path) r s get)
