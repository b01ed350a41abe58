-- ===== src/Web/Server.antt =====
-- The servers of cmd/kblockerctl: the pages and handlers behind one address, and the commands and the
-- daemon that listen on it. What serves the requests that come in is package net/http.
use kblocker.Base.{
  Bool, true, false, not, ◌&&◌, ◌||◌, Option, none, some, List, [], ◌∷◌, Text, lit, text_eq, split,
  cut, trim_space, if◌then◌else◌,
}
use kblocker.System.{Os, ok, err, eaddrinuse, Prog, ◌>>=◌, ret, quit, ask, act}
use kblocker.Cli.{sysfs, get_env_default}
use kblocker.Http.{
  Web, Request, Response, Field, flag, text, object, http_error, json_reply, page_reply,
}
use kblocker.Web.{
  Route, home, keys_page, unblock_page, script, status_api, keys_api, ciphertext_api, unblock_api,
  not_found, route, with_same_origin, default_web_addr, split_web_addr, web_options,
  current_web_addr, handle_unblock,
}
use kblocker.Web.Keys.{handle_add_key_only}
use kblocker.Web.Ciphertexts.{handle_ciphertext_by_key}

-- An assignment to a map, as a list of entries.
unfoldable pub set_entry : Text → Field → List (Text × Field) → List (Text × Field)
set_entry k v [] = (k, v) ∷ []
set_entry k v ((k', v') ∷ entries) =
    let rest = set_entry k v entries in if text_eq k' k then (k, v) ∷ entries else (k', v') ∷ rest

-- The lines of the kernel's `status`, each cut at its first colon.
unfoldable pub status_entries : List Text → List (Text × Field) → List (Text × Field)
status_entries [] entries = entries
status_entries (line ∷ lines) entries = elim (cut b':' line) [
  | none ↦ status_entries lines entries
  | some (k, v) ↦ status_entries lines (set_entry (trim_space k) (text (trim_space v)) entries)
]

-- One of the options is among the arguments, with a value.
unfoldable pub is_explicit : List Text → Bool
is_explicit [] = false
is_explicit (a ∷ []) = false
is_explicit (a ∷ v ∷ rest) =
    let others = is_explicit (v ∷ rest) in
    text_eq a (lit "--port") || text_eq a (lit "--bind") || others

-- What a command serves: the pages at an address, with one of them at "/".
pub record Serving : Type 0 where
  pub address : Text
  pub root : Text

module _ (O : Os) where
  open O use {State, read_file, listen}

  -- `handleAPISStatus`
  unfoldable pub handle_status : Web → Request → Prog State Response
  handle_status web r = if not (text_eq r.method (lit "GET")) then http_error 405 else (do
    reply ← ask (λ s. read_file s (sysfs (lit "status")))
    elim reply [
      | err _ ↦ json_reply web 200 (object ((lit "module_loaded", flag false) ∷ []))
      | ok raw ↦
          json_reply web 200
            (object (status_entries (split b'\n' raw) ((lit "module_loaded", flag true) ∷ [])))
    ])

  unfoldable pub serve_route : Web → Route → Request → Prog State Response
  serve_route web home r = page_reply web (lit "home")
  serve_route web keys_page r = page_reply web (lit "keys")
  serve_route web unblock_page r = page_reply web (lit "unblock")
  serve_route web script r = page_reply web (lit "openpgp")
  serve_route web status_api r = handle_status web r
  serve_route web keys_api r = handle_add_key_only O web r
  serve_route web ciphertext_api r = handle_ciphertext_by_key O web r
  serve_route web unblock_api r = handle_unblock O web r
  serve_route web not_found r = http_error 404

  -- withSameOrigin(newWebMux(root))
  unfoldable pub serve : Web → Text → Request → Prog State Response
  serve web root = with_same_origin web (λ r. serve_route web (route root r.path) r)

  unfoldable pub listen_pages : Web → List Text → Prog State (Text × Text)
  listen_pages web args = do
    saved ← current_web_addr O
    let (bind, port) = web_options (split_web_addr web saved) args
    reply ← act (listen (web.join_host_port bind port))
    elim reply [
      | ok address ↦ ret (address, bind)
      | err eaddrinuse ↦
          if not (is_explicit args) && not (text_eq saved (lit "off")) then quit 0 else quit 1
      | err _ ↦ quit 1
    ]

  -- Where the daemon serves the pages, if it does.
  unfoldable pub start_daemon_web : Prog State (Option Serving)
  start_daemon_web = do
    addr ← ask (λ s. get_env_default O s (lit "KBLOCKER_WEB") default_web_addr)
    if text_eq addr (lit "off") then ret none else (do
      reply ← act (listen addr)
      elim reply [
        | err _ ↦ ret none
        | ok address ↦ ret (some (record { address = address; root = [] }))
      ])

  -- The commands add-pgp-web and unblock-web.
  unfoldable pub do_web : Web → List Text → Prog State Serving
  do_web web args = do
    (address, bind) ← listen_pages web args
    ret (record { address = address; root = lit "keys" })

  unfoldable pub do_unblock_web : Web → List Text → Prog State Serving
  do_unblock_web web args = do
    (address, bind) ← listen_pages web args
    ret (record { address = address; root = lit "unblock" })
