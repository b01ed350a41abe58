-- ===== src/Web.antt =====
-- cmd/kblockerctl/web.go and the handlers of cmd/kblockerctl/main.go that end a block and hand out
-- ciphertexts. A handler is a program that returns its response; headers are left out.
pub mod Origin
pub mod Unblock
pub mod Keys
pub mod Holders
pub mod Ciphertexts
pub mod Server
pub mod Serving
use kblocker.Base.{
  ℕ, ◌==◌, Bool, true, false, not, ◌&&◌, ◌||◌, Option, none, some, List, [], ◌∷◌, ◌++◌, Text, lit,
  text_eq, is_empty, fields, has_prefix, trim_prefix, if◌then◌else◌,
}
use kblocker.Base.Int.{ℤ, pos, ltb_ℤ}
use kblocker.Numbers.{atoi}
use kblocker.System.{Os, Reply, ok, err, Prog, ◌>>=◌, ◌>>◌, ret, quit, ask, act, is_ok}
use kblocker.Cli.{sysfs, path_join, cipher_name, pgp_enc_dir, requires_root, module_loaded}
use kblocker.Http.{Web, Request, Response, http_error}
use kblocker.Reset.{web_drop_in, scheduler_unit}

unfoldable pub default_web_addr : Text
default_web_addr = lit "127.0.0.1:8737"

-- strings.Trim(s, "[]") at its front; the text is reversed for its back.
unfoldable pub drop_brackets : Text → Text
drop_brackets [] = []
drop_brackets (c ∷ s) = let rest = drop_brackets s in if c == b'[' || c == b']' then rest else c ∷ s

unfoldable pub backwards : Text → Text → Text
backwards acc [] = acc
backwards acc (c ∷ s) = backwards (c ∷ acc) s

unfoldable pub trim_brackets : Text → Text
trim_brackets s = backwards [] (drop_brackets (backwards [] (drop_brackets s)))

-- The host of a request without its port.
unfoldable pub host_name : Web → Text → Text
host_name web host = elim (web.split_host_port host) [ none ↦ host | some (name, port) ↦ name ]

unfoldable pub is_own_host : Web → Text → Bool
is_own_host web host =
    text_eq (host_name web host) (lit "localhost") || web.is_ip (trim_brackets (host_name web host))

unfoldable pub is_own_origin : Web → Request → Bool
is_own_origin web r =
    if is_empty r.origin
    then true
    else elim (web.url_host r.origin) [ none ↦ false | some h ↦ text_eq h r.host ]

unfoldable pub with_same_origin :
    {S : Type 0} → Web → (Request → Prog S Response) → Request → Prog S Response
with_same_origin web next r =
    if not (is_own_host web r.host)
    then http_error 421
    else if not (is_own_origin web r)
    then http_error 403
    else next r

-- The pages and handlers of `newWebMux`.
pub data Route : Type 0 where
  home keys_page unblock_page script status_api keys_api ciphertext_api unblock_api not_found :
      Route

-- What "/" shows.
unfoldable pub root_page : Text → Route
root_page root =
    if text_eq root (lit "keys")
    then keys_page
    else if text_eq root (lit "unblock")
    then unblock_page
    else home

-- http.ServeMux: the pattern that is the path, and "/" for all others.
unfoldable pub route : Text → Text → Route
route root path =
    if text_eq path (lit "/keys")
    then keys_page
    else if text_eq path (lit "/unblock")
    then unblock_page
    else if text_eq path (lit "/openpgp.min.js")
    then script
    else if text_eq path (lit "/api/status")
    then status_api
    else if text_eq path (lit "/api/keys")
    then keys_api
    else if text_eq path (lit "/api/ciphertext-by-key")
    then ciphertext_api
    else if text_eq path (lit "/api/unblock")
    then unblock_api
    else if text_eq path (lit "/")
    then root_page root
    else not_found

-- `splitWebAddr`; the fallback splits the default address.
unfoldable pub split_web_addr : Web → Text → Text × Text
split_web_addr web addr = elim (web.split_host_port addr) [
  | some parts ↦ parts
  | none ↦ elim (web.split_host_port default_web_addr) [ some parts ↦ parts | none ↦ ([], []) ]
]

-- The values of --bind and --port; the last of each counts.
unfoldable pub web_options : Text × Text → List Text → Text × Text
web_options o [] = o
web_options o (a ∷ []) = o
web_options (bind, port) (a ∷ v ∷ rest) =
    if text_eq a (lit "--port")
    then web_options (bind, v) rest
    else if text_eq a (lit "--bind")
    then web_options (v, port) rest
    else web_options (bind, port) (v ∷ rest)

unfoldable pub is_port : Text → Bool
is_port port = elim (atoi port) [
  | none ↦ false
  | some n ↦ not (ltb_ℤ n (pos 1)) && not (ltb_ℤ (pos 65535) n)
]

-- The address for off, local, lan or custom; `none` is an error.
unfoldable pub web_address : Web → Text → Text → Text → Option Text
web_address web mode bind port =
    if text_eq mode (lit "off")
    then some (lit "off")
    else if text_eq mode (lit "local")
    then some (web.join_host_port (lit "127.0.0.1") port)
    else if text_eq mode (lit "lan")
    then some (web.join_host_port (lit "0.0.0.0") port)
    else if text_eq mode (lit "custom")
    then (if web.is_ip bind then some (web.join_host_port bind port) else none)
    else none

unfoldable pub drop_in_text : Text → Text
drop_in_text addr =
    lit "# Written by kblockerctl web-pages"
    ++ (b'\n' ∷ lit "[Service]"
        ++ (b'\n' ∷ lit "Environment=KBLOCKER_WEB=" ++ (addr ++ (b'\n' ∷ []))))

module _ (O : Os) where
  open O use {State, read_file, write_file, mkdir_all, run}

  -- The value of the first KBLOCKER_WEB= in the environment of the service.
  unfoldable pub web_variable : List Text → Text
  web_variable [] = default_web_addr
  web_variable (kv ∷ kvs) =
      let rest = web_variable kvs in
      if has_prefix kv (lit "KBLOCKER_WEB=") then trim_prefix kv (lit "KBLOCKER_WEB=") else rest

  unfoldable pub current_web_addr : Prog State Text
  current_web_addr = do
    reply ← act (
        run
          (lit "systemctl"
            ∷ lit "show"
            ∷ lit "--property=Environment"
            ∷ lit "--value"
            ∷ scheduler_unit
            ∷ [])
          [])
    elim reply [ err _ ↦ ret default_web_addr | ok out ↦ ret (web_variable (fields out)) ]

  -- Each step ends the program if it fails.
  unfoldable pub or_exit : (State → Reply (Unit {0}) × State) → Prog State (Unit {0})
  or_exit f = act f >>= λ reply. if is_ok reply then ret tt else quit 1

  unfoldable pub run_or_exit : List Text → Prog State (Unit {0})
  run_or_exit args = act (run args []) >>= λ reply. if is_ok reply then ret tt else quit 1

  unfoldable pub save_web_addr : Text → Prog State (Unit {0})
  save_web_addr addr = do
    requires_root O
    or_exit (mkdir_all (lit "/etc/systemd/system/kblocker-scheduler.service.d"))
    or_exit (write_file web_drop_in (drop_in_text addr))
    run_or_exit (lit "systemctl" ∷ lit "daemon-reload" ∷ [])
    run_or_exit (lit "systemctl" ∷ lit "try-restart" ∷ scheduler_unit ∷ [])

  unfoldable pub do_web_pages : Web → List Text → Prog State (Unit {0})
  do_web_pages web [] = current_web_addr >>= λ addr. ret tt
  do_web_pages web (mode ∷ args) = do
    addr ← current_web_addr
    let (bind, port) = web_options ([], (split_web_addr web addr).1) args
    if not (is_port port)
        then quit 1
        else elim (web_address web mode bind port) [ none ↦ quit 1 | some new ↦ save_web_addr new ]

  -- `handleAPICiphertext`
  unfoldable pub handle_ciphertext : Request → Prog State Response
  handle_ciphertext r =
      let fp = trim_prefix r.path (lit "/api/ciphertext/") in
      if not (text_eq r.method (lit "GET"))
      then http_error 405
      else if is_empty fp
      then http_error 400
      else (do
        reply ← ask (λ s. read_file s (path_join (pgp_enc_dir O s) (cipher_name fp)))
        elim reply [
          | err _ ↦ http_error 404
          | ok text ↦ ret (record { status = 200; content = text })
        ])

  -- `handleAPIUnblock` once the request holds a key.
  unfoldable pub unblock_with : Text → Prog State Response
  unblock_with key = do
    loaded ← ask (module_loaded O)
    if not loaded then http_error 404 else (do
      reply ← act (write_file (sysfs (lit "disable")) key)
      elim reply [
        | err _ ↦ http_error 403
        | ok _ ↦ ret (record { status = 200; content = lit "Blocking disabled." })
      ])

  unfoldable pub handle_unblock : Web → Request → Prog State Response
  handle_unblock web r =
      if not (text_eq r.method (lit "POST"))
      then http_error 405
      else elim (web.request_key r.body) [
        | none ↦ http_error 400
        | some key ↦ if is_empty key then http_error 400 else unblock_with key
      ]
