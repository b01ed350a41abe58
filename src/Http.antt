-- ===== src/Http.antt =====
-- What the web pages of cmd/kblockerctl take from packages net, net/http, url and json: requests,
-- responses, and the parameter `Web`.
use kblocker.Base.{ℕ, Bool, Option, List, [], Text}
use kblocker.System.{Prog, ret}

-- The struct of `addKey` and of `handleAPICiphertextByKey`, which has no name.
pub record KeyRequest : Type 0 where
  pub public_key : Text
  pub name : Text
  pub fingerprint : Text

-- `keyEntry`
pub record KeyEntry : Type 0 where
  pub fingerprint : Text
  pub name : Text
  pub user : Text
  pub encrypted : Text

-- The values that the handlers encode.
pub data Field : Type 0 where
  flag : Bool → Field
  text : Text → Field
  number : ℕ → Field

pub data Json : Type 0 where
  object : List (Text × Field) → Json
  key_entry : Option KeyEntry → Json
  key_entries : List KeyEntry → Json

pub record Web : Type 0 where
  -- net.SplitHostPort, net.JoinHostPort, and whether net.ParseIP accepts a text
  pub split_host_port : Text → Option (Text × Text)
  pub join_host_port : Text → Text → Text
  pub is_ip : Text → Bool
  -- the host of url.Parse
  pub url_host : Text → Option Text
  -- the field `key` of the JSON of a request to /api/unblock, and a request with a key file; a
  -- body that cannot be read is one that is no JSON
  pub request_key : Text → Option Text
  pub key_request : Text → Option KeyRequest
  -- json.Encoder
  pub to_json : Json → Text
  -- the text of a page, by its name
  pub page : Text → Text

pub record Request : Type 0 where
  pub method : Text
  pub path : Text
  pub host : Text
  pub origin : Text
  pub body : Text

pub record Response : Type 0 where
  pub status : ℕ
  pub content : Text

abbrev pub http_error : {S : Type 0} → ℕ → Prog S Response
http_error n = ret (record { status = n; content = [] })

-- An answer in JSON, and a page.
abbrev pub json_reply : {S : Type 0} → Web → ℕ → Json → Prog S Response
json_reply web n json = ret (record { status = n; content = web.to_json json })

abbrev pub page_reply : {S : Type 0} → Web → Text → Prog S Response
page_reply web name = ret (record { status = 200; content = web.page name })
