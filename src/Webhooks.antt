-- ===== src/Webhooks.antt =====
-- Webhooks: the signatures and deliveries of backend/app/services/integration/webhook_dispatcher.py.
-- Instants are seconds. What the network does is a function of the request and its instant.
pub mod Signatures
pub mod Delivery
pub mod Timing
mod Examples
use Prim.Native.Char.{Char, code}
use trust_shield.Base.{
  ℕ, zero, suc, String, Option, none, some, Bool, true, false, not, ◌&&◌, List, [], ◌∷◌, ◌++◌, ◌+◌,
  ◌-◌, ◌^◌, ◌==◌, ◌=s=◌, ◌<>◌, if◌then◌else◌, ltb, ◌>>=◌, min, any, map, select,
}

-- The libraries: the HMAC of a key and a text in hexadecimal, the text of a number, and `int` of a
-- text, where a negative number, which is never within the tolerance, is `none` as well.
pub record WebhookLibrary : Type 0 where
  pub hmac_sha256 : String → String → String
  pub str_int : ℕ → String
  pub int_of : String → Option ℕ

-- A subscription; `event_types` is the list that its column holds as JSON.
pub record Subscription : Type 0 where
  pub id : ℕ
  pub tenant_id : String
  pub url : String
  pub event_types : List String
  pub secret : String
  pub is_active : Bool

abbrev pub max_retries : ℕ
max_retries = 8

abbrev pub replay_tolerance_seconds : ℕ
replay_tolerance_seconds = 300

-- `abs(a - b)`
abbrev pub distance : ℕ → ℕ → ℕ
distance a b = (a - b) + (b - a)

abbrev pub cons_first : Char → List String → List String
cons_first c [] = String.◌∷◌ c "" ∷ []
cons_first c (s ∷ ss) = String.◌∷◌ c s ∷ ss

-- `s.split(sep)`
unfoldable pub split : ℕ → String → List String
split sep String.[] = "" ∷ []
split sep (String.◌∷◌ c s) =
    let rest = split sep s in if code c == sep then "" ∷ rest else cons_first c rest

abbrev pub cons_key : Char → Option (String × String) → Option (String × String)
cons_key c none = none
cons_key c (some (k, v)) = some (String.◌∷◌ c k, v)

-- `s.split(sep, 1)`, where it has two parts
unfoldable pub split_once : ℕ → String → Option (String × String)
split_once sep String.[] = none
split_once sep (String.◌∷◌ c s) =
    let rest = split_once sep s in if code c == sep then some ("", s) else cons_key c rest

-- `dict(item.split("=", 1) for item in items)`, which raises where an item has no `=`
unfoldable pub read_items : List String → Option (List (String × String))
read_items [] = some []
read_items (s ∷ ss) = elim (split_once b'=' s) [
  | none ↦ none
  | some p ↦ elim (read_items ss) [ none ↦ none | some ps ↦ some (p ∷ ps) ]
]

-- The value of a key in such a dictionary: its last one.
unfoldable pub value_of : String → List (String × String) → Option String
value_of k [] = none
value_of k ((a, v) ∷ ps) = elim (value_of k ps) [
  | some w ↦ some w
  | none ↦ if a =s= k then some v else none
]

unfoldable pub is_ascii : String → Bool
is_ascii String.[] = true
is_ascii (String.◌∷◌ c s) = ltb (code c) 128 && is_ascii s

-- `hmac.compare_digest` of texts, which raises (`none`) unless both are ASCII.
unfoldable pub compare_digest : String → String → Option Bool
compare_digest a b = if is_ascii a && is_ascii b then some (a =s= b) else none

module _ (lib : WebhookLibrary) where
  abbrev pub mac_of : String → String → ℕ → String
  mac_of secret payload timestamp =
      lib.hmac_sha256 secret ("t=" <> lib.str_int timestamp <> "|" <> payload)

  unfoldable pub compute_signature : String → String → ℕ → String
  compute_signature secret payload timestamp = "v1=" <> mac_of secret payload timestamp

  unfoldable pub build_signature_header : String → String → ℕ → String
  build_signature_header secret payload timestamp =
      "t=" <> lib.str_int timestamp <> "," <> compute_signature secret payload timestamp

  -- The `t` and `v1` of a header; `none` where reading them raises `ValueError` or `KeyError`.
  unfoldable pub read_header : String → Option (ℕ × String)
  read_header header = do
    parts ← read_items (split b',' header)
    text ← value_of "t" parts
    timestamp ← lib.int_of text
    received ← value_of "v1" parts
    some (timestamp, received)

  -- `verify_signature` at an instant; `none` where it raises.
  unfoldable pub verify_signature : ℕ → String → String → String → Option Bool
  verify_signature now secret body header = elim (read_header header) [
    | none ↦ some false
    | some (timestamp, received) ↦
        if ltb replay_tolerance_seconds (distance now timestamp)
        then some false
        else elim (split_once b'=' (compute_signature secret body timestamp)) [
          | none ↦ none
          | some (k, expected) ↦ compare_digest received expected
        ]
  ]

-- What a `POST` ends in: a response with its status, or an exception.
pub data Reply : Type 0 where
  answered : ℕ → Reply
  raised : Reply

-- The network: the end of a request to a URL with a body and a signature at an instant, and how long
-- that takes.
pub record Network : Type 0 where
  pub post : String → String → String → ℕ → Reply × ℕ

-- A request that was made, and its end.
pub record Request : Type 0 where
  pub to : Subscription
  pub signature : String
  pub at : ℕ
  pub reply : Reply

-- What the attempts for one subscription came to: whether one succeeded, the instant, the requests.
pub record Tried : Type 0 where
  pub success : Bool
  pub clock : ℕ
  pub requests : List Request

-- `response.status_code < 300`
unfoldable pub is_delivered : Reply → Bool
is_delivered (answered status) = ltb status 300
is_delivered raised = false

unfoldable pub backoff : ℕ → ℕ
backoff attempt = min (2 ^ (attempt - 1)) 128

-- `await asyncio.sleep(backoff)`, but not behind the last attempt
unfoldable pub pause : ℕ → ℕ
pause attempt = if ltb attempt max_retries then backoff attempt else 0

-- The attempts, of which `left` are left and the next is number `attempt`.
unfoldable pub try_posts : Network → String → Subscription → String → (left attempt now : ℕ) → Tried
try_posts net payload sub header zero attempt now = record {
  success = false;
  clock = now;
  requests = [];
}
try_posts net payload sub header (suc left) attempt now =
    let (reply, took) = net.post sub.url payload header now in
    let made : Request = record { to = sub; signature = header; at = now; reply = reply } in
    let rest = try_posts net payload sub header left (attempt + 1) (now + took + pause attempt) in
    if is_delivered reply
    then record { success = true; clock = now + took; requests = made ∷ [] }
    else record rest { requests = made ∷ rest.requests }

-- `sub.is_active = False`, of the row with the key
unfoldable pub disable : ℕ → Subscription → Subscription
disable k s = if s.id == k then record s { is_active = false } else s

-- The rows, the instant and the requests of a dispatch.
pub record Dispatch : Type 0 where
  pub rows : List Subscription
  pub clock : ℕ
  pub requests : List Request

abbrev pub wants : String → Subscription → Bool
wants event s = any (λ e. e =s= event) s.event_types

module _ (lib : WebhookLibrary) (net : Network) (event payload : String) (timestamp : ℕ) where
  unfoldable pub deliver : Subscription → ℕ → Tried
  deliver sub now =
      try_posts net payload sub (build_signature_header lib sub.secret payload timestamp)
        max_retries 1 now

  -- One round of the loop over the subscriptions.
  unfoldable pub serve : Subscription → Dispatch → Dispatch
  serve sub d =
      if not (wants event sub)
      then d
      else let tried = deliver sub d.clock in
        record {
          rows = if tried.success then d.rows else map (disable sub.id) d.rows;
          clock = tried.clock;
          requests = d.requests ++ tried.requests;
        }

  unfoldable pub serve_all : List Subscription → Dispatch → Dispatch
  serve_all [] d = d
  serve_all (sub ∷ subs) d = serve_all subs (serve sub d)

abbrev pub is_selected : String → Subscription → Bool
is_selected tenant s = (s.tenant_id =s= tenant) && s.is_active

-- `dispatch_event` at an instant, with the table of subscriptions.
unfoldable pub dispatch_event :
    WebhookLibrary → Network → String → String → String → ℕ → List Subscription → Dispatch
dispatch_event lib net tenant event payload now table =
    serve_all lib net event payload now (select (is_selected tenant) table)
      (record { rows = table; clock = now; requests = [] })
