-- ===== src/Workers/Webhooks.antt =====
-- Outbound webhooks: server/src/envelock/workers/webhook_delivery.py, with the retry schedule of
-- server/src/envelock/governance/export.py. The URL parser, the resolver, the parser of addresses and
-- the HTTP client are parameters, in `World`; times are whole seconds, ids are numbers.
pub mod Guard
pub mod Queue
pub mod Retry
pub mod Counts
use Prim.Native.Char.{code}
use Prim.Native.String
use envelock.Prelude.{
  ℕ, String, Bool, true, false, not, ◌&&◌, ◌||◌, Option, none, some, List, [], ◌∷◌, ◌++◌, ◌==◌,
  str_eq, elem, is_empty, if◌then◌else◌, ltb, leb, keep, zero, suc, ◌+◌, ◌<◌,
}

-- What `urlparse` answers.
pub record ParsedUrl : Type 0 where
  pub scheme : String
  pub hostname : Option String

-- What `ipaddress` says of an address.
pub record Address : Type 0 where
  pub text : String
  pub is_loopback : Bool
  pub is_link_local : Bool
  pub is_private : Bool
  pub is_multicast : Bool
  pub is_reserved : Bool
  pub is_unspecified : Bool

-- What `client.post` does: answers with a status code, or raises.
pub data Response : Type 0 where
  status_code : ℕ → Response
  raises : String → Response

-- `get_settings()`, as far as the guard reads it
pub record Settings : Type 0 where
  pub development : Bool
  pub webhook_allow_private_hosts : Bool

-- What is outside the program. `resolve` is `getaddrinfo`, with the address part of each answer; it
-- answers `none` where `getaddrinfo` raises. `post url ip attempt` is the POST
-- to a URL at a pinned address.
pub record World : Type 0 where
  pub settings : Settings
  pub urlparse : String → ParsedUrl
  pub resolve : String → Option (List String)
  pub ip_address : String → Option Address
  pub post : String → Option String → ℕ → Response

-- What `assert_safe_url` does: raises one of two errors, or returns an address or `None`.
pub data Guarded : Type 0 where
  unsafe_url : String → Guarded
  unresolvable_url : String → Guarded
  allowed : Option String → Guarded

unfoldable pub is_forbidden : Address → Bool
is_forbidden ip =
    ip.is_loopback || ip.is_link_local || ip.is_private || ip.is_multicast || ip.is_reserved
    || ip.is_unspecified

-- `if chosen is None: chosen = str(ip)`
unfoldable pub choose : Option String → String → Option String
choose none text = some text
choose (some chosen) text = some chosen

-- The end of the loop.
unfoldable pub conclude : Option String → Guarded
conclude none = unresolvable_url "no usable address"
conclude (some chosen) = allowed (some chosen)

-- `text.split("%")[0]`
unfoldable pub before_zone : String → String
before_zone String.[] = String.[]
before_zone (String.◌∷◌ c s) =
    let rest = before_zone s in if code c == b'%' then String.[] else String.◌∷◌ c rest

-- The loop over the addresses of a name.
unfoldable pub scan : (String → Option Address) → Option String → List String → Guarded
scan ip_address chosen [] = conclude chosen
scan ip_address chosen (info ∷ infos) = elim (ip_address (before_zone info)) [
  | none ↦ scan ip_address chosen infos
  | some ip ↦
      if is_forbidden ip
      then unsafe_url "resolves to a private or reserved address"
      else scan ip_address (choose chosen ip.text) infos
]

unfoldable pub scan_answer : (String → Option Address) → Option (List String) → Guarded
scan_answer ip_address none = unresolvable_url "could not resolve the host right now"
scan_answer ip_address (some infos) = scan ip_address none infos

-- `not parsed.hostname`
unfoldable pub has_no_host : Option String → Bool
has_no_host none = true
has_no_host (some host) = str_eq host ""

abbrev pub host_of : Option String → String
host_of none = ""
host_of (some host) = host

-- `assert_safe_url`
unfoldable pub assert_safe_url : World → String → Guarded
assert_safe_url w url =
    let parsed = w.urlparse url in
    if not (elem parsed.scheme ("https" ∷ "http" ∷ []))
    then unsafe_url "a webhook URL must be http(s)"
    else if has_no_host parsed.hostname
    then unsafe_url "that URL has no host"
    else if not (str_eq parsed.scheme "https") && not w.settings.development
    then unsafe_url "a webhook URL must use https"
    else if w.settings.webhook_allow_private_hosts
    then allowed none
    else scan_answer w.ip_address (w.resolve (host_of parsed.hostname))
