-- ===== src/Core/Capabilities.antt =====
-- What each source can do, and the protection level derived from it:
-- server/src/envelock/core/capabilities.py. A frozenset is a list read by membership only.
pub mod Sets
pub mod Levels
use envelock.Prelude.{
  ℕ, String, Bool, true, false, not, ◌&&◌, ◌||◌, Option, none, some, List, [], ◌∷◌, ◌++◌, ◌==◌, any,
  all, keep, if◌then◌else◌,
}
use envelock.Core.{
  SourceMechanism, graph_api, gmail_api, admin_api, imap_idle, imap_poll, forward_ingest, journal,
  entra_logs, google_reports, client_sensor, imap_flags, cert_transparency, zone_file, rdap,
  dmarc_rua, threat_feed, ProtectionLevel, full, standard, limited,
}

pub data Capability : Type 0 where
  read_inbound read_outbound read_history modify_message read_flags : Capability
  read_signin_logs read_sessions read_device_fingerprint read_server_rules : Capability
  read_oauth_grants read_mfa_state observe_domain observe_dmarc : Capability

-- The position of a capability in the enum, by which two are compared.
unfoldable pub position : Capability → ℕ
position read_inbound = 0
position read_outbound = 1
position read_history = 2
position modify_message = 3
position read_flags = 4
position read_signin_logs = 5
position read_sessions = 6
position read_device_fingerprint = 7
position read_server_rules = 8
position read_oauth_grants = 9
position read_mfa_state = 10
position observe_domain = 11
position observe_dmarc = 12

-- `c in caps`
unfoldable pub has : Capability → List Capability → Bool
has c caps = any (λ d. position c == position d) caps

-- `required <= caps`
unfoldable pub covers : List Capability → List Capability → Bool
covers caps required = all (λ c. has c caps) required

-- `MECHANISM_CAPABILITIES`
unfoldable pub mechanism_capabilities : SourceMechanism → List Capability
mechanism_capabilities graph_api =
    read_inbound ∷ read_outbound ∷ read_history ∷ modify_message ∷ read_flags ∷ read_server_rules
    ∷ []
mechanism_capabilities gmail_api =
    read_inbound ∷ read_outbound ∷ read_history ∷ modify_message ∷ read_flags ∷ read_server_rules
    ∷ []
mechanism_capabilities admin_api =
    read_inbound ∷ read_outbound ∷ read_history ∷ modify_message ∷ read_flags ∷ []
mechanism_capabilities imap_idle =
    read_inbound ∷ read_outbound ∷ read_history ∷ modify_message ∷ read_flags ∷ []
mechanism_capabilities imap_poll = read_inbound ∷ read_outbound ∷ read_history ∷ read_flags ∷ []
mechanism_capabilities forward_ingest = read_inbound ∷ []
mechanism_capabilities journal = read_inbound ∷ read_outbound ∷ []
mechanism_capabilities entra_logs =
    read_signin_logs ∷ read_sessions ∷ read_mfa_state ∷ read_oauth_grants ∷ []
mechanism_capabilities google_reports =
    read_signin_logs ∷ read_sessions ∷ read_mfa_state ∷ read_oauth_grants ∷ []
mechanism_capabilities client_sensor = read_sessions ∷ read_device_fingerprint ∷ []
mechanism_capabilities imap_flags = read_flags ∷ []
mechanism_capabilities cert_transparency = observe_domain ∷ []
mechanism_capabilities zone_file = observe_domain ∷ []
mechanism_capabilities rdap = observe_domain ∷ []
mechanism_capabilities dmarc_rua = observe_dmarc ∷ []
mechanism_capabilities threat_feed = observe_domain ∷ []

-- `capabilities_for`
unfoldable pub capabilities_for : List SourceMechanism → List Capability
capabilities_for [] = []
capabilities_for (source ∷ sources) = mechanism_capabilities source ++ capabilities_for sources

-- `_FULL_REQUIREMENTS`, by the order of the values that `protection_advice` sorts by
abbrev pub full_requirements : List Capability
full_requirements =
    modify_message ∷ read_history ∷ read_inbound ∷ read_outbound ∷ read_server_rules ∷ read_sessions
    ∷ []

-- `_STANDARD_REQUIREMENTS`, in the same order
abbrev pub standard_requirements : List Capability
standard_requirements = modify_message ∷ read_inbound ∷ []

-- `protection_level`
unfoldable pub protection_level : List Capability → ProtectionLevel
protection_level caps =
    if covers caps full_requirements
    then full
    else if covers caps standard_requirements
    then standard
    else limited

-- What `protection_advice` returns, less the texts of each missing capability.
pub record Advice : Type 0 where
  pub level : ProtectionLevel
  pub is_max : Bool
  pub next_level : Option ProtectionLevel
  pub missing : List Capability

-- The branch below full: the next level, and what it still requires.
unfoldable pub advise : List Capability → ProtectionLevel → Advice
advise caps full = record { level = full; is_max = true; next_level = none; missing = [] }
advise caps standard = record {
  level = standard;
  is_max = false;
  next_level = some full;
  missing = keep (λ c. not (has c caps)) full_requirements;
}
advise caps limited = record {
  level = limited;
  is_max = false;
  next_level = some standard;
  missing = keep (λ c. not (has c caps)) standard_requirements;
}

-- `protection_advice`
unfoldable pub protection_advice : List SourceMechanism → Advice
protection_advice sources =
    let caps = capabilities_for sources in advise caps (protection_level caps)
