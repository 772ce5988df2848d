-- ===== src/Core/Capabilities/Levels.antt =====
-- The protection level: how it moves with the sources, and when it is full.
use envelock.Prelude.{
  ℕ, ◌≤◌, ◌≡◌, ◌↔◌, refl, ◌∙◌, Bool, true, false, not, some, List, [], ◌∷◌, ◌++◌, any, keep, arith,
}
use envelock.Core.{
  SourceMechanism, graph_api, gmail_api, entra_logs, google_reports, client_sensor, ProtectionLevel,
  full, standard, limited,
}
use envelock.Core.Capabilities.{
  Capability, position, has, covers, mechanism_capabilities, capabilities_for, protection_level,
  read_server_rules, read_sessions, modify_message, read_history, read_inbound, read_outbound,
  full_requirements, standard_requirements, advise, protection_advice,
}
use envelock.Core.Capabilities.Sets.{
  has-capabilities_for, any-congr, any_mono, covers-missing, Within, covers_mono,
  Within-append_left,
}

-- The levels, from the weakest.
abbrev pub rank : ProtectionLevel → ℕ
rank limited = 0
rank standard = 1
rank full = 2

level_mono :
    (xs ys : List Capability)
    → Within xs ys
    → rank (protection_level xs) ≤ rank (protection_level ys)
unfolding protection_level
level_mono xs ys w =
    ground (arith, covers_mono xs ys full_requirements w, covers_mono xs ys standard_requirements w)

Within-capabilities_for :
    (sources more : List SourceMechanism)
    → Within (capabilities_for sources) (capabilities_for (more ++ sources))
unfolding capabilities_for
Within-capabilities_for sources [] c h = h
Within-capabilities_for sources (s ∷ more) c h =
    Within-append_left (capabilities_for (more ++ sources)) (mechanism_capabilities s) c
      (Within-capabilities_for sources more c h)

-- A mailbox never loses protection by gaining sources, nor gains any by losing some.
pub protection_level_mono :
    (sources more : List SourceMechanism)
    → rank (protection_level (capabilities_for sources))
      ≤ rank (protection_level (capabilities_for (more ++ sources)))
protection_level_mono sources more =
    level_mono (capabilities_for sources) (capabilities_for (more ++ sources))
      (Within-capabilities_for sources more)

abbrev pub is_api : SourceMechanism → Bool
is_api graph_api = true
is_api gmail_api = true
is_api _ = false

abbrev pub sees_sessions : SourceMechanism → Bool
sees_sessions entra_logs = true
sees_sessions google_reports = true
sees_sessions client_sensor = true
sees_sessions _ = false

server_rules_table :
    (s : SourceMechanism) → has read_server_rules (mechanism_capabilities s) ≡ is_api s
unfolding has mechanism_capabilities position
server_rules_table graph_api = refl
server_rules_table _ = refl

sessions_table :
    (s : SourceMechanism) → has read_sessions (mechanism_capabilities s) ≡ sees_sessions s
unfolding has mechanism_capabilities position
sessions_table graph_api = refl
sessions_table _ = refl

-- The capabilities of a direct API connection, the sessions aside.
abbrev api_grants : List Capability
api_grants = mechanism_capabilities graph_api

api_table :
    (c : Capability) (s : SourceMechanism)
    → has c api_grants ≡ true
    → is_api s ≡ true
    → has c (mechanism_capabilities s) ≡ true
unfolding has mechanism_capabilities
api_table c graph_api h e = h
api_table c gmail_api h e = h
api_table c _ h e = cc

module _ (sources : List SourceMechanism) where
  has_of_api :
      (c : Capability)
      → has c api_grants ≡ true
      → any is_api sources ≡ true
      → has c (capabilities_for sources) ≡ true
  has_of_api c h e =
      has-capabilities_for c sources
      ∙ any_mono is_api (λ s. has c (mechanism_capabilities s)) sources (λ s. api_table c s h) e

  server_rules_of_any : has read_server_rules (capabilities_for sources) ≡ any is_api sources
  server_rules_of_any =
      has-capabilities_for read_server_rules sources ∙ any-congr _ is_api sources server_rules_table

  sessions_of_any : has read_sessions (capabilities_for sources) ≡ any sees_sessions sources
  sessions_of_any =
      has-capabilities_for read_sessions sources ∙ any-congr _ sees_sessions sources sessions_table

  content_of_api :
      any is_api sources ≡ true
      → let caps = capabilities_for sources in
        (has modify_message caps ≡ true)
        × (has read_history caps ≡ true)
        × (has read_inbound caps ≡ true)
        × (has read_outbound caps ≡ true)
  unfolding has mechanism_capabilities position
  content_of_api e = (
    has_of_api modify_message refl e,
    has_of_api read_history refl e,
    has_of_api read_inbound refl e,
    has_of_api read_outbound refl e,
  )

  -- A mailbox is fully protected exactly when a Microsoft or Google mail connection is among its
  -- sources, and a source of sessions: Entra logs, Google reports or the client sensor.
  pub full_iff :
      (protection_level (capabilities_for sources) ≡ full)
      ↔ ((any is_api sources ≡ true) × (any sees_sessions sources ≡ true))
  unfolding protection_level covers
  full_iff = ground (arith, server_rules_of_any, sessions_of_any, content_of_api)

level_of_full :
    (caps : List Capability)
    → covers caps full_requirements ≡ true
    → rank (protection_level caps) ≡ 2
unfolding protection_level
level_of_full caps h = rw h

level_of_standard :
    (caps : List Capability)
    → covers caps standard_requirements ≡ true
    → 1 ≤ rank (protection_level caps)
unfolding protection_level
level_of_standard caps h = ground arith

advise_next :
    (caps : List Capability) (level next : ProtectionLevel)
    → (advise caps level).next_level ≡ some next
    → rank next ≤ rank (protection_level (caps ++ (advise caps level).missing))
unfolding advise
advise_next caps full next e = absurd (cc)
advise_next caps standard next e = ground (
  arith,
  level_of_full (caps ++ keep (λ d. not (has d caps)) full_requirements)
      (covers-missing caps full_requirements),
)
advise_next caps limited next e = ground (
  arith,
  level_of_standard (caps ++ keep (λ d. not (has d caps)) standard_requirements)
      (covers-missing caps standard_requirements),
)

-- For a mailbox below full protection, obtaining the capabilities that the advice lists as missing
-- reaches at least the level that the advice names.
pub advice_suffices :
    (sources : List SourceMechanism) (next : ProtectionLevel)
    → (protection_advice sources).next_level ≡ some next
    → rank next
      ≤ rank (protection_level (capabilities_for sources ++ (protection_advice sources).missing))
unfolding protection_advice
advice_suffices sources next e =
    advise_next (capabilities_for sources) (protection_level (capabilities_for sources)) next e
