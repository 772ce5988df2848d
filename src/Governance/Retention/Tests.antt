-- ===== src/Governance/Retention/Tests.antt =====
-- The properties of the purge at concrete inputs.
use envelock.Prelude.{ℕ, ◌*◌, ◌≡◌, refl, none, some, [], ◌∷◌}
use envelock.Governance.Retention.{Tables}
use envelock.Governance.Retention.Alerts.{count_of}
use envelock.Governance.Retention.Purge.{Counts, counts, purge_expired, answered}
use envelock.Governance.Retention.Purge.Complete.{old_alerts, remaining, purge_expired_lem}
use envelock.Governance.Retention.Purge.Orphans.{
  IsConsistent, present, points_at, IsSettled, purge-IsConsistent, purge-IsSettled,
}

-- Two days more than two years since the epoch.
abbrev now : ℕ
now = 732 * 86400

-- An alert of the first day with a finding and a delivery, one of the last day with a verification, a token
-- of the first day with a click, and a message that has no stored body.
abbrev tables : Tables
tables = record {
  messages =
      record { id = 1; received_at = 0; subject = some "invoice"; body_storage_key = none } ∷ [];
  sessions = record { id = 1; at = 5 } ∷ [];
  attested_reads = [];
  link_clicks = record { link_token_id = 3; created_at = now } ∷ [];
  link_tokens = record { id = 3; at = 0 } ∷ [];
  audit_events = [];
  findings = record { alert_id = some 7; created_at = now } ∷ [];
  deliveries = record { alert_id = some 7; created_at = 0 } ∷ [];
  verifications = record { alert_id = some 8; created_at = now } ∷ [];
  llm_verdicts = record { alert_id = none; created_at = now } ∷ [];
  alerts = record { id = 7; at = 0 } ∷ record { id = 8; at = now } ∷ [];
}

purge_expired_lem_example :
    purge_expired now tables
    ≡ answered
        (counts now (count_of (old_alerts now tables) tables.alerts) tables)
        (remaining now tables)
purge_expired_lem_example = purge_expired_lem now tables

tables-IsConsistent : IsConsistent tables
unfolding IsConsistent points_at present
tables-IsConsistent = ((refl, tt), (refl, tt), (refl, tt), (refl, tt), (refl, tt))

purge-IsConsistent_example :
    (c : Counts) × (left : Tables) × (purge_expired now tables ≡ answered c left)
    × IsConsistent left
purge-IsConsistent_example = purge-IsConsistent now tables tables-IsConsistent

purge-IsSettled_example :
    (c : Counts) × (left : Tables) × (purge_expired now tables ≡ answered c left)
    × IsSettled now left
purge-IsSettled_example = purge-IsSettled now tables
