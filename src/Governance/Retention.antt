-- ===== src/Governance/Retention.antt =====
-- Data retention: server/src/envelock/governance/retention.py. A table keeps the columns that the purge reads or
-- changes. A time is a number of seconds since the epoch: before the epoch there are no rows, so that a
-- cutoff stops at 0.

pub mod Sweep
pub mod Alerts
pub mod Purge
mod Tests
use envelock.Prelude.{
  ℕ, zero, suc, ◌+◌, ◌-◌, ◌*◌, String, Bool, true, false, not, ◌&&◌, ◌||◌, Option, none, some, List,
  [], ◌∷◌, ◌==◌, if◌then◌else◌, map, ltb, take, is_empty, keep, any, count_if,
}
use envelock.Prelude.Dict.{is_some}

pub data DataClass : Type 0 where
  message_body attachment message_metadata identity_event audit_event alert finding : DataClass
  verdict_cache_clean verdict_cache_malicious trial_ledger usage_meter link_token : DataClass
  link_click : DataClass

-- `Policy`, less its rationale
pub record Policy : Type 0 where
  pub data_class : DataClass
  pub days : Option ℕ
  pub metadata_only_mode : Bool
  pub survives_tenant_deletion : Bool

-- A policy with the default values of the last two fields.
abbrev kept : DataClass → ℕ → Policy
kept data_class days = record {
  data_class = data_class;
  days = some days;
  metadata_only_mode = true;
  survives_tenant_deletion = false;
}

abbrev content : DataClass → ℕ → Policy
content data_class days = record (kept data_class days) { metadata_only_mode = false }

abbrev permanent : DataClass → Policy
permanent data_class = record {
  data_class = data_class;
  days = none;
  metadata_only_mode = true;
  survives_tenant_deletion = true;
}

-- `SCHEDULE`
abbrev pub schedule : List Policy
schedule =
    content message_body 30
    ∷ content attachment 30
    ∷ kept message_metadata 365
    ∷ kept identity_event 365
    ∷ kept audit_event 365
    ∷ kept alert 730
    ∷ kept finding 730
    ∷ kept verdict_cache_clean 30
    ∷ permanent verdict_cache_malicious
    ∷ permanent trial_ledger
    ∷ content link_token 365
    ∷ content link_click 90
    ∷ permanent usage_meter
    ∷ []

-- The position of a class in its enumeration, by which two classes are compared.
abbrev pub ordinal : DataClass → ℕ
ordinal message_body = 0
ordinal attachment = 1
ordinal message_metadata = 2
ordinal identity_event = 3
ordinal audit_event = 4
ordinal alert = 5
ordinal finding = 6
ordinal verdict_cache_clean = 7
ordinal verdict_cache_malicious = 8
ordinal trial_ledger = 9
ordinal usage_meter = 10
ordinal link_token = 11
ordinal link_click = 12

abbrev find_policy : DataClass → List Policy → Option Policy
find_policy data_class [] = none
find_policy data_class (p ∷ policies) =
    if ordinal p.data_class == ordinal data_class then some p else find_policy data_class policies

-- `policy_for`
unfoldable pub policy_for : DataClass → Option Policy
policy_for data_class = find_policy data_class schedule

abbrev days_of : Option Policy → Option ℕ
days_of none = none
days_of (some p) = p.days

abbrev before_now : ℕ → Option ℕ → Option ℕ
before_now now none = none
before_now now (some days) = some (now - days * 86400)

-- `cutoff`
unfoldable pub cutoff : DataClass → (now : ℕ) → Option ℕ
cutoff data_class now = before_now now (days_of (policy_for data_class))

abbrev class_of : Policy → DataClass
class_of p = p.data_class

-- `classes_to_purge`
unfoldable pub classes_to_purge : (metadata_only : Bool) → List DataClass
classes_to_purge metadata_only =
    map class_of
      (keep (λ p. is_some p.days && (p.metadata_only_mode || not metadata_only)) schedule)

-- The list "deleted" of `deletion_plan`, and the list "retained".
unfoldable pub deletion_plan : List DataClass × List DataClass
deletion_plan = (
  map class_of (keep (λ p. not p.survives_tenant_deletion) schedule),
  map class_of (keep (λ p. p.survives_tenant_deletion) schedule),
)

pub record Message : Type 0 where
  pub id : ℕ
  pub received_at : ℕ
  pub subject : Option String
  pub body_storage_key : Option String

-- A row with the time by which it is purged: `SensorSession.last_seen_at`, `AttestedRead.read_at`, or the
-- `created_at` of a `LinkToken`, an `AuditEvent`, an `Alert`
pub record Dated : Type 0 where
  pub id : ℕ
  pub at : ℕ

pub record LinkClick : Type 0 where
  pub link_token_id : ℕ
  pub created_at : ℕ

-- A row that may point at an alert: `Finding`, `NotificationDelivery`, `PaymentVerification`,
-- `LlmVerdictRecord`
pub record Child : Type 0 where
  pub alert_id : Option ℕ
  pub created_at : ℕ

pub record Tables : Type 0 where
  pub messages : List Message
  pub sessions : List Dated
  pub attested_reads : List Dated
  pub link_clicks : List LinkClick
  pub link_tokens : List Dated
  pub audit_events : List Dated
  pub findings : List Child
  pub deliveries : List Child
  pub verifications : List Child
  pub llm_verdicts : List Child
  pub alerts : List Dated

unfoldable pub has_id : List ℕ → ℕ → Bool
has_id ids n = any (λ i. i == n) ids

unfoldable pub refers : List ℕ → Option ℕ → Bool
refers ids none = false
refers ids (some n) = has_id ids n

-- `column < cut`
abbrev pub is_older : ℕ → Dated → Bool
is_older cut row = ltb row.at cut

-- The ids of the rows before the cutoff.
unfoldable pub expired : ℕ → List Dated → List ℕ
expired cut [] = []
expired cut (row ∷ rows) =
    let rest = expired cut rows in if is_older cut row then row.id ∷ rest else rest

-- `delete(child).where(child.alert_id.in_(batch))`
unfoldable pub without : List ℕ → List Child → List Child
without ids children = keep (λ c. not (refers ids c.alert_id)) children

unfoldable pub mentioned : List ℕ → List Child → Bool
mentioned ids children = any (λ c. refers ids c.alert_id) children

-- `_PURGE_BATCH`
abbrev pub purge_batch : ℕ
purge_batch = 1000

-- What the loop over the four tables of children leaves.
unfoldable pub delete_children : List ℕ → Tables → Tables
delete_children ids db = record db {
  deliveries = without ids db.deliveries;
  findings = without ids db.findings;
  verifications = without ids db.verifications;
  llm_verdicts = without ids db.llm_verdicts;
}

-- `delete(Alert).where(Alert.id.in_(batch))`, which raises if a row still points at one of the alerts
unfoldable pub delete_alerts : List ℕ → Tables → Option Tables
delete_alerts ids db =
    if mentioned ids db.deliveries
      || mentioned ids db.findings
      || mentioned ids db.verifications
      || mentioned ids db.llm_verdicts
    then none
    else some (record db { alerts = keep (λ a. not (has_id ids a.id)) db.alerts })

-- What a purge comes to: a foreign key is violated, the fuel runs out, or it ends with a number of rows.
pub data Purged : Type 0 where
  violated out_of_fuel : Purged
  purged : ℕ → Tables → Purged

abbrev pub resume : (Tables → Purged) → Option Tables → Purged
resume next none = violated
resume next (some db) = next db

-- `_purge_alerts`; the fuel bounds the rounds of its loop
unfoldable pub purge_alerts : (alert_cut fuel total : ℕ) → Tables → Purged
purge_alerts alert_cut zero total db = out_of_fuel
purge_alerts alert_cut (suc fuel) total db =
    let batch = take purge_batch (expired alert_cut db.alerts) in
    let rowcount = count_if (λ a. has_id batch a.id) db.alerts in
    let rest =
      resume (λ left. purge_alerts alert_cut fuel (total + rowcount) left)
        (delete_alerts batch (delete_children batch db)) in
    if is_empty batch then purged total db else rest
