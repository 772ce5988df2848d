-- ===== src/Platform/Alerts.antt =====
-- The life of an alert: server/src/envelock/platform/alerts.py. The tables are lists, ids are numbers
-- and times are whole seconds; a call's `now` is an argument.
pub mod Escalation
pub mod Loss
pub mod Resolve
pub mod Closing
pub mod Isolation
pub mod Raise
pub mod Fanout
pub mod Delivered
mod Tests
use envelock.Prelude.{
  ℕ, ◌+◌, ◌-◌, ◌/◌, String, Bool, true, false, not, ◌&&◌, ◌||◌, Option, none, some, List, [], ◌∷◌,
  ◌++◌, ◌==◌, str_eq, keep, map, leb, ltb, length, count_if, if◌then◌else◌,
}
use envelock.Core.{AlertTier, low, medium, high, critical}

-- `Alert.state`
pub data AlertState : Type 0 where
  opened acked resolved dismissed : AlertState

-- The stages of an escalation.
pub data Target : Type 0 where
  it_admin all_admins : Target

-- The fields of `Alert` that these functions read or change, with amounts of type `F`
pub record Alert (F : Type 0) : Type 0 where
  pub id : ℕ
  pub tenant_id : ℕ
  pub mailbox_id : Option ℕ
  pub tier : AlertTier
  pub state : AlertState
  pub counterparty_domain : Option String
  pub amount_at_risk : Option F
  pub amount_currency : Option String
  pub created_at : ℕ
  pub acknowledged_at : Option ℕ
  pub acknowledged_by : Option ℕ
  pub resolved_at : Option ℕ
  pub escalated_at : Option ℕ
  pub escalated_to : Option Target

-- What an audit event says beside its action.
pub data Detail : Type 0 where
  no_detail : Detail
  escalated_to_detail : Target → Detail
  raised_detail : (tier : AlertTier) (services : List String) → Detail
  fed : (graph_propagated : Bool) (fraud_accounts_reported : ℕ) → Detail

-- `AuditAction`, as far as this module records them
pub data AuditAction : Type 0 where
  alert_raised alert_acknowledged alert_resolved alert_dismissed alert_escalated : AuditAction

-- `AuditEvent`; its target is always an alert
pub record AuditEvent : Type 0 where
  pub tenant_id : ℕ
  pub actor_id : Option ℕ
  pub action : AuditAction
  pub target_id : ℕ
  pub detail : Detail

-- The rows of `LlmVerdictRecord` that are about an alert, in the fields that `resolve` reads or changes; the
-- human's answer is `true` for a confirmation.
pub record VerdictRow : Type 0 where
  pub alert_id : ℕ
  pub human_disposition : Option Bool
  pub labeled_at : Option ℕ

-- The tables that these functions change, and the domains reported to the graph, with their reporters.
pub record Store (F : Type 0) : Type 0 where
  pub alerts : List (Alert F)
  pub audit : List AuditEvent
  pub verdicts : List VerdictRow
  pub reports : List (String × ℕ)

abbrev pub is_open : AlertState → Bool
is_open opened = true
is_open _ = false

abbrev pub is_resolved : AlertState → Bool
is_resolved resolved = true
is_resolved _ = false

abbrev pub is_critical : AlertTier → Bool
is_critical critical = true
is_critical _ = false

-- `_GRAPH_FEED_TIERS` and `_PREVENTED_TIERS`
abbrev pub in_feed_tiers : AlertTier → Bool
in_feed_tiers critical = true
in_feed_tiers high = true
in_feed_tiers _ = false

-- `EscalationStep`; its tier is always critical
pub record EscalationStep : Type 0 where
  pub alert_id : ℕ
  pub to : Target
  pub minutes_open : ℕ

-- `reached != "all_admins"` and `reached is None`
abbrev pub is_all_admins : Option Target → Bool
is_all_admins (some all_admins) = true
is_all_admins _ = false

abbrev pub is_none : Option Target → Bool
is_none none = true
is_none (some t) = false

-- The stage that an alert open for some minutes is due for.
unfoldable pub due_target : (minutes : ℕ) → Option Target → Option Target
due_target minutes reached =
    if leb 60 minutes && not (is_all_admins reached)
    then some all_admins
    else if leb 15 minutes && is_none reached
    then some it_admin
    else none

module _ {F : Type 0} where
  -- `int((now - created).total_seconds() // 60)`; an alert from the future is open for no minutes
  unfoldable pub minutes_open_at : ℕ → Alert F → ℕ
  minutes_open_at now alert = (now - alert.created_at) / 60

  -- `session.get(Alert, alert_id)`
  unfoldable pub alert_of : ℕ → List (Alert F) → Option (Alert F)
  alert_of id [] = none
  alert_of id (a ∷ rest) = if a.id == id then some a else alert_of id rest

  -- The alert object, changed in place.
  unfoldable pub change_alert : ℕ → (Alert F → Alert F) → List (Alert F) → List (Alert F)
  change_alert id change [] = []
  change_alert id change (a ∷ rest) =
      (if a.id == id then change a else a) ∷ change_alert id change rest

  -- `alert is None or alert.tenant_id != tenant_id`, negated
  unfoldable pub owned : ℕ → Option (Alert F) → Bool
  owned tenant_id none = false
  owned tenant_id (some a) = a.tenant_id == tenant_id

  -- `acknowledge`: whether it answers an alert, and the tables afterwards
  unfoldable pub acknowledge : (now alert_id tenant_id actor_id : ℕ) → Store F → Bool × Store F
  acknowledge now alert_id tenant_id actor_id s =
      if not (owned tenant_id (alert_of alert_id s.alerts)) then (false, s) else (
        true,
        record s {
          alerts =
              change_alert alert_id
                (λ a. record a {
                  state = acked;
                  acknowledged_at = some now;
                  acknowledged_by = some actor_id;
                })
                s.alerts;
          audit =
              s.audit
              ++ (record {
                tenant_id = tenant_id;
                actor_id = some actor_id;
                action = alert_acknowledged;
                target_id = alert_id;
                detail = no_detail;
              }
                  ∷ []);
        },
      )

  -- One alert of the loop of `due_escalations`.
  unfoldable pub step_of : ℕ → Alert F → Option Target → List EscalationStep
  step_of now a none = []
  step_of now a (some target) =
      record { alert_id = a.id; to = target; minutes_open = minutes_open_at now a } ∷ []

  -- The loop of `due_escalations`.
  unfoldable pub steps : ℕ → List (Alert F) → List EscalationStep
  steps now [] = []
  steps now (a ∷ rest) =
      step_of now a (due_target (minutes_open_at now a) a.escalated_to) ++ steps now rest

  -- `query.where(Alert.tenant_id == tenant_id)`, if a tenant is given
  abbrev pub in_scope : Option ℕ → Alert F → Bool
  in_scope none a = true
  in_scope (some tenant_id) a = a.tenant_id == tenant_id

  -- `due_escalations`
  unfoldable pub due_escalations : Option ℕ → ℕ → List (Alert F) → List EscalationStep
  due_escalations tenant_id now alerts =
      steps now (keep (λ a. is_open a.state && is_critical a.tier && in_scope tenant_id a) alerts)

  abbrev pub reach : ℕ → Target → Alert F → Alert F
  reach now to a = record a { escalated_at = some now; escalated_to = some to }

  abbrev pub exists : Option (Alert F) → Bool
  exists none = false
  exists (some a) = true

  -- `mark_escalated`
  unfoldable pub mark_escalated : (now alert_id tenant_id : ℕ) → Target → Store F → Store F
  mark_escalated now alert_id tenant_id to s =
      if not (exists (alert_of alert_id s.alerts)) then s else record s {
        alerts = change_alert alert_id (reach now to) s.alerts;
        audit =
            s.audit
            ++ (record {
              tenant_id = tenant_id;
              actor_id = none;
              action = alert_escalated;
              target_id = alert_id;
              detail = escalated_to_detail to;
            }
                ∷ []);
      }
