-- ===== src/Platform/Alerts/Raise.antt =====
-- Raising an alert: `raise_alert` of server/src/envelock/platform/alerts.py, which writes the alert, its
-- evidence, the notifications of the ladder, the audit and the outbound webhooks in one transaction.
use envelock.Prelude.{
  ℕ, ◌+◌, String, Option, none, some, List, [], ◌∷◌, ◌++◌, str_eq, map, if◌then◌else◌, length,
}
use envelock.Core.{AlertTier}
use envelock.Risk.{FindingResult, RiskAssessment}
use envelock.Notify.Ladder.{Rung, Recipient, initial_rungs}
use envelock.Notify.Delivery.{NotificationDelivery, pending}
use envelock.Workers.Webhooks.Queue.{Endpoint, Delivery, enqueue}
use envelock.Platform.Alerts.{Alert, opened, AuditEvent, alert_raised, raised_detail}

-- `Finding`, less its fresh id
pub record Finding : Type 0 where
  pub tenant_id : ℕ
  pub mailbox_id : Option ℕ
  pub message_id : Option ℕ
  pub alert_id : ℕ
  pub result : FindingResult

-- The tables that `raise_alert` reads or adds to; the next id of a notification is a number.
pub record Tables (F : Type 0) : Type 0 where
  pub alerts : List (Alert F)
  pub findings : List Finding
  pub notifications : List NotificationDelivery
  pub next_notification : ℕ
  pub audit : List AuditEvent
  pub endpoints : List Endpoint
  pub webhooks : List Delivery

-- `if recipient.user_id`
unfoldable pub user_or_none : String → Option String
user_or_none id = if str_eq id "" then none else some id

-- The loop over the rungs of one recipient.
unfoldable pub rung_rows :
    (id tenant_id alert_id : ℕ) → Recipient → List Rung → List NotificationDelivery
rung_rows id tenant_id alert_id recipient [] = []
rung_rows id tenant_id alert_id recipient (rung ∷ rungs) =
    record {
      id = id;
      tenant_id = tenant_id;
      alert_id = alert_id;
      user_id = user_or_none recipient.user_id;
      rung = rung;
      status = pending;
      cost_micros = 0;
      error = none;
    }
    ∷ rung_rows (id + 1) tenant_id alert_id recipient rungs

-- The loop over the recipients.
unfoldable pub fan_out :
    (id tenant_id alert_id : ℕ) → AlertTier → List Recipient → List NotificationDelivery
fan_out id tenant_id alert_id tier [] = []
fan_out id tenant_id alert_id tier (recipient ∷ recipients) =
    let rungs = (initial_rungs tier recipient).rungs in
    rung_rows id tenant_id alert_id recipient rungs
    ++ fan_out (id + length rungs) tenant_id alert_id tier recipients

-- The arguments of `raise_alert` that its caller names, less those that are only stored for display.
pub record Raised (F : Type 0) : Type 0 where
  pub tenant_id : ℕ
  pub mailbox_id : Option ℕ
  pub assessment : RiskAssessment
  pub findings : List FindingResult
  pub message_id : Option ℕ
  pub recipients : List Recipient
  pub counterparty_domain : Option String
  pub amount_at_risk : Option F
  pub amount_currency : Option String

module _ {F : Type 0} where
  unfoldable pub new_alert : (now id : ℕ) → Raised F → Alert F
  new_alert now id r = record {
    id = id;
    tenant_id = r.tenant_id;
    mailbox_id = r.mailbox_id;
    tier = r.assessment.tier;
    state = opened;
    counterparty_domain = r.counterparty_domain;
    amount_at_risk = r.amount_at_risk;
    amount_currency = r.amount_currency;
    created_at = now;
    acknowledged_at = none;
    acknowledged_by = none;
    resolved_at = none;
    escalated_at = none;
    escalated_to = none;
  }

  unfoldable pub new_finding : (id : ℕ) → Raised F → FindingResult → Finding
  new_finding id r f = record {
    tenant_id = r.tenant_id;
    mailbox_id = r.mailbox_id;
    message_id = r.message_id;
    alert_id = id;
    result = f;
  }

  -- `raise_alert`: the alert with the fresh id `id`, and the tables; `envelope` is the payload of the webhook as
  -- the library serialises it
  unfoldable pub raise_alert :
      (now id : ℕ) (envelope : String) → Raised F → Tables F → Alert F × Tables F
  raise_alert now id envelope r s =
      let alert = new_alert now id r in
      let rows = fan_out s.next_notification r.tenant_id id r.assessment.tier r.recipients in
      (
        alert,
        record s {
          alerts = s.alerts ++ (alert ∷ []);
          findings = s.findings ++ map (new_finding id r) r.findings;
          notifications = s.notifications ++ rows;
          next_notification = s.next_notification + length rows;
          audit =
              s.audit
              ++ (record {
                tenant_id = r.tenant_id;
                actor_id = none;
                action = alert_raised;
                target_id = id;
                detail = raised_detail r.assessment.tier r.assessment.services;
              }
                  ∷ []);
          webhooks = s.webhooks ++ enqueue now r.tenant_id "alert.raised" envelope s.endpoints;
        },
      )
