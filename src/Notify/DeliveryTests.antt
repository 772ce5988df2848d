-- ===== src/Notify/DeliveryTests.antt =====
-- The properties of the delivery of notifications and of the escalation cycle at concrete inputs.
use envelock.Prelude.{ℕ, ◌≡◌, ◌≢◌, refl, true, false, none, some, List, [], ◌∷◌, All}
use envelock.Core.{critical}
use envelock.Notify.Ladder.{Rung, in_app, email, default_policy}
use envelock.Notify.Delivery.{NotificationDelivery, User, Mailbox, Directory, Dispatcher, pending}
use envelock.Notify.Dispatch.{Claim, deliver_pending}
use envelock.Notify.Dispatch.Once.{claims_id, rerun_sends_nothing, drains_never_share_row}
use envelock.Notify.Cycle.{run_escalation_cycle}
use envelock.Notify.Cycle.Settled.{cycle_leaves_nothing_due}
use envelock.Notify.Cycle.Attacked.{avoids, avoids_its_row, emails_avoid_mailbox}
use envelock.Notify.Cycle.Reach.{is_trusted, texts_only_proven}
use envelock.Platform.Alerts.{Alert, Store, opened, due_escalations, alert_of}
use envelock.Platform.Alerts.Delivered.{alone}

abbrev owner : User
owner = record {
  id = "u1";
  tenant_id = 7;
  email = "ana@acme.example";
  out_of_band_email = some "ana@home.example";
  phone = some "+441632960001";
  phone_verified = true;
  is_admin = true;
  is_active = true;
}

abbrev payables : Mailbox
payables = record { id = 3; address = "pay@acme.example" }

abbrev directory : Directory
directory = record { users = owner ∷ []; mailboxes = payables ∷ []; subscriptions = [] }

-- Every address takes what is sent to it.
abbrev working : Dispatcher
working = record {
  send = λ id rung to. record { delivered = true; reason = "sent"; cost_micros = 0; gone = false };
  lower = λ s. s;
  email_configured = true;
}

-- No channel is set up.
abbrev broken : Dispatcher
broken = record {
  send = λ id rung to. record {
    delivered = false;
    reason = "smtp not configured";
    cost_micros = 0;
    gone = false;
  };
  lower = λ s. s;
  email_configured = false;
}

abbrev fraud : Alert ℕ
fraud = record {
  id = 5;
  tenant_id = 7;
  mailbox_id = some 3;
  tier = critical;
  state = opened;
  counterparty_domain = some "acme-billing.example";
  amount_at_risk = none;
  amount_currency = none;
  created_at = 1000;
  acknowledged_at = none;
  acknowledged_by = none;
  resolved_at = none;
  escalated_at = none;
  escalated_to = none;
}

abbrev row : ℕ → Rung → NotificationDelivery
row id rung = record {
  id = id;
  tenant_id = 7;
  alert_id = 5;
  user_id = some "u1";
  rung = rung;
  status = pending;
  cost_micros = 0;
  error = none;
}

abbrev queue : List NotificationDelivery
queue = row 1 in_app ∷ row 2 email ∷ []

abbrev open_alerts : Store ℕ
open_alerts = record { alerts = fraud ∷ []; audit = []; verdicts = []; reports = [] }

emails_avoid_mailbox_example :
    All
      (λ x. avoids_its_row working directory (fraud ∷ []) queue x ≡ true)
      (deliver_pending working (alone 5) (fraud ∷ []) directory queue).sends
    × All
        (λ x. avoids working directory (fraud ∷ []) x.row_id x ≡ true)
        (run_escalation_cycle working default_policy directory none 9000 open_alerts).sends
emails_avoid_mailbox_example =
    emails_avoid_mailbox working (alone 5) default_policy directory none 9000 queue open_alerts

rerun_sends_nothing_example :
    deliver_pending working
      (alone 5)
      (fraud ∷ [])
      directory
      (deliver_pending broken (alone 5) (fraud ∷ []) directory queue).rows
    ≡ record {
      rows = (deliver_pending broken (alone 5) (fraud ∷ []) directory queue).rows;
      directory = directory;
      sends = [];
    }
rerun_sends_nothing_example =
    rerun_sends_nothing broken working (alone 5) (fraud ∷ []) (fraud ∷ []) directory directory queue

-- The sweep of everything pending, while the drain of the alert holds its rows.
abbrev sweep : Claim
sweep = record { alert_id = none; tenant_id = none; locked = λ id. claims_id (alone 5) queue id }

drains_never_share_row_example :
    All
      (λ s.
        All
          (λ s'. s.row_id ≢ s'.row_id)
          (deliver_pending working sweep (fraud ∷ []) directory queue).sends)
      (deliver_pending working (alone 5) (fraud ∷ []) directory queue).sends
drains_never_share_row_example =
    drains_never_share_row working working (alone 5) sweep (fraud ∷ []) directory queue (λ id h. h)

abbrev tables : Store ℕ
tables = record { alerts = fraud ∷ []; audit = []; verdicts = []; reports = [] }

cycle_leaves_nothing_due_example :
    due_escalations none 9000
      (run_escalation_cycle working default_policy directory none 9000 tables).store.alerts
    ≡ []
unfolding alert_of
cycle_leaves_nothing_due_example =
    cycle_leaves_nothing_due working default_policy directory none 9000 tables (refl, tt)

texts_only_proven_example :
    All
      (λ x. is_trusted directory.users x ≡ true)
      (run_escalation_cycle working default_policy directory none 9000 tables).sends
texts_only_proven_example = texts_only_proven working default_policy directory none 9000 tables
