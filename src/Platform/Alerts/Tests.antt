-- ===== src/Platform/Alerts/Tests.antt =====
-- What a raised alert sets off, at a concrete input.
use envelock.Prelude.{ℕ, true, false, none, some, [], ◌∷◌}
use envelock.Core.{critical}
use envelock.Risk.{RiskAssessment}
use envelock.Notify.Ladder.{Recipient, in_app}
use envelock.Notify.Delivery.{pending, Directory, Dispatcher}
use envelock.Workers.Webhooks.Queue.{Endpoint}
use envelock.Platform.Alerts.Raise.{Raised, Tables}

abbrev bank_change : RiskAssessment
bank_change = record {
  tier = critical;
  score = 95;
  title = "Bank details changed";
  body = "New account";
  services = "A1" ∷ [];
  requires_callback = true;
  callback_phone = none;
  rationale = [];
}

abbrev finance : Recipient
finance = record {
  user_id = "u1";
  is_admin = false;
  has_push_subscription = false;
  out_of_band_email = none;
  phone = some "+441632960001";
  has_sensor = false;
}

abbrev raised : Raised ℕ
raised = record {
  tenant_id = 7;
  mailbox_id = some 3;
  assessment = bank_change;
  findings = [];
  message_id = some 11;
  recipients = finance ∷ [];
  counterparty_domain = some "acme-billing.example";
  amount_at_risk = none;
  amount_currency = none;
}

abbrev siem : Endpoint
siem = record {
  id = 4;
  tenant_id = 7;
  url = "https://siem.example.org/in";
  active = true;
  events = "alert.raised" ∷ [];
  last_delivery_at = none;
  last_status = none;
}

abbrev before : Tables ℕ
before = record {
  alerts = [];
  findings = [];
  notifications =
      record {
        id = 0;
        tenant_id = 7;
        alert_id = 4;
        user_id = none;
        rung = in_app;
        status = pending;
        cost_micros = 0;
        error = none;
      }
      ∷ [];
  next_notification = 1;
  audit = [];
  endpoints = siem ∷ record siem { id = 5; active = false } ∷ [];
  webhooks = [];
}

abbrev nobody : Directory
nobody = record { users = []; mailboxes = []; subscriptions = [] }

abbrev failing : Dispatcher
failing = record {
  send =
      λ id rung to. record { delivered = false; reason = "timeout"; cost_micros = 0; gone = false };
  lower = λ s. s;
  email_configured = false;
}
