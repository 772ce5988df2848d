-- ===== src/Platform/Tests.antt =====
-- The properties of the alerts at concrete inputs; amounts are whole numbers.
use envelock.Prelude.{ℕ, ◌+◌, true, false, none, some, List, [], ◌∷◌, ◌==◌, ltb}
use envelock.Core.{critical}
use envelock.Platform.Alerts.{Alert, Store, opened, resolved}
use envelock.Platform.Alerts.Resolve.{Feed}
use envelock.Platform.Alerts.Isolation.{Call, acknowledging, closing}
use envelock.Platform.Alerts.Loss.{Money, Tally}

abbrev fraud : Alert ℕ
fraud = record {
  id = 5;
  tenant_id = 7;
  mailbox_id = some 3;
  tier = critical;
  state = opened;
  counterparty_domain = some "acme-billing.example";
  amount_at_risk = some 120000;
  amount_currency = some "GBP";
  created_at = 1000;
  acknowledged_at = none;
  acknowledged_by = none;
  resolved_at = none;
  escalated_at = none;
  escalated_to = none;
}

abbrev tables : Store ℕ
tables = record { alerts = fraud ∷ []; audit = []; verdicts = []; reports = [] }

abbrev feed : Feed
feed = record {
  may_feed_graph = λ tenant. tenant == 9;
  actionable = λ reports domain. true;
  report_fraud_accounts = λ alert. 1;
}

-- Another tenant's alert, between two of its own.
abbrev shared_table : Store ℕ
shared_table = record tables {
  alerts = fraud ∷ record fraud { id = 6; tenant_id = 8 } ∷ record fraud { id = 9 } ∷ [];
}

-- The tenant 7 tries its own ids and the other's.
abbrev tries : List Call
tries = acknowledging 1200 6 2 ∷ closing 1300 6 (some 2) true ∷ closing 1400 9 none false ∷ []

abbrev whole : Money
whole = record {
  Amount = ℕ;
  zero_amount = 0;
  add = λ a b. a + b;
  round_cents = λ a. a;
  greater = λ a b. ltb b a;
}

abbrev closed : List (Alert ℕ)
closed =
    record fraud { state = resolved }
    ∷ record fraud { state = resolved; amount_currency = none }
    ∷ fraud
    ∷ []

abbrev no_tally : Tally whole
no_tally = record { totals = []; counted = 0; unpriced = 0 }
