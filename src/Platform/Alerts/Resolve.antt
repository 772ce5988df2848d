-- ===== src/Platform/Alerts/Resolve.antt =====
-- How an alert is closed: `resolve` of server/src/envelock/platform/alerts.py. The shared graph and the
-- register of fraud accounts, which it reports to, are the parameter `Feed`.
use envelock.Prelude.{
  ℕ, String, Bool, true, false, not, ◌&&◌, Option, none, some, List, [], ◌∷◌, ◌++◌, ◌==◌, str_eq,
  map, if◌then◌else◌,
}
use envelock.Platform.Alerts.{
  Alert, resolved, dismissed, Store, VerdictRow, alert_resolved, alert_dismissed, Detail, no_detail,
  fed, in_feed_tiers, alert_of, change_alert,
}

-- What `resolve` asks elsewhere: which tenants have a verified domain, whether the graph acts on a
-- domain after the reports, and how many accounts of an alert are recorded.
pub record Feed : Type 0 where
  pub may_feed_graph : ℕ → Bool
  pub actionable : List (String × ℕ) → String → Bool
  pub report_fraud_accounts : ℕ → ℕ

-- The labelling of the rows of the judge's verdicts on an alert.
abbrev pub label : (now alert_id : ℕ) (dismiss : Bool) → VerdictRow → VerdictRow
label now alert_id dismiss row =
    if row.alert_id == alert_id
    then record row { human_disposition = some (not dismiss); labeled_at = some now }
    else row

-- `alert.counterparty_domain`, read as a truth value
abbrev pub given : Option String → Bool
given none = false
given (some s) = not (str_eq s "")

abbrev pub text_of : Option String → String
text_of none = ""
text_of (some s) = s

module _ {F : Type 0} where
  -- The condition of the report to the graph.
  unfoldable pub feeds : Feed → (dismiss : Bool) (tenant_id : ℕ) → Alert F → Bool
  feeds feed dismiss tenant_id a =
      not dismiss
      && given a.counterparty_domain
      && in_feed_tiers a.tier
      && feed.may_feed_graph tenant_id

  -- `GRAPH.report`
  unfoldable pub report : Feed → Bool → ℕ → Alert F → List (String × ℕ) → List (String × ℕ)
  report feed dismiss tenant_id a reports =
      if feeds feed dismiss tenant_id a
      then reports ++ ((text_of a.counterparty_domain, tenant_id) ∷ [])
      else reports

  -- What the audit says of a closed alert.
  unfoldable pub closing_detail : Feed → Bool → ℕ → Alert F → List (String × ℕ) → Detail
  closing_detail feed true tenant_id a reports = no_detail
  closing_detail feed false tenant_id a reports =
      fed (feeds feed false tenant_id a && feed.actionable reports (text_of a.counterparty_domain))
        (if feed.may_feed_graph tenant_id then feed.report_fraud_accounts a.id else 0)

  -- `resolve`, once the alert has been found
  unfoldable pub close :
      Feed
      → (now tenant_id : ℕ) (actor_id : Option ℕ) (dismiss : Bool) → Alert F
      → Store F
      → Store F
  close feed now tenant_id actor_id dismiss a s =
      let reports = report feed dismiss tenant_id a s.reports in
      record {
        alerts =
            change_alert a.id
              (λ b. record b {
                state = if dismiss then dismissed else resolved;
                resolved_at = some now;
              })
              s.alerts;
        audit =
            s.audit
            ++ (record {
              tenant_id = tenant_id;
              actor_id = actor_id;
              action = if dismiss then alert_dismissed else alert_resolved;
              target_id = a.id;
              detail = closing_detail feed dismiss tenant_id a reports;
            }
                ∷ []);
        verdicts = map (label now a.id dismiss) s.verdicts;
        reports = reports;
      }

  unfoldable pub close_found :
      Feed
      → (now tenant_id : ℕ) (actor_id : Option ℕ) (dismiss : Bool) → Option (Alert F)
      → Store F
      → Bool × Store F
  close_found feed now tenant_id actor_id dismiss none s = (false, s)
  close_found feed now tenant_id actor_id dismiss (some a) s =
      if not (a.tenant_id == tenant_id)
      then (false, s)
      else (true, close feed now tenant_id actor_id dismiss a s)

  -- `resolve`: whether it answers an alert, and the tables afterwards
  unfoldable pub resolve :
      Feed
      → (now alert_id tenant_id : ℕ) (actor_id : Option ℕ) (dismiss : Bool) → Store F
      → Bool × Store F
  resolve feed now alert_id tenant_id actor_id dismiss s =
      close_found feed now tenant_id actor_id dismiss (alert_of alert_id s.alerts) s
