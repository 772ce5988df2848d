-- ===== src/Platform/Alerts/Delivered.antt =====
-- The delivery that follows a raised alert: `raise_alert` of server/src/envelock/platform/alerts.py and
-- `deliver_pending` of server/src/envelock/notify/dispatch.py.
use envelock.Prelude.{ℕ, Bool, false, ◌&&◌, none, some, List, if◌then◌else◌, count_if}
use envelock.Notify.Ladder.{in_app}
use envelock.Notify.Ladder.Rungs.{same_rung}
use envelock.Notify.Delivery.{NotificationDelivery, or_dashboard}
use envelock.Notify.Dispatch.{Sent, Claim, is_claimed, has_destination}

-- The claim of `deliver_pending(session, alert_id=...)` when no other drain holds a row.
abbrev pub alone : (alert_id : ℕ) → Claim
alone id = record { alert_id = some id; tenant_id = none; locked = λ row. false }

abbrev one_if : Bool → ℕ
one_if b = if b then 1 else 0

-- The calls of the dashboard among those of a drain.
abbrev pub dashboard_calls : List Sent → ℕ
dashboard_calls sends = count_if (λ x. same_rung in_app x.rung) sends

-- A row that a drain claims, for the dashboard of a user who is named, or of all.
abbrev shown : Claim → NotificationDelivery → Bool
shown c row =
    is_claimed c row && same_rung in_app row.rung && has_destination (or_dashboard row.user_id)
