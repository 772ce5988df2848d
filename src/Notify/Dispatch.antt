-- ===== src/Notify/Dispatch.antt =====
-- The sending of what is pending: `deliver_pending` of server/src/envelock/notify/dispatch.py. The report
-- that an email carries is made by the senders, which are a parameter.
pub mod Once
use envelock.Prelude.{
  ℕ, String, Bool, true, false, not, ◌&&◌, ◌||◌, Option, none, some, List, [], ◌∷◌, ◌++◌, ◌==◌,
  str_eq, keep, if◌then◌else◌, All, any, ◌≡◌, ◌≢◌, arith, refl, subst, Bool-cases, inl, inr,
}
use envelock.Detections.Attachments.Triage.{bytes_of, contains}
use envelock.Notify.Ladder.{Rung, in_app, push, email, sms}
use envelock.Platform.Alerts.{Alert, alert_of}
use envelock.Notify.Delivery.{
  RowStatus, pending, sent, skipped, failed, RowError, alert_gone, no_destination, reported,
  NotificationDelivery, Directory, PushSubscription, SendResult, Dispatcher, destination,
  push_to_all, prune,
}

-- `not dest`
unfoldable pub has_destination : Option String → Bool
has_destination none = false
has_destination (some to) = not (str_eq to "")

abbrev pub text_of : Option String → String
text_of none = ""
text_of (some s) = s

-- `"not configured" in result.reason`
unfoldable pub is_not_configured : String → Bool
is_not_configured reason = contains (bytes_of reason) (bytes_of "not configured")

-- What becomes of a row by the result of its sending.
unfoldable pub record_result : SendResult → NotificationDelivery → NotificationDelivery
record_result result row =
    if result.delivered
    then record row { status = sent; cost_micros = result.cost_micros; error = none }
    else record row {
      status = if is_not_configured result.reason then skipped else failed;
      error = some (reported result.reason);
    }

-- A call of a sender.
pub record Sent : Type 0 where
  pub row_id : ℕ
  pub rung : Rung
  pub to : String

-- What the attempt on one row leaves: the row, the subscriptions, and the calls of the senders.
pub record Attempted : Type 0 where
  pub row : NotificationDelivery
  pub subscriptions : List PushSubscription
  pub sends : List Sent

abbrev pub is_push : Rung → Bool
is_push push = true
is_push _ = false

-- The sending of a row to its destination.
unfoldable pub send_row : Dispatcher → Directory → (to : String) → NotificationDelivery → Attempted
send_row d t to row =
    let (result, deleted) = push_to_all d row.id row.user_id t.subscriptions in
    let call : Sent = record { row_id = row.id; rung = row.rung; to = to } in
    if is_push row.rung
    then record {
      row = record_result result row;
      subscriptions = prune deleted t.subscriptions;
      sends = call ∷ [];
    }
    else record {
      row = record_result (d.send row.id row.rung to) row;
      subscriptions = t.subscriptions;
      sends = call ∷ [];
    }

module _ {F : Type 0} where
  -- The body of the loop.
  unfoldable pub attempt_row :
      Dispatcher → Directory → Option (Alert F) → NotificationDelivery → Attempted
  attempt_row d t none row = record {
    row = record row { status = skipped; error = some alert_gone };
    subscriptions = t.subscriptions;
    sends = [];
  }
  attempt_row d t (some alert) row =
      let dest = destination d.lower t row.rung row.user_id alert.mailbox_id in
      if not (has_destination dest)
      then record {
        row = record row { status = skipped; error = some no_destination };
        subscriptions = t.subscriptions;
        sends = [];
      }
      else send_row d t (text_of dest) row

-- The arguments of `deliver_pending`, and the rows that another drain holds locked.
pub record Claim : Type 0 where
  pub alert_id : Option ℕ
  pub tenant_id : Option ℕ
  pub locked : ℕ → Bool

abbrev pub is_pending : RowStatus → Bool
is_pending pending = true
is_pending _ = false

abbrev pub matches : Option ℕ → ℕ → Bool
matches none id = true
matches (some wanted) id = id == wanted

-- The query of `deliver_pending`, `FOR UPDATE SKIP LOCKED`.
unfoldable pub is_claimed : Claim → NotificationDelivery → Bool
is_claimed c row =
    is_pending row.status
    && matches c.alert_id row.alert_id
    && matches c.tenant_id row.tenant_id
    && not (c.locked row.id)

-- What `deliver_pending` leaves: every row of the table, the directory, and the calls of the senders.
pub record Drained : Type 0 where
  pub rows : List NotificationDelivery
  pub directory : Directory
  pub sends : List Sent

module _ {F : Type 0} where
  -- `deliver_pending`, over the rows of the table in their order
  unfoldable pub deliver_pending :
      Dispatcher
      → Claim
      → (alerts : List (Alert F)) → Directory
      → List NotificationDelivery
      → Drained
  deliver_pending d c alerts t [] = record { rows = []; directory = t; sends = [] }
  deliver_pending d c alerts t (row ∷ rows) =
      let tried = attempt_row d t (alert_of row.alert_id alerts) row in
      let after = record t { subscriptions = tried.subscriptions } in
      let rest = deliver_pending d c alerts after rows in
      let passed = deliver_pending d c alerts t rows in
      if is_claimed c row
      then record rest { rows = tried.row ∷ rest.rows; sends = tried.sends ++ rest.sends }
      else record passed { rows = row ∷ passed.rows }
