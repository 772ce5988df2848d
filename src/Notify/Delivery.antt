-- ===== src/Notify/Delivery.antt =====
-- The rows of the notifications, and where each goes: `_destination` and `_push_to_all` of
-- server/src/envelock/notify/dispatch.py, with their tables of server/src/envelock/models.py as lists.
use envelock.Prelude.{
  ℕ, String, Bool, true, false, not, ◌&&◌, ◌||◌, Option, none, some, List, [], ◌∷◌, ◌==◌, str_eq,
  keep, is_empty, if◌then◌else◌,
}
use envelock.Notify.Ladder.{Rung, in_app, push, email, sms}

-- `NotificationDelivery.status`
pub data RowStatus : Type 0 where
  pending sent skipped failed : RowStatus

-- `NotificationDelivery.error`, which the code keeps as a text
pub data RowError : Type 0 where
  alert_gone no_destination : RowError
  reported : String → RowError

pub record NotificationDelivery : Type 0 where
  pub id : ℕ
  pub tenant_id : ℕ
  pub alert_id : ℕ
  pub user_id : Option String
  pub rung : Rung
  pub status : RowStatus
  pub cost_micros : ℕ
  pub error : Option RowError

-- The fields of `User` that the notifications read; `is_active` is `status == "active"`
pub record User : Type 0 where
  pub id : String
  pub tenant_id : ℕ
  pub email : String
  pub out_of_band_email : Option String
  pub phone : Option String
  pub phone_verified : Bool
  pub is_admin : Bool
  pub is_active : Bool

pub record Mailbox : Type 0 where
  pub id : ℕ
  pub address : String

pub record PushSubscription : Type 0 where
  pub user_id : String
  pub endpoint : String

-- The tables that the destinations are read from.
pub record Directory : Type 0 where
  pub users : List User
  pub mailboxes : List Mailbox
  pub subscriptions : List PushSubscription

-- `SendResult`
pub record SendResult : Type 0 where
  pub delivered : Bool
  pub reason : String
  pub cost_micros : ℕ
  pub gone : Bool

-- The senders, and `str.lower`. `send id rung to` is the sending of the row `id`.
pub record Dispatcher : Type 0 where
  pub send : (id : ℕ) → Rung → (to : String) → SendResult
  pub lower : String → String
  pub email_configured : Bool

-- `session.get(User, delivery.user_id) if delivery.user_id else None`
unfoldable pub find_user : String → List User → Option User
find_user id [] = none
find_user id (u ∷ us) = if str_eq u.id id then some u else find_user id us

unfoldable pub user_of : Option String → List User → Option User
user_of none us = none
user_of (some id) us = find_user id us

-- `session.get(Mailbox, alert.mailbox_id) if alert.mailbox_id else None`
unfoldable pub find_mailbox : ℕ → List Mailbox → Option Mailbox
find_mailbox id [] = none
find_mailbox id (m ∷ ms) = if m.id == id then some m else find_mailbox id ms

unfoldable pub mailbox_of : Option ℕ → List Mailbox → Option Mailbox
mailbox_of none ms = none
mailbox_of (some id) ms = find_mailbox id ms

-- `mailbox and to.lower() == mailbox.address.lower()`
unfoldable pub is_attacked : (String → String) → Option Mailbox → (to : String) → Bool
is_attacked lower none to = false
is_attacked lower (some m) to = str_eq (lower to) (lower m.address)

-- One turn of the loop over the addresses of a user.
unfoldable pub usable : (String → String) → Option Mailbox → Option String → Bool
usable lower mailbox none = false
usable lower mailbox (some to) = not (str_eq to "") && not (is_attacked lower mailbox to)

unfoldable pub email_of : (String → String) → Option Mailbox → Option User → Option String
email_of lower mailbox none = none
email_of lower mailbox (some u) =
    if usable lower mailbox u.out_of_band_email
    then u.out_of_band_email
    else if usable lower mailbox (some u.email)
    then some u.email
    else none

unfoldable pub phone_of : Option User → Option String
phone_of none = none
phone_of (some u) = u.phone

-- `select(PushSubscription).where(PushSubscription.user_id == user_id)`
unfoldable pub is_of_user : Option String → PushSubscription → Bool
is_of_user none sub = false
is_of_user (some id) sub = str_eq sub.user_id id

unfoldable pub first_endpoint : List PushSubscription → Option String
first_endpoint [] = none
first_endpoint (sub ∷ subs) = some sub.endpoint

abbrev pub or_dashboard : Option String → Option String
or_dashboard none = some "dashboard"
or_dashboard (some id) = some id

-- `_destination`, for an alert about the mailbox `mailbox_id`
unfoldable pub destination :
    (String → String)
    → Directory
    → Rung
    → (user_id : Option String) → (mailbox_id : Option ℕ) → Option String
destination lower t in_app user_id mailbox_id = or_dashboard user_id
destination lower t email user_id mailbox_id =
    email_of lower (mailbox_of mailbox_id t.mailboxes) (user_of user_id t.users)
destination lower t sms user_id mailbox_id = phone_of (user_of user_id t.users)
destination lower t push user_id mailbox_id =
    first_endpoint (keep (is_of_user user_id) t.subscriptions)

-- What the loop of `_push_to_all` leaves: whether a device took it, the last error, and the subscriptions to
-- delete.
pub record Pushed : Type 0 where
  pub delivered : Bool
  pub last_error : String
  pub deleted : List PushSubscription

unfoldable pub push_loop :
    Dispatcher
    → (id : ℕ) → (delivered : Bool) (last_error : String) → List PushSubscription
    → Pushed
push_loop d id delivered last_error [] = record {
  delivered = delivered;
  last_error = last_error;
  deleted = [];
}
push_loop d id delivered last_error (sub ∷ subs) =
    let result = d.send id push sub.endpoint in
    let took = push_loop d id true last_error subs in
    let rest = push_loop d id delivered result.reason subs in
    if result.delivered
    then took
    else if result.gone
    then record rest { deleted = sub ∷ rest.deleted }
    else rest

-- `_push_to_all`: the result, and the subscriptions to delete
unfoldable pub push_to_all :
    Dispatcher
    → (id : ℕ) → (user_id : Option String) → List PushSubscription
    → SendResult × List PushSubscription
push_to_all d id user_id table =
    let subs = keep (is_of_user user_id) table in
    let pushed = push_loop d id false "web push failed" subs in
    if is_empty subs
    then (
      record { delivered = false; reason = "no destination"; cost_micros = 0; gone = false },
      [],
    )
    else (
      record {
        delivered = pushed.delivered;
        reason = if pushed.delivered then "web push sent" else pushed.last_error;
        cost_micros = 0;
        gone = false;
      },
      pushed.deleted,
    )

-- The endpoint is unique, so it tells which rows are deleted.
unfoldable pub is_endpoint_in : List PushSubscription → PushSubscription → Bool
is_endpoint_in [] sub = false
is_endpoint_in (x ∷ xs) sub = str_eq x.endpoint sub.endpoint || is_endpoint_in xs sub

-- The deletions of the loop.
unfoldable pub prune : List PushSubscription → List PushSubscription → List PushSubscription
prune deleted table = keep (λ sub. not (is_endpoint_in deleted sub)) table
