-- ===== src/Notify/Cycle.antt =====
-- The escalation of alerts that nobody acknowledges: `run_escalation_cycle` of
-- server/src/envelock/notify/dispatch.py.
pub mod Settled
pub mod Reach
pub mod Attacked
use envelock.Prelude.{
  ℕ, ◌+◌, String, Bool, true, false, not, ◌&&◌, ◌||◌, Option, none, some, List, [], ◌∷◌, ◌++◌, ◌==◌,
  str_eq, keep, if◌then◌else◌, count_if,
}
use envelock.Notify.Ladder.{
  Rung, email, sms, Recipient, LadderDecision, EscalationPolicy, given, should_escalate_to_sms,
}
use envelock.Notify.Delivery.{
  User, Mailbox, Directory, SendResult, Dispatcher, mailbox_of, is_attacked,
}
use envelock.Notify.Dispatch.{Sent}
use envelock.Platform.Alerts.{
  Alert, Store, Target, EscalationStep, is_open, alert_of, due_escalations, mark_escalated,
}

-- One entry of what the cycle answers.
pub record Escalated : Type 0 where
  pub alert_id : ℕ
  pub to : Target
  pub minutes_open : ℕ
  pub sms_sent : Bool
  pub emails_sent : ℕ

-- The query for the administrators of a tenant.
unfoldable pub admins_of : (tenant_id : ℕ) → List User → List User
admins_of tenant_id users = keep (λ u. u.tenant_id == tenant_id && u.is_admin && u.is_active) users

-- `admin.phone and admin.phone_verified`, for the first that has it
unfoldable pub sms_dest : List User → Option String
sms_dest [] = none
sms_dest (admin ∷ admins) =
    let rest = sms_dest admins in
    if given admin.phone && admin.phone_verified then admin.phone else rest

-- The recipient that the cycle asks the ladder about.
unfoldable pub admin_recipient : String → Recipient
admin_recipient phone = record {
  user_id = "";
  is_admin = true;
  has_push_subscription = false;
  out_of_band_email = none;
  phone = some phone;
  has_sensor = false;
}

-- `admin.out_of_band_email or admin.email`
unfoldable pub address_of : User → String
address_of u = or_email u.out_of_band_email
  where
    or_email : Option String → String
    or_email none = u.email
    or_email (some to) = if str_eq to "" then u.email else to

-- The loop over the administrators that sends the emails: how many were delivered, and the calls.
unfoldable pub email_admins :
    Dispatcher → (alert_id : ℕ) → Option Mailbox → List User → ℕ × List Sent
email_admins d id mailbox [] = (0, [])
email_admins d id mailbox (admin ∷ admins) =
    let to = address_of admin in
    let rest = email_admins d id mailbox admins in
    let call : Sent = record { row_id = id; rung = email; to = to } in
    if str_eq to "" || is_attacked d.lower mailbox to
    then rest
    else (rest.0 + (if (d.send id email to).delivered then 1 else 0), call ∷ rest.1)

-- The sending of the text message: whether it was delivered, and the calls.
unfoldable pub send_sms :
    Dispatcher → (alert_id : ℕ) → Option String → Option LadderDecision → Bool × List Sent
send_sms d id none decision = (false, [])
send_sms d id (some to) none = (false, [])
send_sms d id (some to) (some decision) =
    ((d.send id sms to).delivered, record { row_id = id; rung = sms; to = to } ∷ [])

-- What the cycle leaves.
pub record Cycled (F : Type 0) : Type 0 where
  pub store : Store F
  pub done : List Escalated
  pub sends : List Sent

module _ {F : Type 0} where
  -- The alerts of a tenant that are open and not acknowledged.
  unfoldable pub unacked : (tenant_id : ℕ) → List (Alert F) → ℕ
  unacked tenant_id alerts =
      count_if (λ a. a.tenant_id == tenant_id && is_open a.state && is_none a.acknowledged_at)
        alerts
    where
      is_none : Option ℕ → Bool
      is_none none = true
      is_none (some t) = false

  unfoldable pub is_acknowledged : Alert F → Bool
  is_acknowledged a = acknowledged a.acknowledged_at
    where
      acknowledged : Option ℕ → Bool
      acknowledged none = false
      acknowledged (some t) = true

  -- The decision on the paid rung.
  unfoldable pub decide :
      EscalationPolicy
      → (now : ℕ) → List (Alert F)
      → Alert F
      → Option String
      → Option LadderDecision
  decide policy now alerts a none = none
  decide policy now alerts a (some phone) =
      should_escalate_to_sms a.tier a.created_at now (is_acknowledged a)
        (unacked a.tenant_id alerts) (admin_recipient phone) (some policy)

  -- The body of the loop, for the alert of a step.
  unfoldable pub escalate :
      Dispatcher
      → EscalationPolicy
      → Directory
      → (now : ℕ) → EscalationStep
      → Alert F
      → Store F
      → Cycled F
  escalate d policy t now step alert s =
      let marked = mark_escalated now step.alert_id alert.tenant_id step.to s in
      let admins = admins_of alert.tenant_id t.users in
      let dest = sms_dest admins in
      let text = send_sms d step.alert_id dest (decide policy now marked.alerts alert dest) in
      let mailbox = mailbox_of alert.mailbox_id t.mailboxes in
      let mails =
        if d.email_configured then email_admins d step.alert_id mailbox admins else (0, []) in
      record {
        store = marked;
        done =
            record {
              alert_id = step.alert_id;
              to = step.to;
              minutes_open = step.minutes_open;
              sms_sent = text.0;
              emails_sent = mails.0;
            }
            ∷ [];
        sends = text.1 ++ mails.1;
      }

  unfoldable pub escalate_found :
      Dispatcher
      → EscalationPolicy
      → Directory
      → (now : ℕ) → EscalationStep
      → Option (Alert F)
      → Store F
      → Cycled F
  escalate_found d policy t now step none s = record { store = s; done = []; sends = [] }
  escalate_found d policy t now step (some alert) s = escalate d policy t now step alert s

  -- The loop over the steps.
  unfoldable pub cycle_loop :
      Dispatcher
      → EscalationPolicy
      → Directory
      → (now : ℕ) → List EscalationStep
      → Store F
      → Cycled F
  cycle_loop d policy t now [] s = record { store = s; done = []; sends = [] }
  cycle_loop d policy t now (step ∷ steps) s =
      let one = escalate_found d policy t now step (alert_of step.alert_id s.alerts) s in
      let rest = cycle_loop d policy t now steps one.store in
      record { store = rest.store; done = one.done ++ rest.done; sends = one.sends ++ rest.sends }

  -- `run_escalation_cycle`
  unfoldable pub run_escalation_cycle :
      Dispatcher
      → EscalationPolicy
      → Directory
      → (tenant_id : Option ℕ) (now : ℕ) → Store F
      → Cycled F
  run_escalation_cycle d policy t tenant_id now s =
      cycle_loop d policy t now (due_escalations tenant_id now s.alerts) s
