-- ===== src/Notify/Ladder.antt =====
-- Which rungs of the ladder an alert fires: server/src/envelock/notify/ladder.py. An address or a
-- number that Python takes for false (none, or the empty text) is no address.
pub mod Rungs
use Prim.Native.String
use envelock.Prelude.{
  ℕ, ◌+◌, ◌*◌, ◌/◌, String, Bool, true, false, not, ◌&&◌, ◌||◌, Option, none, some, List, [], ◌∷◌,
  ◌++◌, leb, str_eq, if◌then◌else◌,
}
use envelock.Core.{AlertTier, low, medium, high, critical}

pub data Rung : Type 0 where
  in_app push email sms : Rung

pub record Recipient : Type 0 where
  pub user_id : String
  pub is_admin : Bool
  pub has_push_subscription : Bool
  pub out_of_band_email : Option String
  pub phone : Option String
  pub has_sensor : Bool

pub data Reason : Type 0 where
  always high_or_critical no_sensor : Reason
  unacknowledged_for : (minutes : ℕ) → Reason
  unacknowledged_total : (count : ℕ) → Reason

pub record LadderDecision : Type 0 where
  pub rungs : List Rung
  pub reason : Reason

pub record EscalationPolicy : Type 0 where
  pub critical_after_seconds : ℕ
  pub unacked_count : ℕ

abbrev pub default_policy : EscalationPolicy
default_policy = record { critical_after_seconds = 900; unacked_count = 5 }

-- The truth value of an optional text.
abbrev pub given : Option String → Bool
given none = false
given (some s) = not (str_eq s "")

abbrev pub is_critical : AlertTier → Bool
is_critical critical = true
is_critical _ = false

abbrev pub at_least_high : AlertTier → Bool
at_least_high high = true
at_least_high critical = true
at_least_high _ = false

abbrev pub at_least_medium : AlertTier → Bool
at_least_medium low = false
at_least_medium _ = true

-- `initial_rungs`, one `if` after the other
unfoldable pub push_rungs : AlertTier → Recipient → List Rung
push_rungs tier recipient =
    if at_least_medium tier && recipient.has_push_subscription then push ∷ [] else []

unfoldable pub email_rungs : AlertTier → Recipient → List Rung
email_rungs tier recipient =
    if at_least_high tier && given recipient.out_of_band_email then email ∷ [] else []

unfoldable pub sms_rungs : AlertTier → Recipient → List Rung
sms_rungs tier recipient =
    if is_critical tier && not recipient.has_sensor && given recipient.phone then sms ∷ [] else []

unfoldable pub initial_reason : AlertTier → Recipient → Reason
initial_reason tier recipient =
    if is_critical tier && not recipient.has_sensor && given recipient.phone
    then no_sensor
    else if at_least_high tier && given recipient.out_of_band_email
    then high_or_critical
    else always

-- `initial_rungs`
unfoldable pub initial_rungs : AlertTier → Recipient → LadderDecision
unfolding push_rungs email_rungs sms_rungs initial_reason
initial_rungs tier recipient = record {
  rungs =
      in_app
      ∷ (push_rungs tier recipient ++ (email_rungs tier recipient ++ sms_rungs tier recipient));
  reason = initial_reason tier recipient;
}

-- `should_escalate_to_sms`; times are in seconds, and a policy of `None` is the default one
abbrev policy_of : Option EscalationPolicy → EscalationPolicy
policy_of none = default_policy
policy_of (some policy) = policy

unfoldable pub should_escalate_to_sms :
    AlertTier
    → (raised_at now : ℕ) → (acknowledged : Bool) → (unacked_total : ℕ) → Recipient
    → Option EscalationPolicy
    → Option LadderDecision
should_escalate_to_sms tier raised_at now acknowledged unacked_total recipient chosen =
    let policy = policy_of chosen in
    if acknowledged || not (given recipient.phone)
    then none
    else if is_critical tier && leb (raised_at + policy.critical_after_seconds) now
    then some (record {
      rungs = sms ∷ [];
      reason = unacknowledged_for (policy.critical_after_seconds / 60);
    })
    else if leb policy.unacked_count unacked_total
    then some (record { rungs = sms ∷ []; reason = unacknowledged_total unacked_total })
    else none
