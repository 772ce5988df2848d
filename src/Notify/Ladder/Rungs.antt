-- ===== src/Notify/Ladder/Rungs.antt =====
-- Exactly when each rung fires, and that the paid one stays behind the free ones.
use envelock.Prelude.{
  ℕ, ◌+◌, ◌≤◌, ◌≡◌, ◌↔◌, ◌≢◌, ◌⊎◌, Bool, true, false, not, ◌&&◌, none, some, List, arith, any,
}
use envelock.Core.{AlertTier, critical}
use envelock.Notify.Ladder.{
  Rung, in_app, push, email, sms, Recipient, EscalationPolicy, given, is_critical, at_least_high,
  at_least_medium, initial_rungs, should_escalate_to_sms,
}

abbrev pub same_rung : Rung → Rung → Bool
same_rung in_app in_app = true
same_rung push push = true
same_rung email email = true
same_rung sms sms = true
same_rung _ _ = false

-- `rung in decision.rungs`
abbrev pub fires : Rung → List Rung → Bool
fires r rungs = any (same_rung r) rungs

-- The moment an alert is raised: the dashboard always; push for Medium and up, where there is a
-- subscription; mail for High and up, where there is an address; the paid text message only for a
-- Critical to a recipient with a number and no sensor.
pub initial_rungs_exact :
    (tier : AlertTier) (r : Recipient)
    → let rungs = (initial_rungs tier r).rungs in
      (fires in_app rungs ≡ true)
      × (fires push rungs ≡ (at_least_medium tier && r.has_push_subscription))
      × (fires email rungs ≡ (at_least_high tier && given r.out_of_band_email))
      × (fires sms rungs ≡ (is_critical tier && not r.has_sensor && given r.phone))
unfolding initial_rungs
initial_rungs_exact tier r = ground arith

-- An alert is escalated to the paid rung exactly when it is not acknowledged, there is a number, and
-- either it is Critical and as old as the policy says, or enough notifications lie unacknowledged.
pub escalates_iff :
    (tier : AlertTier) (raised_at now : ℕ) (acknowledged : Bool) (unacked_total : ℕ) (r : Recipient)
    (policy : EscalationPolicy)
    → (should_escalate_to_sms tier raised_at now acknowledged unacked_total r (some policy) ≢ none)
      ↔ ((acknowledged ≡ false)
          × (given r.phone ≡ true)
          × (((tier ≡ critical) × (raised_at + policy.critical_after_seconds ≤ now))
              ⊎ (policy.unacked_count ≤ unacked_total)))
unfolding should_escalate_to_sms
escalates_iff tier raised_at now acknowledged unacked_total r policy = ground arith
