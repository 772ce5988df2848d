-- ===== src/Notify/Cycle/Reach.antt =====
-- Whom a cycle of escalation reaches: `run_escalation_cycle` of server/src/envelock/notify/dispatch.py.
use envelock.Prelude.{
  ℕ, String, Bool, true, false, ◌&&◌, ◌||◌, Option, none, some, List, [], ◌∷◌, ◌==◌, str_eq, any,
  All, All-append, ◌≡◌, refl, arith, Bool-cases, inl, inr, eq_iff,
}
use envelock.Notify.Ladder.{Rung, email, sms, EscalationPolicy, LadderDecision, given}
use envelock.Notify.Delivery.{User, Mailbox, Directory, Dispatcher, is_attacked}
use envelock.Notify.Dispatch.{Sent}
use envelock.Platform.Alerts.{Alert, Store, EscalationStep, alert_of, due_escalations}
use envelock.Notify.Cycle.{
  admins_of, sms_dest, address_of, email_admins, send_sms, escalate, escalate_found, cycle_loop,
  run_escalation_cycle,
}

abbrev is_number : Option String → String → Bool
is_number none to = false
is_number (some phone) to = str_eq phone to

-- The number of an active administrator of some tenant who has proven to hold it.
unfoldable pub is_proven : List User → String → Bool
is_proven users to =
    any (λ u. u.is_admin && u.is_active && u.phone_verified && is_number u.phone to) users

-- An email, or a text message to a proven number.
abbrev trusts : List User → (to : String) → Rung → Bool
trusts users to email = true
trusts users to sms = is_proven users to
trusts users to _ = false

unfoldable pub is_trusted : List User → Sent → Bool
is_trusted users s = trusts users s.to s.rung

number_self : (o : Option String) (to : String) → o ≡ some to → is_number o to ≡ true
number_self none to h = ground (arith, h)
number_self (some phone) to h = ground (arith, h, eq_iff phone to)

sms_dest-proven :
    (tenant_id : ℕ) (users : List User) (to : String)
    → sms_dest (admins_of tenant_id users) ≡ some to
    → is_proven users to ≡ true
unfolding sms_dest admins_of is_proven
sms_dest-proven tenant_id [] to h = ground (arith, h)
sms_dest-proven tenant_id (u ∷ us) to h =
    let later = sms_dest-proven tenant_id us to in
    elim (Bool-cases (u.tenant_id == tenant_id && u.is_admin && u.is_active)) [
      | inl c ↦ elim (Bool-cases (given u.phone && u.phone_verified)) [
        | inl v ↦ ground (arith, c, v, number_self u.phone to (ground (arith, h, c, v)))
        | inr v ↦ ground (arith, later (ground (arith, h, c, v)))
      ]
      | inr c ↦ ground (arith, later (ground (arith, h, c)))
    ]

module _ (users : List User) where
  emails_trusted :
      (d : Dispatcher) (id : ℕ) (m : Option Mailbox) (admins : List User)
      → All (λ s. is_trusted users s ≡ true) (email_admins d id m admins).1
  unfolding email_admins is_trusted
  emails_trusted d id m [] = tt
  emails_trusted d id m (u ∷ us) =
      elim (Bool-cases (str_eq (address_of u) "" || is_attacked d.lower m (address_of u))) [
        | inl h ↦ rw h (emails_trusted d id m us)
        | inr h ↦ rw h (refl, emails_trusted d id m us)
      ]

  texts_trusted :
      (d : Dispatcher) (id : ℕ) (dest : Option String) (decision : Option LadderDecision)
      → ((to : String) → dest ≡ some to → is_proven users to ≡ true)
      → All (λ s. is_trusted users s ≡ true) (send_sms d id dest decision).1
  unfolding send_sms is_trusted
  texts_trusted d id none decision h = tt
  texts_trusted d id (some to) none h = tt
  texts_trusted d id (some to) (some decision) h = (h to refl, tt)

module _ {F : Type 0} where
  escalate_trusted :
      (d : Dispatcher) (p : EscalationPolicy) (t : Directory) (now : ℕ) (st : EscalationStep)
      → (a : Option (Alert F)) (s : Store F)
      → All (λ x. is_trusted t.users x ≡ true) (escalate_found d p t now st a s).sends
  unfolding escalate_found escalate email_admins
  escalate_trusted d p t now st none s = tt
  escalate_trusted d p t now st (some a) s =
      All-append (λ x. is_trusted t.users x ≡ true) _ _
        (texts_trusted t.users d st.alert_id _ _ (sms_dest-proven a.tenant_id t.users))
        (elim (Bool-cases d.email_configured) [
          | inl h ↦ rw h (emails_trusted t.users d st.alert_id _ _)
          | inr h ↦ rw h tt
        ])

  loop_trusted :
      (d : Dispatcher) (p : EscalationPolicy) (t : Directory) (now : ℕ) (sts : List EscalationStep)
      → (s : Store F) → All (λ x. is_trusted t.users x ≡ true) (cycle_loop d p t now sts s).sends
  unfolding cycle_loop
  loop_trusted d p t now [] s = tt
  loop_trusted d p t now (st ∷ sts) s =
      let one = escalate_found d p t now st (alert_of st.alert_id s.alerts) s in
      All-append (λ x. is_trusted t.users x ≡ true) one.sends _
        (escalate_trusted d p t now st (alert_of st.alert_id s.alerts) s)
        (loop_trusted d p t now sts one.store)

  -- Everything that a cycle sends is an email, or a text message to a number that an active administrator has
  -- proven to hold.
  pub texts_only_proven :
      (d : Dispatcher) (p : EscalationPolicy) (t : Directory) (scope : Option ℕ) (now : ℕ)
      (s : Store F)
      → All (λ x. is_trusted t.users x ≡ true) (run_escalation_cycle d p t scope now s).sends
  unfolding run_escalation_cycle
  texts_only_proven d p t scope now s =
      loop_trusted d p t now (due_escalations scope now s.alerts) s
