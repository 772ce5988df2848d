-- ===== src/Notify/Cycle/Attacked.antt =====
-- What an attacker in the mailbox that an alert is about does not read: the emails of `deliver_pending` and of
-- `run_escalation_cycle`, server/src/envelock/notify/dispatch.py.
use envelock.Prelude.{
  ℕ, String, Bool, true, false, not, ◌&&◌, ◌||◌, Option, none, some, List, [], ◌∷◌, ◌==◌, str_eq,
  any, All, All-append, All-mono, ◌≡◌, refl, sym, ap, ◌∙◌, subst, arith, Bool-cases, inl, inr,
  ==_iff,
}
use envelock.Notify.Ladder.{Rung, in_app, push, email, sms, EscalationPolicy, LadderDecision}
use envelock.Notify.Delivery.{
  NotificationDelivery, User, Mailbox, Directory, Dispatcher, is_attacked, usable, email_of,
  user_of, mailbox_of, destination,
}
use envelock.Notify.Dispatch.{
  Sent, Claim, is_claimed, is_push, has_destination, text_of, send_row, attempt_row,
  deliver_pending,
}
use envelock.Notify.Cycle.{
  admins_of, email_admins, address_of, send_sms, escalate, escalate_found, cycle_loop,
  run_escalation_cycle,
}
use envelock.Platform.Alerts.{
  Alert, Store, Target, EscalationStep, alert_of, change_alert, reach, mark_escalated,
  due_escalations, exists,
}

abbrev pub is_email : Rung → Bool
is_email email = true
is_email _ = false

usable-unattacked :
    (lower : String → String) (m : Option Mailbox) (o : Option String) (to : String)
    → usable lower m o ≡ true
    → o ≡ some to
    → is_attacked lower m to ≡ false
unfolding usable
usable-unattacked lower m none to h e = ground (arith, e)
usable-unattacked lower m (some x) to h e =
    subst (λ o. is_attacked lower m (text_of o) ≡ false) e (ground (arith, h))

email_of-unattacked :
    (lower : String → String) (m : Option Mailbox) (u : Option User) (to : String)
    → email_of lower m u ≡ some to
    → is_attacked lower m to ≡ false
unfolding email_of
email_of-unattacked lower m none to e = ground (arith, e)
email_of-unattacked lower m (some u) to e = elim (Bool-cases (usable lower m u.out_of_band_email)) [
  | inl h ↦ usable-unattacked lower m u.out_of_band_email to h (ground (arith, h, e))
  | inr h ↦ elim (Bool-cases (usable lower m (some u.email))) [
    | inl k ↦ usable-unattacked lower m (some u.email) to k (ground (arith, h, k, e))
    | inr k ↦ ground (arith, h, k, e)
  ]
]

send_row-sends :
    (d : Dispatcher) (t : Directory) (to : String) (row : NotificationDelivery)
    → (send_row d t to row).sends ≡ record { row_id = row.id; rung = row.rung; to = to } ∷ []
unfolding send_row
send_row-sends d t to row = elim (Bool-cases (is_push row.rung)) [
  | inl h ↦ rw h refl
  | inr h ↦ rw h refl
]

dest_avoids :
    (d : Dispatcher) (t : Directory) (rung : Rung) (user_id : Option String) (mailbox_id : Option ℕ)
    (dest : Option String)
    → destination d.lower t rung user_id mailbox_id ≡ dest
    → has_destination dest ≡ true
    → not (is_email rung)
        || not (is_attacked d.lower (mailbox_of mailbox_id t.mailboxes) (text_of dest))
      ≡ true
unfolding destination has_destination
dest_avoids d t in_app user_id mailbox_id dest e h = refl
dest_avoids d t push user_id mailbox_id dest e h = refl
dest_avoids d t sms user_id mailbox_id dest e h = refl
dest_avoids d t email user_id mailbox_id none e h = ground (arith, h)
dest_avoids d t email user_id mailbox_id (some to) e h =
    ap not (
      email_of-unattacked d.lower (mailbox_of mailbox_id t.mailboxes) (user_of user_id t.users) to
        e)

both : (a b : Bool) → a ≡ true → b ≡ true → a && b ≡ true
both a b h k = rw (h, k) refl

or_left : (a b : Bool) → a ≡ true → a || b ≡ true
or_left a b h = rw h refl

or_right : (a b : Bool) → b ≡ true → a || b ≡ true
or_right a b h = ground (arith, h)

module _ {F : Type 0} where
  abbrev mailbox_id_of : Option (Alert F) → Option ℕ
  mailbox_id_of none = none
  mailbox_id_of (some a) = a.mailbox_id

  -- The mailbox that the alert with this id is about.
  unfoldable pub mailbox_for : Directory → List (Alert F) → (alert_id : ℕ) → Option Mailbox
  mailbox_for t alerts id = mailbox_of (mailbox_id_of (alert_of id alerts)) t.mailboxes

  -- A call that is no email, or that goes elsewhere than into the mailbox that the alert is about.
  unfoldable pub avoids : Dispatcher → Directory → List (Alert F) → (alert_id : ℕ) → Sent → Bool
  avoids d t alerts id x =
      not (is_email x.rung) || not (is_attacked d.lower (mailbox_for t alerts id) x.to)

  -- The call is for one of the rows, and avoids the mailbox that the alert of the row is about.
  unfoldable pub avoids_its_row :
      Dispatcher → Directory → List (Alert F) → List NotificationDelivery → Sent → Bool
  avoids_its_row d t alerts rows x =
      any (λ row. (row.id == x.row_id) && avoids d t alerts row.alert_id x) rows

  mailbox_id-marked :
      (now id j : ℕ) (to : Target) (alerts : List (Alert F))
      → mailbox_id_of (alert_of id (change_alert j (reach now to) alerts))
        ≡ mailbox_id_of (alert_of id alerts)
  unfolding alert_of change_alert
  mailbox_id-marked now id j to [] = refl
  mailbox_id-marked now id j to (a ∷ alerts) = ground (arith, mailbox_id-marked now id j to alerts)

  mailbox_for-marked :
      (t : Directory) (now id j tenant_id : ℕ) (to : Target) (s : Store F)
      → mailbox_for t (mark_escalated now j tenant_id to s).alerts id ≡ mailbox_for t s.alerts id
  unfolding mailbox_for mark_escalated
  mailbox_for-marked t now id j tenant_id to s = elim (Bool-cases (exists (alert_of j s.alerts))) [
    | inl h ↦ rw h (ap (λ o. mailbox_of o t.mailboxes) (mailbox_id-marked now id j to s.alerts))
    | inr h ↦ rw h refl
  ]

  -- The attempt on a row.
  attempt_row-avoids :
      (d : Dispatcher) (t : Directory) (a : Option (Alert F)) (row : NotificationDelivery)
      → All
          (λ x.
            (row.id == x.row_id)
              && (not (is_email x.rung)
                  || not (is_attacked d.lower (mailbox_of (mailbox_id_of a) t.mailboxes) x.to))
            ≡ true)
          (attempt_row d t a row).sends
  unfolding attempt_row
  attempt_row-avoids d t none row = tt
  attempt_row-avoids d t (some a) row =
      let dest = destination d.lower t row.rung row.user_id a.mailbox_id in
      elim (Bool-cases (has_destination dest)) [
        | inr h ↦ rw h tt
        | inl h ↦ rw h (
            subst
              (All (λ x.
                (row.id == x.row_id)
                  && (not (is_email x.rung)
                      || not (is_attacked d.lower (mailbox_of a.mailbox_id t.mailboxes) x.to))
                ≡ true))
              (sym (send_row-sends d t (text_of dest) row))
              (
                both (row.id == row.id) _ ((==_iff row.id row.id).1 refl)
                    (dest_avoids d t row.rung row.user_id a.mailbox_id dest refl h),
                tt,
              ))
      ]

  drain_avoids :
      (d : Dispatcher) (c : Claim) (alerts : List (Alert F)) (rows : List NotificationDelivery)
      → (t : Directory)
      → All (λ x. avoids_its_row d t alerts rows x ≡ true) (deliver_pending d c alerts t rows).sends
  unfolding deliver_pending avoids_its_row avoids mailbox_for
  drain_avoids d c alerts [] t = tt
  drain_avoids d c alerts (row ∷ rows) t =
      let a = alert_of row.alert_id alerts in
      let tried = attempt_row d t a row in
      let after = record t { subscriptions = tried.subscriptions } in
      elim (Bool-cases (is_claimed c row)) [
        | inl h ↦ rw h (
            All-append _ tried.sends _
              (All-mono _ _ (λ x k. or_left _ _ k) tried.sends (attempt_row-avoids d t a row))
              (All-mono _ _ (λ x k. or_right _ _ k) _ (drain_avoids d c alerts rows after)))
        | inr h ↦ rw h (All-mono _ _ (λ x k. or_right _ _ k) _ (drain_avoids d c alerts rows t))
      ]

  emails_avoid :
      (d : Dispatcher) (t : Directory) (alerts : List (Alert F)) (id : ℕ) (admins : List User)
      → All
          (λ x. avoids d t alerts x.row_id x ≡ true)
          (email_admins d id (mailbox_for t alerts id) admins).1
  unfolding email_admins avoids
  emails_avoid d t alerts id [] = tt
  emails_avoid d t alerts id (u ∷ us) =
      elim (Bool-cases (
        str_eq (address_of u) "" || is_attacked d.lower (mailbox_for t alerts id) (address_of u))) [
          | inl h ↦ rw h (emails_avoid d t alerts id us)
          | inr h ↦ rw h (ground (arith, h), emails_avoid d t alerts id us)
        ]

  texts_avoid :
      (d : Dispatcher) (t : Directory) (alerts : List (Alert F)) (id : ℕ) (dest : Option String)
      (decision : Option LadderDecision)
      → All (λ x. avoids d t alerts x.row_id x ≡ true) (send_sms d id dest decision).1
  unfolding send_sms avoids
  texts_avoid d t alerts id none decision = tt
  texts_avoid d t alerts id (some to) none = tt
  texts_avoid d t alerts id (some to) (some decision) = (refl, tt)

  avoids-marked :
      (d : Dispatcher) (t : Directory) (now j tenant_id : ℕ) (to : Target) (s : Store F) (x : Sent)
      → avoids d t (mark_escalated now j tenant_id to s).alerts x.row_id x
        ≡ avoids d t s.alerts x.row_id x
  unfolding avoids
  avoids-marked d t now j tenant_id to s x =
      ap (λ m. not (is_email x.rung) || not (is_attacked d.lower m x.to))
        (mailbox_for-marked t now x.row_id j tenant_id to s)

  escalate_avoids :
      (d : Dispatcher) (p : EscalationPolicy) (t : Directory) (now : ℕ) (st : EscalationStep)
      (s : Store F) (a : Option (Alert F))
      → alert_of st.alert_id s.alerts ≡ a
      → All (λ x. avoids d t s.alerts x.row_id x ≡ true) (escalate_found d p t now st a s).sends
  unfolding escalate_found escalate mailbox_for avoids email_admins
  escalate_avoids d p t now st s none e = tt
  escalate_avoids d p t now st s (some a) e =
      All-append _ _ _ (texts_avoid d t s.alerts st.alert_id _ _)
        (elim (Bool-cases d.email_configured) [
          | inl h ↦ rw h (
              subst
                (λ m.
                  All (λ x. avoids d t s.alerts x.row_id x ≡ true)
                    (email_admins d st.alert_id m (admins_of a.tenant_id t.users)).1)
                (ap (λ o. mailbox_of (mailbox_id_of o) t.mailboxes) e)
                (emails_avoid d t s.alerts st.alert_id _))
          | inr h ↦ rw h tt
        ])

  avoids-escalated :
      (d : Dispatcher) (p : EscalationPolicy) (t : Directory) (now : ℕ) (st : EscalationStep)
      (s : Store F) (a : Option (Alert F)) (x : Sent)
      → avoids d t (escalate_found d p t now st a s).store.alerts x.row_id x
        ≡ avoids d t s.alerts x.row_id x
  unfolding escalate_found escalate
  avoids-escalated d p t now st s none x = refl
  avoids-escalated d p t now st s (some a) x =
      avoids-marked d t now st.alert_id a.tenant_id st.to s x

  loop_avoids :
      (d : Dispatcher) (p : EscalationPolicy) (t : Directory) (now : ℕ) (sts : List EscalationStep)
      → (s : Store F)
      → All (λ x. avoids d t s.alerts x.row_id x ≡ true) (cycle_loop d p t now sts s).sends
  unfolding cycle_loop
  loop_avoids d p t now [] s = tt
  loop_avoids d p t now (st ∷ sts) s =
      let a = alert_of st.alert_id s.alerts in
      let one = escalate_found d p t now st a s in
      All-append _ one.sends _ (escalate_avoids d p t now st s a refl) (
        All-mono _ _ (λ x h. sym (avoids-escalated d p t now st s a x) ∙ h) _
          (loop_avoids d p t now sts one.store))

  -- No email that a drain of the notifications or a cycle of escalation sends goes into the mailbox that its alert
  -- is about, in whatever case the address is written. An email of a drain is for the alert of a row with the id
  -- that it is sent for; an email of a cycle is for the alert of its step.
  pub emails_avoid_mailbox :
      (d : Dispatcher) (c : Claim) (p : EscalationPolicy) (t : Directory) (scope : Option ℕ)
      (now : ℕ) (rows : List NotificationDelivery) (s : Store F)
      → All
          (λ x. avoids_its_row d t s.alerts rows x ≡ true)
          (deliver_pending d c s.alerts t rows).sends
        × All
            (λ x. avoids d t s.alerts x.row_id x ≡ true)
            (run_escalation_cycle d p t scope now s).sends
  unfolding run_escalation_cycle
  emails_avoid_mailbox d c p t scope now rows s = (
    drain_avoids d c s.alerts rows t,
    loop_avoids d p t now (due_escalations scope now s.alerts) s,
  )
