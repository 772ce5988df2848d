-- ===== src/Notify/Cycle/Settled.antt =====
-- A cycle of escalation leaves nothing due: `run_escalation_cycle` of
-- server/src/envelock/notify/dispatch.py, with `due_escalations` and `mark_escalated` of
-- server/src/envelock/platform/alerts.py.
use envelock.Prelude.{
  ℕ, Bool, true, false, ◌&&◌, Option, none, some, List, [], ◌∷◌, ◌++◌, ◌==◌, ◌-◌, ◌/◌,
  if◌then◌else◌, All, ◌≡◌, refl, sym, ap, subst, ◌∙◌, arith, Bool-cases, Option-cases, inl, inr,
}
use envelock.Notify.Ladder.{EscalationPolicy}
use envelock.Notify.Delivery.{Directory, Dispatcher}
use envelock.Platform.Alerts.{
  Alert, Store, Target, it_admin, all_admins, EscalationStep, is_open, is_critical, in_scope,
  due_target, minutes_open_at, alert_of, change_alert, step_of, steps, due_escalations, reach,
  exists, mark_escalated,
}
use envelock.Notify.Cycle.{escalate, escalate_found, cycle_loop, run_escalation_cycle}

-- A stage that has just fired is not due again at the same time.
due_target-fired :
    (minutes : ℕ) (reached : Option Target) (t : Target)
    → due_target minutes reached ≡ some t
    → due_target minutes (some t) ≡ none
unfolding due_target
due_target-fired minutes reached all_admins h = ground arith
due_target-fired minutes none it_admin h = ground (arith, h)
due_target-fired minutes (some it_admin) it_admin h = ground (arith, h)
due_target-fired minutes (some all_admins) it_admin h = ground (arith, h)

==_self : (n : ℕ) → (n == n) ≡ true
==_self n = ground arith

==_sym : (m n : ℕ) → (m == n) ≡ false → (n == m) ≡ false
==_sym m n h = ground (arith, h)

due_nil : (F : Type 0) (scope : Option ℕ) (now : ℕ) → due_escalations {F = F} scope now [] ≡ []
unfolding due_escalations steps
due_nil F scope now = refl

module _ {F : Type 0} where
  -- The alerts with their ids: no two have the same.
  abbrev pub HasDistinctIds : List (Alert F) → Type 0
  HasDistinctIds [] = Unit
  HasDistinctIds (a ∷ rest) = (alert_of a.id rest ≡ none) × HasDistinctIds rest

  -- What the marks of some steps make of an alert.
  marks : (now : ℕ) → List EscalationStep → Alert F → Alert F
  marks now [] a = a
  marks now (st ∷ sts) a = marks now sts (if a.id == st.alert_id then reach now st.to a else a)

  mark_all : (now : ℕ) → List EscalationStep → List (Alert F) → List (Alert F)
  mark_all now sts [] = []
  mark_all now sts (a ∷ rest) = marks now sts a ∷ mark_all now sts rest

  mark_all-nil : (now : ℕ) (alerts : List (Alert F)) → mark_all now [] alerts ≡ alerts
  unfolding mark_all marks
  mark_all-nil now [] = refl
  mark_all-nil now (a ∷ rest) = ap (λ xs. a ∷ xs) (mark_all-nil now rest)

  mark_all-cons :
      (now : ℕ) (st : EscalationStep) (sts : List EscalationStep) (alerts : List (Alert F))
      → mark_all now sts (change_alert st.alert_id (reach now st.to) alerts)
        ≡ mark_all now (st ∷ sts) alerts
  unfolding mark_all marks change_alert
  mark_all-cons now st sts [] = refl
  mark_all-cons now st sts (a ∷ rest) =
      ap (λ xs. marks now (st ∷ sts) a ∷ xs) (mark_all-cons now st sts rest)

  unchanged :
      (id : ℕ) (f : Alert F → Alert F) (alerts : List (Alert F))
      → alert_of id alerts ≡ none
      → change_alert id f alerts ≡ alerts
  unfolding alert_of change_alert
  unchanged id f [] h = refl
  unchanged id f (a ∷ rest) h = ground (arith, h, unchanged id f rest)

  marked :
      (now : ℕ) (st : EscalationStep) (tenant_id : ℕ) (s : Store F)
      → exists (alert_of st.alert_id s.alerts) ≡ true
      → (mark_escalated now st.alert_id tenant_id st.to s).alerts
        ≡ change_alert st.alert_id (reach now st.to) s.alerts
  unfolding mark_escalated
  marked now st tenant_id s h = rw h refl

  found_alerts :
      (d : Dispatcher) (p : EscalationPolicy) (t : Directory) (now : ℕ) (st : EscalationStep)
      (s : Store F)
      → (escalate_found d p t now st (alert_of st.alert_id s.alerts) s).store.alerts
        ≡ change_alert st.alert_id (reach now st.to) s.alerts
  unfolding escalate_found escalate
  found_alerts d p t now st s = elim (Option-cases (alert_of st.alert_id s.alerts)) [
    | inl h ↦ rw h (sym (unchanged st.alert_id (reach now st.to) s.alerts h))
    | inr (a, h) ↦ rw h (marked now st a.tenant_id s (ap exists h))
  ]

  loop_alerts :
      (d : Dispatcher) (p : EscalationPolicy) (t : Directory) (now : ℕ) (sts : List EscalationStep)
      → (s : Store F) → (cycle_loop d p t now sts s).store.alerts ≡ mark_all now sts s.alerts
  unfolding cycle_loop
  loop_alerts d p t now [] s = sym (mark_all-nil now s.alerts)
  loop_alerts d p t now (st ∷ sts) s =
      let one = escalate_found d p t now st (alert_of st.alert_id s.alerts) s in
      loop_alerts d p t now sts one.store
      ∙ (ap (mark_all now sts) (found_alerts d p t now st s) ∙ mark_all-cons now st sts s.alerts)

  -- The stage that an alert is due for, if a sweep takes it at all.
  due_stage : Option ℕ → (now : ℕ) → Alert F → Option Target
  due_stage scope now a =
      if is_open a.state && is_critical a.tier && in_scope scope a
      then due_target (minutes_open_at now a) a.escalated_to
      else none

  taken : Option ℕ → Alert F → Bool
  taken scope a = is_open a.state && is_critical a.tier && in_scope scope a

  due_escalations-cons :
      (scope : Option ℕ) (now : ℕ) (a : Alert F) (rest : List (Alert F))
      → due_escalations scope now (a ∷ rest)
        ≡ step_of now a (due_stage scope now a) ++ due_escalations scope now rest
  unfolding due_escalations steps due_stage step_of
  due_escalations-cons scope now a rest =
      elim (Bool-cases (is_open a.state && is_critical a.tier && in_scope scope a)) [
        | inl h ↦ rw h refl
        | inr h ↦ rw h refl
      ]

  nothing_due :
      (scope : Option ℕ) (now : ℕ) (alerts : List (Alert F))
      → All (λ a. due_stage scope now a ≡ none) alerts
      → due_escalations scope now alerts ≡ []
  unfolding step_of
  nothing_due scope now [] h = due_nil F scope now
  nothing_due scope now (a ∷ rest) (h, hs) =
      due_escalations-cons scope now a rest
      ∙ (ap (λ t. step_of now a t ++ due_escalations scope now rest) h
          ∙ ap (λ xs. step_of now a none ++ xs) (nothing_due scope now rest hs))

  marks-append :
      (now : ℕ) (xs ys : List EscalationStep) (a : Alert F)
      → marks now (xs ++ ys) a ≡ marks now ys (marks now xs a)
  unfolding marks
  marks-append now [] ys a = refl
  marks-append now (x ∷ xs) ys a =
      marks-append now xs ys (if a.id == x.alert_id then reach now x.to a else a)

  marks_nil : (now : ℕ) (a : Alert F) → marks now [] a ≡ a
  unfolding marks
  marks_nil now a = refl

  reach_if-id :
      (b : Bool) (now : ℕ) (t : Target) (a : Alert F) → (if b then reach now t a else a).id ≡ a.id
  reach_if-id true now t a = refl
  reach_if-id false now t a = refl

  marks-id : (now : ℕ) (sts : List EscalationStep) (a : Alert F) → (marks now sts a).id ≡ a.id
  unfolding marks
  marks-id now [] a = refl
  marks-id now (x ∷ xs) a =
      marks-id now xs (if a.id == x.alert_id then reach now x.to a else a)
      ∙ reach_if-id (a.id == x.alert_id) now x.to a

  marks-step_of :
      (now : ℕ) (b : Alert F) (t : Option Target) (a : Alert F)
      → (b.id == a.id) ≡ false
      → marks now (step_of now b t) a ≡ a
  unfolding marks step_of
  marks-step_of now b none a h = refl
  marks-step_of now b (some t) a h = rw (==_sym b.id a.id h) refl

  alert_of-cons :
      (id : ℕ) (b : Alert F) (rest : List (Alert F))
      → alert_of id (b ∷ rest) ≡ none
      → ((b.id == id) ≡ false) × (alert_of id rest ≡ none)
  unfolding alert_of
  alert_of-cons id b rest h = ground (arith, h)

  -- The steps of some alerts mark no alert with another id.
  marks_apart :
      (scope : Option ℕ) (now : ℕ) (alerts : List (Alert F)) (a : Alert F)
      → alert_of a.id alerts ≡ none
      → marks now (due_escalations scope now alerts) a ≡ a
  marks_apart scope now [] a h = ap (λ sts. marks now sts a) (due_nil F scope now) ∙ marks_nil now a
  marks_apart scope now (b ∷ rest) a h =
      let (apart, later) = alert_of-cons a.id b rest h in
      ap (λ sts. marks now sts a) (due_escalations-cons scope now b rest)
      ∙ (marks-append now (step_of now b (due_stage scope now b)) (due_escalations scope now rest) a
          ∙ (ap (marks now (due_escalations scope now rest))
                (marks-step_of now b (due_stage scope now b) a apart)
              ∙ marks_apart scope now rest a later))

  abbrev IsSettled : Option ℕ → (now : ℕ) → List (Alert F) → Alert F → Type 0
  IsSettled scope now alerts a =
      due_stage scope now (marks now (due_escalations scope now alerts) a) ≡ none

  in_scope-reach :
      (scope : Option ℕ) (now : ℕ) (t : Target) (b : Alert F)
      → in_scope scope (reach now t b) ≡ in_scope scope b
  in_scope-reach none now t b = refl
  in_scope-reach (some id) now t b = refl

  step_settles :
      (scope : Option ℕ) (now : ℕ) (b : Alert F) (t : Option Target)
      → due_stage scope now b ≡ t
      → due_stage scope now (marks now (step_of now b t) b) ≡ none
  unfolding marks step_of due_stage minutes_open_at
  step_settles scope now b none h = h
  step_settles scope now b (some t) h =
      let fired = due_target-fired ((now - b.created_at) / 60) b.escalated_to t in
      rw (==_self b.id, in_scope-reach scope now t b)
        (elim (Bool-cases (is_open b.state && is_critical b.tier && in_scope scope b)) [
          | inl k ↦ rw k (fired (ground (arith, h, k)))
          | inr k ↦ rw k refl
        ])

  head_settles :
      (scope : Option ℕ) (now : ℕ) (b : Alert F) (rest : List (Alert F))
      → alert_of b.id rest ≡ none
      → IsSettled scope now (b ∷ rest) b
  head_settles scope now b rest h =
      let t = due_stage scope now b in
      let b' = marks now (step_of now b t) b in
      let same = subst (λ id. alert_of id rest ≡ none) (sym (marks-id now (step_of now b t) b)) h in
      ap (λ sts. due_stage scope now (marks now sts b)) (due_escalations-cons scope now b rest)
      ∙ (ap (due_stage scope now) (
            marks-append now (step_of now b t) (due_escalations scope now rest) b
            ∙ marks_apart scope now rest b' same)
          ∙ step_settles scope now b t refl)

  tail_settles :
      (scope : Option ℕ) (now : ℕ) (b : Alert F) (rest xs : List (Alert F))
      → alert_of b.id xs ≡ none
      → All (IsSettled scope now rest) xs
      → All (IsSettled scope now (b ∷ rest)) xs
  tail_settles scope now b rest [] h k = tt
  tail_settles scope now b rest (a ∷ xs) h (k, ks) =
      let (apart, later) = alert_of-cons b.id a xs h in
      let t = due_stage scope now b in
      (
        ap (λ sts. due_stage scope now (marks now sts a)) (due_escalations-cons scope now b rest)
            ∙ (ap (due_stage scope now) (
                  marks-append now (step_of now b t) (due_escalations scope now rest) a
                  ∙ ap (marks now (due_escalations scope now rest))
                      (marks-step_of now b t a (==_sym a.id b.id apart)))
                ∙ k),
        tail_settles scope now b rest xs later ks,
      )

  everything_settles :
      (scope : Option ℕ) (now : ℕ) (alerts : List (Alert F))
      → HasDistinctIds alerts
      → All (IsSettled scope now alerts) alerts
  everything_settles scope now [] h = tt
  everything_settles scope now (b ∷ rest) (h, hs) = (
    head_settles scope now b rest h,
    tail_settles scope now b rest rest h (everything_settles scope now rest hs),
  )

  settled_marks :
      (scope : Option ℕ) (now : ℕ) (sts : List EscalationStep) (alerts : List (Alert F))
      → All (λ a. due_stage scope now (marks now sts a) ≡ none) alerts
      → All (λ a. due_stage scope now a ≡ none) (mark_all now sts alerts)
  unfolding mark_all
  settled_marks scope now sts [] h = tt
  settled_marks scope now sts (a ∷ rest) (h, hs) = (h, settled_marks scope now sts rest hs)

  -- After a cycle no alert in its scope is due at the same time: the next cycle does not fire a stage again,
  -- whatever the senders did. The ids of the alerts are distinct.
  pub cycle_leaves_nothing_due :
      (d : Dispatcher) (p : EscalationPolicy) (t : Directory) (scope : Option ℕ) (now : ℕ)
      (s : Store F)
      → HasDistinctIds s.alerts
      → due_escalations scope now (run_escalation_cycle d p t scope now s).store.alerts ≡ []
  unfolding run_escalation_cycle
  cycle_leaves_nothing_due d p t scope now s h =
      let sts = due_escalations scope now s.alerts in
      ap (due_escalations scope now) (loop_alerts d p t now sts s)
      ∙ nothing_due scope now (mark_all now sts s.alerts)
          (settled_marks scope now sts s.alerts (everything_settles scope now s.alerts h))
