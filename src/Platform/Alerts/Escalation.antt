-- ===== src/Platform/Alerts/Escalation.antt =====
-- The escalation of alerts that nobody acknowledges: what stops it, and how often it fires.
use envelock.Prelude.{
  ℕ, ◌≡◌, refl, Bool, true, false, ◌&&◌, ◌||◌, Option, none, some, List, [], ◌∷◌, ◌++◌, arith, ◌==◌,
  Bool-cases, inl, inr, ◌⊎◌, any, keep, leb, ◌∙◌,
}
use envelock.Platform.Alerts.{
  Alert, Store, acked, is_open, is_critical, Target, it_admin, all_admins, due_target,
  minutes_open_at, alert_of, change_alert, owned, acknowledge, EscalationStep, step_of, steps,
  in_scope, due_escalations,
}

-- The stages that an alert reaches, over sweeps that find it open for these minutes: each sweep that is
-- due fires the stage and marks it.
unfoldable pub fired : List ℕ → Option Target → List Target
fired [] reached = []
fired (minutes ∷ later) reached =
    fire (due_target minutes reached) (fired later reached) (fired later (some it_admin))
      (fired later (some all_admins))
  where
    fire : Option Target → List Target → List Target → List Target → List Target
    fire none same admin all = same
    fire (some it_admin) same admin all = it_admin ∷ admin
    fire (some all_admins) same admin all = all_admins ∷ all

fired_all : (ms : List ℕ) → fired ms (some all_admins) ≡ []
unfolding fired due_target
fired_all [] = refl
fired_all (m ∷ ms) = ground (arith, fired_all ms)

fired_admin :
    (ms : List ℕ) → (fired ms (some it_admin) ≡ []) ⊎ (fired ms (some it_admin) ≡ all_admins ∷ [])
unfolding fired due_target
fired_admin [] = inl refl
fired_admin (m ∷ ms) = elim (Bool-cases (leb 60 m)) [
  | inl h ↦ inr (ground (arith, h, fired_all ms))
  | inr h ↦
      let waits : due_target m (some it_admin) ≡ none = ground (arith, h) in
      rw waits (fired_admin ms)
]

-- Each stage fires at most once: over any sweeps, an alert that has reached no stage fires none, one of
-- the two, or the first and then the second.
pub escalations_once :
    (ms : List ℕ)
    → (fired ms none ≡ [])
      ⊎ (fired ms none ≡ it_admin ∷ [])
      ⊎ (fired ms none ≡ all_admins ∷ [])
      ⊎ (fired ms none ≡ it_admin ∷ all_admins ∷ [])
unfolding fired due_target
escalations_once [] = inl refl
escalations_once (m ∷ ms) = elim (Bool-cases (leb 60 m)) [
  | inl h ↦ inr (inr (inl (ground (arith, h, fired_all ms))))
  | inr h ↦ elim (Bool-cases (leb 15 m)) [
    | inl g ↦
        let first : due_target m none ≡ some it_admin = ground (arith, h, g) in
        elim (fired_admin ms) [
          | inl e ↦ inr (inl (rw (first, e) refl))
          | inr e ↦ inr (inr (inr (rw (first, e) refl)))
        ]
    | inr g ↦
        let waits : due_target m none ≡ none = ground (arith, h, g) in
        rw waits (escalations_once ms)
  ]
]

abbrev names : ℕ → List EscalationStep → Bool
names id ss = any (λ s. s.alert_id == id) ss

names-append :
    (id : ℕ) (xs ys : List EscalationStep) → names id (xs ++ ys) ≡ (names id xs || names id ys)
names-append id [] ys = refl
names-append id (x ∷ xs) ys = ground (arith, names-append id xs ys)

both_false : {a b : Bool} → a ≡ false → b ≡ false → (a || b) ≡ false
both_false ha hb = ground (arith, ha, hb)

module _ {F : Type 0} where
  names-step_of :
      (id now : ℕ) (a : Alert F) (t : Option Target)
      → (a.id == id) ≡ false
      → names id (step_of now a t) ≡ false
  unfolding step_of
  names-step_of id now a none h = refl
  names-step_of id now a (some t) h = rw h refl

  abbrev acknowledges : ℕ → ℕ → Alert F → Alert F
  acknowledges now actor a = record a {
    state = acked;
    acknowledged_at = some now;
    acknowledged_by = some actor;
  }

  -- No step names an alert that has been acknowledged.
  names-steps :
      (id now at actor : ℕ) (tenant_id : Option ℕ) (alerts : List (Alert F))
      → names id (
          steps now (
            keep
              (λ a. is_open a.state && is_critical a.tier && in_scope tenant_id a)
              (change_alert id (acknowledges at actor) alerts)))
        ≡ false
  unfolding steps change_alert
  names-steps id now at actor tenant_id [] = refl
  names-steps id now at actor tenant_id (a ∷ rest) =
      let later = names-steps id now at actor tenant_id rest in
      elim (Bool-cases (a.id == id)) [
        | inl e ↦ rw e later
        | inr e ↦
            elim (Bool-cases (is_open a.state && is_critical a.tier && in_scope tenant_id a)) [
              | inr k ↦ rw (e, k) later
              | inl k ↦
                  rw (e, k)
                    (names-append id
                        (step_of now a (due_target (minutes_open_at now a) a.escalated_to))
                        (steps now (
                          keep (λ b. is_open b.state && is_critical b.tier && in_scope tenant_id b)
                            (change_alert id (acknowledges at actor) rest)))
                      ∙ both_false
                          (names-step_of id now a
                            (due_target (minutes_open_at now a) a.escalated_to) e)
                          later)
            ]
      ]

  alerts-acknowledge :
      (at alert_id tenant_id actor_id : ℕ) (s : Store F)
      → (acknowledge at alert_id tenant_id actor_id s).0 ≡ true
      → (acknowledge at alert_id tenant_id actor_id s).1.alerts
        ≡ change_alert alert_id (acknowledges at actor_id) s.alerts
  unfolding acknowledge
  alerts-acknowledge at alert_id tenant_id actor_id s h =
      elim (Bool-cases (owned tenant_id (alert_of alert_id s.alerts))) [
        | inl g ↦ rw g refl
        | inr g ↦ ground (arith, h, g)
      ]

-- Acknowledgement stops the clock: after `acknowledge` has answered an alert, no sweep at any time and
-- for any tenants names it.
pub acknowledged_not_due :
    {F : Type 0} (at alert_id tenant_id actor_id : ℕ) (s : Store F)
    → (acknowledge at alert_id tenant_id actor_id s).0 ≡ true
    → (scope : Option ℕ) (now : ℕ)
    → any
        (λ e. e.alert_id == alert_id)
        (due_escalations scope now (acknowledge at alert_id tenant_id actor_id s).1.alerts)
      ≡ false
unfolding due_escalations
acknowledged_not_due at alert_id tenant_id actor_id s h scope now =
    rw (alerts-acknowledge at alert_id tenant_id actor_id s h)
      (names-steps alert_id now at actor_id scope s.alerts)
