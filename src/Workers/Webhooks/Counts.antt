-- ===== src/Workers/Webhooks/Counts.antt =====
-- The summary of a drain of the webhook queue, and how many deliveries it takes.
use envelock.Prelude.{
  ℕ, ◌≡◌, refl, ◌≤◌, ◌+◌, Bool, true, false, Option, none, some, List, [], ◌∷◌, arith, Bool-cases,
  inl, inr, length, length-take, keep,
}
use envelock.Workers.Webhooks.{World}
use envelock.Workers.Webhooks.Queue.{
  Delivery, Endpoint, attempt_delivery, settle, reschedule, next_retry_delay, Summary, drain_loop,
  drain, due_deliveries, no_summary, is_ended, is_due, sort_deliveries, endpoint_of, store,
}

-- The sum of the three ways that an attempt is counted.
abbrev pub outcomes : Summary → ℕ
outcomes s = s.delivered_count + s.retrying + s.failed_count

reschedule-outcomes :
    (now : ℕ) (delay : Option ℕ) (d : Delivery) (s : Summary)
    → outcomes (reschedule now delay d s).1 ≡ outcomes s + 1
unfolding reschedule
reschedule-outcomes now none d s = omega arith
reschedule-outcomes now (some delay) d s = omega arith

settle-outcomes :
    (now : ℕ) (ok : Bool) (d : Delivery) (s : Summary)
    → outcomes (settle now ok d s).1 ≡ outcomes s + 1
unfolding settle
settle-outcomes now true d s = omega arith
settle-outcomes now false d s = elim (Bool-cases (is_ended d.status)) [
  | inl h ↦ rw h (omega arith)
  | inr h ↦ rw h (
      reschedule-outcomes now (next_retry_delay (d.attempt + 1))
        (record d { attempt = d.attempt + 1; last_attempt_at = some now }) s)
]

reschedule-attempted :
    (now : ℕ) (delay : Option ℕ) (d : Delivery) (s : Summary)
    → (reschedule now delay d s).1.attempted ≡ s.attempted
unfolding reschedule
reschedule-attempted now none d s = refl
reschedule-attempted now (some delay) d s = refl

settle-attempted :
    (now : ℕ) (ok : Bool) (d : Delivery) (s : Summary)
    → (settle now ok d s).1.attempted ≡ s.attempted
unfolding settle
settle-attempted now true d s = refl
settle-attempted now false d s = elim (Bool-cases (is_ended d.status)) [
  | inl h ↦ rw h refl
  | inr h ↦ rw h (
      reschedule-attempted now (next_retry_delay (d.attempt + 1))
        (record d { attempt = d.attempt + 1; last_attempt_at = some now }) s)
]

module _ (w : World) (now : ℕ) where
  drain_loop-counts :
      (es : List Endpoint) (s : Summary) (due : List Delivery)
      → ((drain_loop w now es s due).summary.attempted ≡ s.attempted + length due)
        × (outcomes (drain_loop w now es s due).summary ≡ outcomes s + length due)
  unfolding drain_loop
  drain_loop-counts es s [] = (omega arith, omega arith)
  drain_loop-counts es s (d ∷ due) =
      let tried = attempt_delivery w now (endpoint_of d.endpoint_id es) d in
      let counted : Summary = record s { attempted = s.attempted + 1 } in
      let settled = settle now tried.ok tried.delivery counted in
      let rest = drain_loop-counts (store tried.endpoint es) settled.1 due in
      (
        omega (arith, rest.0, settle-attempted now tried.ok tried.delivery counted),
        omega (arith, rest.1, settle-outcomes now tried.ok tried.delivery counted),
      )

  -- The summary of `drain` counts each delivery that was due, at most 50 of them, once as attempted and
  -- once as delivered, retrying or failed.
  pub drain_counts :
      (es : List Endpoint) (ds : List Delivery)
      → ((drain w now es ds).summary.attempted ≡ length (due_deliveries now ds))
        × ((drain w now es ds).summary.delivered_count
              + (drain w now es ds).summary.retrying
              + (drain w now es ds).summary.failed_count
            ≡ length (due_deliveries now ds))
        × (length (due_deliveries now ds) ≤ 50)
  unfolding drain due_deliveries
  drain_counts es ds =
      let counts = drain_loop-counts es no_summary (due_deliveries now ds) in
      (
        omega (arith, counts.0),
        omega (arith, counts.1),
        omega (arith, length-take 50 (sort_deliveries (keep (is_due now) ds))),
      )
