-- ===== src/Platform/Alerts/Fanout.antt =====
-- What a raised alert sets off: `raise_alert` of server/src/envelock/platform/alerts.py, with the ladder, the
-- webhook queue and `deliver_pending`.
use envelock.Prelude.{
  ℕ, ◌+◌, String, Bool, not, ◌&&◌, List, [], ◌∷◌, ◌++◌, ◌==◌, keep, if◌then◌else◌, length, count_if,
  count_if-append, All, ◌≡◌, refl, ap, arith, Bool-cases, inl, inr,
}
use envelock.Core.{AlertTier}
use envelock.Notify.Ladder.{
  Rung, in_app, sms, Recipient, initial_rungs, given, push_rungs, email_rungs, sms_rungs,
  is_critical,
}
use envelock.Notify.Ladder.Rungs.{same_rung}
use envelock.Notify.Delivery.{NotificationDelivery}
use envelock.Workers.Webhooks.Queue as Queue
use envelock.Workers.Webhooks.Queue.{Endpoint, Delivery, enqueue, queue, subscribed, new_delivery}
use envelock.Platform.Alerts.Raise.{Raised, Tables, rung_rows, fan_out, raise_alert}

abbrev pub endpoint_ids : List Delivery → List ℕ
endpoint_ids [] = []
endpoint_ids (d ∷ ds) = d.endpoint_id ∷ endpoint_ids ds

abbrev pub ids_of : List Endpoint → List ℕ
ids_of [] = []
ids_of (e ∷ es) = e.id ∷ ids_of es

-- The endpoints that hear of an event of a tenant.
abbrev pub hears : (tenant_id : ℕ) → String → Endpoint → Bool
hears tenant_id event e = (e.tenant_id == tenant_id && e.active) && subscribed event e

-- A row of the queue that is due now, for an event of a tenant that has not been attempted.
abbrev pub IsFresh : (now tenant_id : ℕ) (event payload : String) → Delivery → Type 0
IsFresh now tenant_id event payload d =
    (d.tenant_id ≡ tenant_id)
    × (d.event_type ≡ event)
    × (d.payload ≡ payload)
    × (d.status ≡ Queue.pending)
    × (d.attempt ≡ 0)
    × (d.next_attempt_at ≡ now)

queued :
    (now tenant_id : ℕ) (event payload : String) (es : List Endpoint)
    → let ds =
        queue now tenant_id event payload (keep (λ e. e.tenant_id == tenant_id && e.active) es) in
      (endpoint_ids ds ≡ ids_of (keep (hears tenant_id event) es))
      × All (IsFresh now tenant_id event payload) ds
unfolding queue new_delivery
queued now tenant_id event payload [] = (refl, tt)
queued now tenant_id event payload (e ∷ es) =
    let later = queued now tenant_id event payload es in
    elim (Bool-cases (e.tenant_id == tenant_id && e.active)) [
      | inl h ↦ elim (Bool-cases (subscribed event e)) [
        | inl k ↦
            rw (h, k)
              (ap (λ ids. e.id ∷ ids) later.0, ((refl, refl, refl, refl, refl, refl), later.1))
        | inr k ↦ rw (h, k) later
      ]
      | inr h ↦ rw h later
    ]

-- An alert is queued for the customer's systems as it is raised: the transaction adds one webhook delivery for
-- each active endpoint of the tenant that takes the event, in order, and none for any other; each carries
-- the alert, is pending, and is due at once.
pub raise_queues_webhooks :
    {F : Type 0} (now id : ℕ) (envelope : String) (r : Raised F) (s : Tables F)
    → let added = enqueue now r.tenant_id "alert.raised" envelope s.endpoints in
      ((raise_alert now id envelope r s).1.webhooks ≡ s.webhooks ++ added)
      × (endpoint_ids added ≡ ids_of (keep (hears r.tenant_id "alert.raised") s.endpoints))
      × All (IsFresh now r.tenant_id "alert.raised" envelope) added
unfolding raise_alert enqueue
raise_queues_webhooks now id envelope r s =
    let q = queued now r.tenant_id "alert.raised" envelope s.endpoints in (refl, q.0, q.1)

-- How many of the rows fire a rung.
abbrev pub rows_of : Rung → List NotificationDelivery → ℕ
rows_of rung rows = count_if (λ row. same_rung rung row.rung) rows

rows_of-rung_rows :
    (rung : Rung) (id tenant_id alert_id : ℕ) (r : Recipient) (rungs : List Rung)
    → rows_of rung (rung_rows id tenant_id alert_id r rungs) ≡ count_if (same_rung rung) rungs
unfolding rung_rows
rows_of-rung_rows rung id tenant_id alert_id r [] = refl
rows_of-rung_rows rung id tenant_id alert_id r (x ∷ xs) =
    ground (arith, rows_of-rung_rows rung (id + 1) tenant_id alert_id r xs)

-- The recipients that the paid rung is for.
abbrev pub pays : AlertTier → Recipient → Bool
pays tier r = is_critical tier && not r.has_sensor && given r.phone

pub rungs_count :
    (tier : AlertTier) (r : Recipient)
    → let rungs = (initial_rungs tier r).rungs in
      (count_if (same_rung in_app) rungs ≡ 1)
      × (count_if (same_rung sms) rungs ≡ (if pays tier r then 1 else 0))
unfolding initial_rungs push_rungs email_rungs sms_rungs
rungs_count tier r = ground arith

fan_out-counts :
    (id tenant_id alert_id : ℕ) (tier : AlertTier) (rs : List Recipient)
    → let rows = fan_out id tenant_id alert_id tier rs in
      (rows_of in_app rows ≡ length rs) × (rows_of sms rows ≡ count_if (pays tier) rs)
unfolding fan_out
fan_out-counts id tenant_id alert_id tier [] = (refl, refl)
fan_out-counts id tenant_id alert_id tier (r ∷ rs) =
    let rungs = (initial_rungs tier r).rungs in
    let later = fan_out (id + length rungs) tenant_id alert_id tier rs in
    let rows = rung_rows id tenant_id alert_id r rungs in
    ground (
      arith,
      count_if-append (λ row. same_rung in_app row.rung) rows later,
      count_if-append (λ row. same_rung sms row.rung) rows later,
      rows_of-rung_rows in_app id tenant_id alert_id r rungs,
      rows_of-rung_rows sms id tenant_id alert_id r rungs,
      rungs_count tier r,
      fan_out-counts (id + length rungs) tenant_id alert_id tier rs,
    )

-- An alert adds one dashboard row for each recipient, and one row of the paid rung for each recipient that it
-- is for: a Critical, a number, and no sensor.
pub raise_notifies_all :
    {F : Type 0} (now id : ℕ) (envelope : String) (r : Raised F) (s : Tables F)
    → let rows = (raise_alert now id envelope r s).1.notifications in
      (rows_of in_app rows ≡ rows_of in_app s.notifications + length r.recipients)
      × (rows_of sms rows
          ≡ rows_of sms s.notifications + count_if (pays r.assessment.tier) r.recipients)
unfolding raise_alert
raise_notifies_all now id envelope r s =
    let added = fan_out s.next_notification r.tenant_id id r.assessment.tier r.recipients in
    ground (
      arith,
      count_if-append (λ row. same_rung in_app row.rung) s.notifications added,
      count_if-append (λ row. same_rung sms row.rung) s.notifications added,
      fan_out-counts s.next_notification r.tenant_id id r.assessment.tier r.recipients,
    )
