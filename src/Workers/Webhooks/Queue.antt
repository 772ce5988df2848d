-- ===== src/Workers/Webhooks/Queue.antt =====
-- The delivery queue of the webhooks: `enqueue`, `_attempt` and `drain` of
-- server/src/envelock/workers/webhook_delivery.py. The tables of endpoints and deliveries are lists.
use envelock.Prelude.{
  ℕ, String, Bool, true, false, not, ◌&&◌, Option, none, some, List, [], ◌∷◌, ◌==◌, elem, is_empty,
  if◌then◌else◌, ltb, leb, keep, zero, suc, take, ◌+◌,
}
use envelock.Workers.Webhooks.{
  World, Guarded, unsafe_url, unresolvable_url, allowed, Response, status_code, raises,
  assert_safe_url,
}

-- `last_status`, which the code keeps as a text
pub data EndpointStatus : Type 0 where
  answered_with : ℕ → EndpointStatus
  blocked unresolved error : EndpointStatus

-- `last_error`, which the code keeps as a text
pub data DeliveryError : Type 0 where
  removed_or_disabled : DeliveryError
  receiver_returned : ℕ → DeliveryError
  refused raised : String → DeliveryError

-- `WebhookEndpoint`, less its secret: the signature is made for the client
pub record Endpoint : Type 0 where
  pub id : ℕ
  pub tenant_id : ℕ
  pub url : String
  pub active : Bool
  pub events : List String
  pub last_delivery_at : Option ℕ
  pub last_status : Option EndpointStatus

-- `WebhookDelivery.status`
pub data DeliveryStatus : Type 0 where
  pending delivered failed cancelled : DeliveryStatus

-- `WebhookDelivery`
pub record Delivery : Type 0 where
  pub tenant_id : ℕ
  pub endpoint_id : ℕ
  pub event_type : String
  pub payload : String
  pub attempt : ℕ
  pub next_attempt_at : ℕ
  pub status : DeliveryStatus
  pub last_attempt_at : Option ℕ
  pub delivered_at : Option ℕ
  pub last_error : Option DeliveryError

-- `wanted and event.value not in wanted`, negated
unfoldable pub subscribed : String → Endpoint → Bool
subscribed event endpoint = not (not (is_empty endpoint.events) && not (elem event endpoint.events))

unfoldable pub new_delivery : (now tenant_id : ℕ) (event payload : String) → Endpoint → Delivery
new_delivery now tenant_id event payload endpoint = record {
  tenant_id = tenant_id;
  endpoint_id = endpoint.id;
  event_type = event;
  payload = payload;
  attempt = 0;
  next_attempt_at = now;
  status = pending;
  last_attempt_at = none;
  delivered_at = none;
  last_error = none;
}

-- The loop of `enqueue` over the endpoints that the query answers.
unfoldable pub queue : (now tenant_id : ℕ) (event payload : String) → List Endpoint → List Delivery
queue now tenant_id event payload [] = []
queue now tenant_id event payload (endpoint ∷ endpoints) =
    if subscribed event endpoint
    then new_delivery now tenant_id event payload endpoint
      ∷ queue now tenant_id event payload endpoints
    else queue now tenant_id event payload endpoints

-- `enqueue`: the rows it adds; `payload` is the envelope, which the library serialises
unfoldable pub enqueue :
    (now tenant_id : ℕ) (event payload : String) → List Endpoint → List Delivery
enqueue now tenant_id event payload endpoints =
    queue now tenant_id event payload (keep (λ e. e.tenant_id == tenant_id && e.active) endpoints)

-- `RETRY_SCHEDULE`
abbrev pub retry_schedule : List ℕ
retry_schedule = 0 ∷ 30 ∷ 120 ∷ 600 ∷ 1800 ∷ 7200 ∷ 14400 ∷ []

abbrev pub get_elem? : List ℕ → ℕ → Option ℕ
get_elem? [] n = none
get_elem? (x ∷ xs) zero = some x
get_elem? (x ∷ xs) (suc n) = get_elem? xs n

-- `next_retry_delay`
abbrev pub next_retry_delay : ℕ → Option ℕ
next_retry_delay attempt = get_elem? retry_schedule attempt

-- `200 <= response.status_code < 300`
unfoldable pub is_success : ℕ → Bool
is_success code = leb 200 code && ltb code 300

-- What `_attempt` leaves: its answer, the delivery, and the endpoint.
pub record Attempted : Type 0 where
  pub ok : Bool
  pub delivery : Delivery
  pub endpoint : Option Endpoint

-- `_attempt` after the POST
unfoldable pub answered : ℕ → Response → Delivery → Endpoint → Attempted
answered now (status_code code) delivery endpoint = record {
  ok = is_success code;
  delivery =
      if is_success code
      then delivery
      else record delivery { last_error = some (receiver_returned code) };
  endpoint =
      some
        (record endpoint { last_delivery_at = some now; last_status = some (answered_with code) });
}
answered now (raises reason) delivery endpoint = record {
  ok = false;
  delivery = record delivery { last_error = some (raised reason) };
  endpoint = some (record endpoint { last_status = some error });
}

-- `_attempt` after the guard
unfoldable pub send : World → ℕ → Guarded → Delivery → Endpoint → Attempted
send w now (unsafe_url reason) delivery endpoint = record {
  ok = false;
  delivery = record delivery { status = failed; last_error = some (refused reason) };
  endpoint = some (record endpoint { last_status = some blocked });
}
send w now (unresolvable_url reason) delivery endpoint = record {
  ok = false;
  delivery = record delivery { last_error = some (refused reason) };
  endpoint = some (record endpoint { last_status = some unresolved });
}
send w now (allowed ip) delivery endpoint =
    answered now (w.post endpoint.url ip delivery.attempt) delivery endpoint

-- `_attempt`
unfoldable pub attempt_delivery : World → ℕ → Option Endpoint → Delivery → Attempted
attempt_delivery w now none delivery = record {
  ok = false;
  delivery = record delivery { status = cancelled; last_error = some removed_or_disabled };
  endpoint = none;
}
attempt_delivery w now (some endpoint) delivery =
    if not endpoint.active
    then record {
      ok = false;
      delivery = record delivery { status = cancelled; last_error = some removed_or_disabled };
      endpoint = some endpoint;
    }
    else send w now (assert_safe_url w endpoint.url) delivery endpoint

-- What `drain` counts.
pub record Summary : Type 0 where
  pub attempted : ℕ
  pub delivered_count : ℕ
  pub retrying : ℕ
  pub failed_count : ℕ

abbrev pub is_ended : DeliveryStatus → Bool
is_ended failed = true
is_ended cancelled = true
is_ended _ = false

-- The body of the loop of `drain` after `_attempt`, from the look-up of the delay on.
unfoldable pub reschedule : (now : ℕ) → Option ℕ → Delivery → Summary → Delivery × Summary
reschedule now none delivery summary = (
  record delivery { status = failed },
  record summary { failed_count = summary.failed_count + 1 },
)
reschedule now (some delay) delivery summary = (
  record delivery { next_attempt_at = now + delay },
  record summary { retrying = summary.retrying + 1 },
)

-- The body of the loop of `drain` after `_attempt`.
unfoldable pub settle : (now : ℕ) (ok : Bool) → Delivery → Summary → Delivery × Summary
settle now ok attempted summary =
    let delivery = record attempted {
      attempt = attempted.attempt + 1;
      last_attempt_at = some now;
    } in
    if ok
    then (
      record delivery { status = delivered; delivered_at = some now },
      record summary { delivered_count = summary.delivered_count + 1 },
    )
    else if is_ended delivery.status
    then (delivery, record summary { failed_count = summary.failed_count + 1 })
    else reschedule now (next_retry_delay delivery.attempt) delivery summary

-- `session.get(WebhookEndpoint, id)`
unfoldable pub endpoint_of : ℕ → List Endpoint → Option Endpoint
endpoint_of id [] = none
endpoint_of id (e ∷ es) = if e.id == id then some e else endpoint_of id es

-- The endpoint object that `_attempt` changed in place.
unfoldable pub store : Option Endpoint → List Endpoint → List Endpoint
store none es = es
store (some changed) [] = []
store (some changed) (e ∷ es) =
    (if e.id == changed.id then changed else e) ∷ store (some changed) es

-- What `drain` leaves: the endpoints, the deliveries it took, and its summary.
pub record Drained : Type 0 where
  pub endpoints : List Endpoint
  pub deliveries : List Delivery
  pub summary : Summary

-- The loop of `drain` over the deliveries that are due.
unfoldable pub drain_loop : World → ℕ → List Endpoint → Summary → List Delivery → Drained
drain_loop w now endpoints summary [] = record {
  endpoints = endpoints;
  deliveries = [];
  summary = summary;
}
drain_loop w now endpoints summary (delivery ∷ due) =
    let tried = attempt_delivery w now (endpoint_of delivery.endpoint_id endpoints) delivery in
    let settled =
      settle now tried.ok tried.delivery (record summary { attempted = summary.attempted + 1 }) in
    let rest = drain_loop w now (store tried.endpoint endpoints) settled.1 due in
    record rest { deliveries = settled.0 ∷ rest.deliveries }

-- `BATCH`
abbrev pub batch : ℕ
batch = 50

abbrev pub is_pending : DeliveryStatus → Bool
is_pending pending = true
is_pending _ = false

-- The condition of the query of `drain`.
unfoldable pub is_due : ℕ → Delivery → Bool
is_due now delivery = is_pending delivery.status && leb delivery.next_attempt_at now

-- `order_by(next_attempt_at.asc())`
unfoldable pub insert_delivery : Delivery → List Delivery → List Delivery
insert_delivery d [] = d ∷ []
insert_delivery d (e ∷ es) =
    if leb d.next_attempt_at e.next_attempt_at then d ∷ e ∷ es else e ∷ insert_delivery d es

unfoldable pub sort_deliveries : List Delivery → List Delivery
sort_deliveries [] = []
sort_deliveries (d ∷ ds) = insert_delivery d (sort_deliveries ds)

-- The query of `drain`.
unfoldable pub due_deliveries : ℕ → List Delivery → List Delivery
due_deliveries now deliveries = take batch (sort_deliveries (keep (is_due now) deliveries))

abbrev pub no_summary : Summary
no_summary = record { attempted = 0; delivered_count = 0; retrying = 0; failed_count = 0 }

-- `drain`
unfoldable pub drain : World → ℕ → List Endpoint → List Delivery → Drained
drain w now endpoints deliveries =
    drain_loop w now endpoints no_summary (due_deliveries now deliveries)
