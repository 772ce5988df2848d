-- ===== src/Workers/Webhooks/Retry.antt =====
-- The retries of a webhook delivery: how many there are, how long they take, and how they are counted.
use envelock.Prelude.{
  ℕ, ◌≡◌, refl, subst, sym, ◌≤◌, ◌+◌, Bool, true, false, Option, none, some, List, [], ◌∷◌, arith,
  Bool-cases, inl, inr, if◌then◌else◌, zero, suc, length, take,
}
use envelock.Workers.Webhooks.{
  World, Guarded, unsafe_url, unresolvable_url, allowed, Response, status_code, raises,
  assert_safe_url,
}
use envelock.Workers.Webhooks.Queue.{
  Delivery, Endpoint, is_success, attempt_delivery, send, answered, settle, reschedule,
  next_retry_delay, Summary, no_summary, DeliveryStatus, pending, failed, delivered, cancelled,
  is_ended, is_pending,
}

module _ (w : World) (now : ℕ) where
  attempt-answered :
      (r : Response) (d : Delivery) (e : Endpoint)
      → (answered now r d e).delivery.attempt ≡ d.attempt
  unfolding answered
  attempt-answered (status_code code) d e = elim (Bool-cases (is_success code)) [
    | inl h ↦ rw h refl
    | inr h ↦ rw h refl
  ]
  attempt-answered (raises reason) d e = refl

  attempt-send :
      (g : Guarded) (d : Delivery) (e : Endpoint) → (send w now g d e).delivery.attempt ≡ d.attempt
  unfolding send
  attempt-send (unsafe_url reason) d e = refl
  attempt-send (unresolvable_url reason) d e = refl
  attempt-send (allowed ip) d e = attempt-answered (w.post e.url ip d.attempt) d e

  attempt-attempt_delivery :
      (e : Option Endpoint) (d : Delivery)
      → (attempt_delivery w now e d).delivery.attempt ≡ d.attempt
  unfolding attempt_delivery
  attempt-attempt_delivery none d = refl
  attempt-attempt_delivery (some e) d = elim (Bool-cases e.active) [
    | inr h ↦ rw h refl
    | inl h ↦ ground (arith, h, attempt-send (assert_safe_url w e.url) d e)
  ]

-- A visit of `drain` to a delivery, `late` seconds after the delivery's time.
pub record Visit : Type 0 where
  pub world : World
  pub late : ℕ
  pub endpoint : Option Endpoint

-- What `drain` makes of one delivery that is due.
abbrev pub once : World → ℕ → Option Endpoint → Delivery → Delivery
once w now e d =
    let tried = attempt_delivery w now e d in (settle now tried.ok tried.delivery no_summary).0

-- The visits of `drain` to one delivery, which it takes as long as it is pending.
unfoldable pub visits : List Visit → Delivery → Delivery
visits [] d = d
visits (v ∷ vs) d =
    visits vs
      (if is_pending d.status then once v.world (d.next_attempt_at + v.late) v.endpoint d else d)

-- A delivery that is still pending after an attempt waits for one of the delays.
reschedule-pending :
    (now : ℕ) (delay : Option ℕ) (d : Delivery) (s : Summary)
    → is_pending (reschedule now delay d s).0.status ≡ true
    → (n : ℕ) × (delay ≡ some n) × ((reschedule now delay d s).0.next_attempt_at ≡ now + n)
unfolding reschedule
reschedule-pending now none d s h = absurd (cc)
reschedule-pending now (some n) d s h = (n, refl, refl)

ended_not_pending : (s : DeliveryStatus) → is_ended s ≡ true → is_pending s ≡ false
ended_not_pending pending h = absurd (cc)
ended_not_pending failed h = refl
ended_not_pending delivered h = refl
ended_not_pending cancelled h = refl

reschedule-attempt :
    (now : ℕ) (delay : Option ℕ) (d : Delivery) (s : Summary)
    → (reschedule now delay d s).0.attempt ≡ d.attempt
unfolding reschedule
reschedule-attempt now none d s = refl
reschedule-attempt now (some delay) d s = refl

-- A delivery after its attempt has been counted.
abbrev tallied : ℕ → Delivery → Delivery
tallied now d = record d { attempt = d.attempt + 1; last_attempt_at = some now }

settle-ended :
    (now : ℕ) (d : Delivery) (s : Summary)
    → is_ended d.status ≡ true
    → (settle now false d s).0 ≡ tallied now d
unfolding settle
settle-ended now d s h = rw h refl

settle-retry :
    (now : ℕ) (d : Delivery) (s : Summary)
    → is_ended d.status ≡ false
    → settle now false d s ≡ reschedule now (next_retry_delay (d.attempt + 1)) (tallied now d) s
unfolding settle
settle-retry now d s h = rw h refl

settle-pending :
    (now : ℕ) (ok : Bool) (d : Delivery) (s : Summary)
    → is_pending (settle now ok d s).0.status ≡ true
    → (n : ℕ) × (next_retry_delay (d.attempt + 1) ≡ some n)
      × ((settle now ok d s).0.next_attempt_at ≡ now + n)
unfolding settle
settle-pending now true d s h = absurd (cc)
settle-pending now false d s h = elim (Bool-cases (is_ended d.status)) [
  | inl e ↦ absurd (cc (ended_not_pending d.status e, h))
  | inr e ↦
      subst
        (λ x.
          (n : ℕ) × (next_retry_delay (d.attempt + 1) ≡ some n) × (x.0.next_attempt_at ≡ now + n))
        (sym (settle-retry now d s e))
        (reschedule-pending now (next_retry_delay (d.attempt + 1)) (tallied now d) s
          (subst (λ x. is_pending x.0.status ≡ true) (settle-retry now d s e) h))
]

settle-attempt :
    (now : ℕ) (ok : Bool) (d : Delivery) (s : Summary)
    → (settle now ok d s).0.attempt ≡ d.attempt + 1
unfolding settle
settle-attempt now true d s = refl
settle-attempt now false d s = elim (Bool-cases (is_ended d.status)) [
  | inl e ↦ rw e refl
  | inr e ↦ rw e (reschedule-attempt now (next_retry_delay (d.attempt + 1)) (tallied now d) s)
]

-- The delays that are left after `a` attempts.
abbrev remaining : ℕ → ℕ
remaining zero = 24150
remaining (suc zero) = 24120
remaining (suc (suc zero)) = 24000
remaining (suc (suc (suc zero))) = 23400
remaining (suc (suc (suc (suc zero)))) = 21600
remaining (suc (suc (suc (suc (suc zero))))) = 14400
remaining (suc (suc (suc (suc (suc (suc a)))))) = 0

delay_lem :
    (a n : ℕ) → next_retry_delay (suc a) ≡ some n → (a ≤ 5) × (n + remaining (suc a) ≡ remaining a)
delay_lem zero n h = ground (arith, h)
delay_lem (suc zero) n h = ground (arith, h)
delay_lem (suc (suc zero)) n h = ground (arith, h)
delay_lem (suc (suc (suc zero))) n h = ground (arith, h)
delay_lem (suc (suc (suc (suc zero)))) n h = ground (arith, h)
delay_lem (suc (suc (suc (suc (suc zero))))) n h = ground (arith, h)
delay_lem (suc (suc (suc (suc (suc (suc a)))))) n h = absurd (cc)

-- A visit adds an attempt; a delivery that is pending afterwards has waited one delay more.
once-attempt :
    (w : World) (now : ℕ) (e : Option Endpoint) (d : Delivery)
    → (once w now e d).attempt ≡ d.attempt + 1
once-attempt w now e d =
    let tried = attempt_delivery w now e d in
    omega (
      arith,
      settle-attempt now tried.ok tried.delivery no_summary,
      attempt-attempt_delivery w now e d,
    )

once-pending :
    (w : World) (now : ℕ) (e : Option Endpoint) (d : Delivery)
    → is_pending (once w now e d).status ≡ true
    → (d.attempt ≤ 5)
      × ((once w now e d).next_attempt_at + remaining (suc d.attempt) ≡ now + remaining d.attempt)
once-pending w now e d h =
    let tried = attempt_delivery w now e d in
    let waits = settle-pending now tried.ok tried.delivery no_summary h in
    let same : tried.delivery.attempt + 1 ≡ suc d.attempt =
      omega (arith, attempt-attempt_delivery w now e d) in
    let delay =
      delay_lem d.attempt waits.0 (subst (λ a. next_retry_delay a ≡ some waits.0) same waits.1) in
    (delay.0, omega (arith, delay.1, waits.2))

visits_ended : (vs : List Visit) (d : Delivery) → is_pending d.status ≡ false → visits vs d ≡ d
unfolding visits
visits_ended [] d h = refl
visits_ended (v ∷ vs) d h = rw h (visits_ended vs d h)

visit_pending :
    (v : Visit) (vs : List Visit) (d : Delivery)
    → is_pending d.status ≡ true
    → visits (v ∷ vs) d ≡ visits vs (once v.world (d.next_attempt_at + v.late) v.endpoint d)
unfolding visits
visit_pending v vs d h = rw h refl

-- The seconds by which the visits came late.
abbrev pub lateness : List Visit → ℕ
lateness [] = 0
lateness (v ∷ vs) = v.late + lateness vs

visits-pending :
    (vs : List Visit) (d : Delivery) (k m : ℕ)
    → d.attempt ≡ k
    → k + length vs ≡ m
    → k ≤ 6
    → is_pending (visits vs d).status ≡ true
    → (m ≤ 6)
      × ((visits vs d).attempt ≡ m)
      × ((visits vs d).next_attempt_at + remaining m
          ≡ d.next_attempt_at + remaining k + lateness vs)
unfolding visits
visits-pending [] d k m a l b h =
    let same : m ≡ k = omega (arith, l) in
    (omega (arith, same), omega (arith, a, same), rw same (omega arith))
visits-pending (v ∷ vs) d k m a l b h = elim (Bool-cases (is_pending d.status)) [
  | inr e ↦ absurd (cc (visits_ended (v ∷ vs) d e))
  | inl e ↦
      let next = once v.world (d.next_attempt_at + v.late) v.endpoint d in
      let goes : visits (v ∷ vs) d ≡ visits vs next = visit_pending v vs d e in
      let h' : is_pending (visits vs next).status ≡ true =
        subst (λ x. is_pending x.status ≡ true) goes h in
      elim (Bool-cases (is_pending next.status)) [
        | inr f ↦ absurd (cc (visits_ended vs next f))
        | inl f ↦
            let step = once-pending v.world (d.next_attempt_at + v.late) v.endpoint d f in
            let count = once-attempt v.world (d.next_attempt_at + v.late) v.endpoint d in
            let rest =
              visits-pending vs next (suc k) m (omega (arith, a, count)) (omega (arith, l))
                (omega (arith, step.0, a)) h' in
            let waited : next.next_attempt_at + remaining (suc k)
                ≡ d.next_attempt_at + v.late + remaining k =
              subst
                (λ x.
                  next.next_attempt_at + remaining (suc x)
                  ≡ d.next_attempt_at + v.late + remaining x)
                a step.1 in
            subst
              (λ x.
                (m ≤ 6)
                × (x.attempt ≡ m)
                × (x.next_attempt_at + remaining m
                    ≡ d.next_attempt_at + remaining k + (v.late + lateness vs)))
              (sym goes) (rest.0, rest.1, omega (arith, rest.2, waited))
      ]
]

-- The delays that the schedule holds, from its second on.
abbrev pub total_delay : ℕ → ℕ
total_delay n = total (take n (30 ∷ 120 ∷ 600 ∷ 1800 ∷ 7200 ∷ 14400 ∷ []))
  where
    total : List ℕ → ℕ
    total [] = 0
    total (x ∷ xs) = x + total xs

total_delay_lem : (n : ℕ) → n ≤ 6 → total_delay n + remaining n ≡ 24150
total_delay_lem zero h = refl
total_delay_lem (suc zero) h = refl
total_delay_lem (suc (suc zero)) h = refl
total_delay_lem (suc (suc (suc zero))) h = refl
total_delay_lem (suc (suc (suc (suc zero)))) h = refl
total_delay_lem (suc (suc (suc (suc (suc zero))))) h = refl
total_delay_lem (suc (suc (suc (suc (suc (suc zero)))))) h = refl
total_delay_lem (suc (suc (suc (suc (suc (suc (suc n))))))) h = absurd (omega (arith, h))

-- However the receiver and the network behave, a new delivery has left the queue after seven visits:
-- it is delivered, failed or cancelled.
pub delivery_ends :
    (vs : List Visit) (d : Delivery)
    → d.attempt ≡ 0
    → 7 ≤ length vs
    → is_pending (visits vs d).status ≡ false
delivery_ends vs d a l = elim (Bool-cases (is_pending (visits vs d).status)) [
  | inl h ↦
      absurd
        (omega (arith, l, (visits-pending vs d 0 (length vs) a (omega arith) (omega arith) h).0))
  | inr h ↦ h
]

-- A new delivery that is still pending after some visits had at most six of them, was attempted at each,
-- and is next tried at its creation plus what the visits came late, plus the first delays of the
-- schedule after 0, one for each visit.
pub retry_times :
    (vs : List Visit) (d : Delivery)
    → d.attempt ≡ 0
    → is_pending (visits vs d).status ≡ true
    → (length vs ≤ 6)
      × ((visits vs d).attempt ≡ length vs)
      × ((visits vs d).next_attempt_at ≡ d.next_attempt_at + lateness vs + total_delay (length vs))
retry_times vs d a h =
    let known = visits-pending vs d 0 (length vs) a (omega arith) (omega arith) h in
    (known.0, known.1, omega (arith, known.2, total_delay_lem (length vs) known.0))
