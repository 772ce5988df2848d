-- ===== src/Notify/Dispatch/Once.antt =====
-- No notification is sent twice: `deliver_pending` of server/src/envelock/notify/dispatch.py.
use envelock.Prelude.{
  ℕ, String, Bool, true, false, ◌&&◌, Option, none, some, List, [], ◌∷◌, ◌==◌, All, All-append,
  All-mono, any, ◌≡◌, ◌≢◌, arith, refl, Bool-cases, inl, inr,
}
use envelock.Platform.Alerts.{Alert, alert_of}
use envelock.Notify.Delivery.{NotificationDelivery, Directory, Dispatcher, SendResult, destination}
use envelock.Notify.Dispatch.{
  Claim, Sent, is_pending, is_push, is_claimed, record_result, send_row, attempt_row,
  deliver_pending, has_destination,
}

record_result-ended :
    (r : SendResult) (row : NotificationDelivery) → is_pending (record_result r row).status ≡ false
unfolding record_result
record_result-ended r row = ground arith

send_row-ended :
    (d : Dispatcher) (t : Directory) (to : String) (row : NotificationDelivery)
    → is_pending (send_row d t to row).row.status ≡ false
unfolding send_row
send_row-ended d t to row = elim (Bool-cases (is_push row.rung)) [
  | inl h ↦ rw h (record_result-ended _ row)
  | inr h ↦ rw h (record_result-ended _ row)
]

send_row-own :
    (d : Dispatcher) (t : Directory) (to : String) (row : NotificationDelivery)
    → All (λ s. s.row_id ≡ row.id) (send_row d t to row).sends
unfolding send_row
send_row-own d t to row = elim (Bool-cases (is_push row.rung)) [
  | inl h ↦ rw h (refl, tt)
  | inr h ↦ rw h (refl, tt)
]

ended_unclaimed :
    (c : Claim) (row : NotificationDelivery)
    → is_pending row.status ≡ false
    → is_claimed c row ≡ false
unfolding is_claimed
ended_unclaimed c row h = ground (arith, h)

-- The row with this id is one that the drain claims.
unfoldable pub claims_id : Claim → List NotificationDelivery → ℕ → Bool
claims_id c rows id = any (λ row. is_claimed c row && (row.id == id)) rows

-- A row that a drain claims is not locked by another.
claims_id-unlocked :
    (c : Claim) (rows : List NotificationDelivery) (id : ℕ)
    → claims_id c rows id ≡ true
    → c.locked id ≡ false
unfolding is_claimed claims_id
claims_id-unlocked c [] id h = ground (arith, h)
claims_id-unlocked c (row ∷ rows) id h = elim (Bool-cases (row.id == id)) [
  | inl e ↦ elim (Bool-cases (c.locked row.id)) [
    | inl k ↦ claims_id-unlocked c rows id (ground (arith, h, e, k))
    | inr k ↦ ground (arith, e, k)
  ]
  | inr e ↦ claims_id-unlocked c rows id (ground (arith, h, e))
]

claims_here :
    (c : Claim) (row : NotificationDelivery) (rows : List NotificationDelivery) (s : Sent)
    → is_claimed c row ≡ true
    → s.row_id ≡ row.id
    → claims_id c (row ∷ rows) s.row_id ≡ true
unfolding claims_id
claims_here c row rows s h e = ground (arith, h, e)

claims_later :
    (c : Claim) (row : NotificationDelivery) (rows : List NotificationDelivery) (s : Sent)
    → claims_id c rows s.row_id ≡ true
    → claims_id c (row ∷ rows) s.row_id ≡ true
unfolding claims_id
claims_later c row rows s e = ground (arith, e)

differ : (locked : ℕ → Bool) (m n : ℕ) → locked m ≡ true → locked n ≡ false → m ≢ n
differ locked m n h k e = ground (arith, h, k, e)

module _ {F : Type 0} where
  abbrev dest_of : Dispatcher → Directory → NotificationDelivery → Alert F → Option String
  dest_of d t row alert = destination d.lower t row.rung row.user_id alert.mailbox_id

  -- An attempt takes its row out of the pending ones, whatever comes of it.
  attempt_row-ended :
      (d : Dispatcher) (t : Directory) (a : Option (Alert F)) (row : NotificationDelivery)
      → is_pending (attempt_row d t a row).row.status ≡ false
  unfolding attempt_row
  attempt_row-ended d t none row = refl
  attempt_row-ended d t (some alert) row =
      elim (Bool-cases (has_destination (dest_of d t row alert))) [
        | inl h ↦ rw h (send_row-ended d t _ row)
        | inr h ↦ rw h refl
      ]

  attempt_row-own :
      (d : Dispatcher) (t : Directory) (a : Option (Alert F)) (row : NotificationDelivery)
      → All (λ s. s.row_id ≡ row.id) (attempt_row d t a row).sends
  unfolding attempt_row
  attempt_row-own d t none row = tt
  attempt_row-own d t (some alert) row =
      elim (Bool-cases (has_destination (dest_of d t row alert))) [
        | inl h ↦ rw h (send_row-own d t _ row)
        | inr h ↦ rw h tt
      ]

  pub deliver_pending-settles :
      (d : Dispatcher) (c : Claim) (alerts : List (Alert F)) (rows : List NotificationDelivery)
      → (t : Directory)
      → All (λ row. is_claimed c row ≡ false) (deliver_pending d c alerts t rows).rows
  unfolding deliver_pending
  deliver_pending-settles d c alerts [] t = tt
  deliver_pending-settles d c alerts (row ∷ rows) t = elim (Bool-cases (is_claimed c row)) [
    | inl h ↦
        let tried = attempt_row d t (alert_of row.alert_id alerts) row in
        rw h (
          ended_unclaimed c tried.row (attempt_row-ended d t (alert_of row.alert_id alerts) row),
          deliver_pending-settles d c alerts rows
              (record t { subscriptions = tried.subscriptions }),
        )
    | inr h ↦ rw h (h, deliver_pending-settles d c alerts rows t)
  ]

  nothing_claimed :
      (d : Dispatcher) (c : Claim) (alerts : List (Alert F)) (t : Directory)
      → (rows : List NotificationDelivery) → All (λ row. is_claimed c row ≡ false) rows
      → deliver_pending d c alerts t rows ≡ record { rows = rows; directory = t; sends = [] }
  unfolding deliver_pending
  nothing_claimed d c alerts t [] h = refl
  nothing_claimed d c alerts t (row ∷ rows) (h, hs) =
      rw (h, nothing_claimed d c alerts t rows hs) refl

  -- A second run of the same drain calls no sender and changes no row and no table, whatever the senders do,
  -- and whatever has become of the alerts and the tables in between.
  pub rerun_sends_nothing :
      (d d' : Dispatcher) (c : Claim) (alerts alerts' : List (Alert F)) (t t' : Directory)
      → (rows : List NotificationDelivery)
      → let first = deliver_pending d c alerts t rows in
        deliver_pending d' c alerts' t' first.rows
        ≡ record { rows = first.rows; directory = t'; sends = [] }
  rerun_sends_nothing d d' c alerts alerts' t t' rows =
      nothing_claimed d' c alerts' t' _ (deliver_pending-settles d c alerts rows t)

  sends_are_claimed :
      (d : Dispatcher) (c : Claim) (alerts : List (Alert F)) (rows : List NotificationDelivery)
      → (t : Directory)
      → All (λ s. claims_id c rows s.row_id ≡ true) (deliver_pending d c alerts t rows).sends
  unfolding deliver_pending
  sends_are_claimed d c alerts [] t = tt
  sends_are_claimed d c alerts (row ∷ rows) t = elim (Bool-cases (is_claimed c row)) [
    | inl h ↦
        let tried = attempt_row d t (alert_of row.alert_id alerts) row in
        let later = record t { subscriptions = tried.subscriptions } in
        rw h (
          All-append (λ s. claims_id c (row ∷ rows) s.row_id ≡ true) tried.sends _
            (All-mono (λ s. s.row_id ≡ row.id) _ (λ s e. claims_here c row rows s h e) tried.sends
              (attempt_row-own d t (alert_of row.alert_id alerts) row))
            (All-mono (λ s. claims_id c rows s.row_id ≡ true) _ (claims_later c row rows) _
              (sends_are_claimed d c alerts rows later)))
    | inr h ↦ rw h (
        All-mono (λ s. claims_id c rows s.row_id ≡ true)
          (λ s. claims_id c (row ∷ rows) s.row_id ≡ true) (claims_later c row rows) _
          (sends_are_claimed d c alerts rows t))
  ]

  -- Of two drains of one table at once, each of which skips the rows that the other has locked, no row is sent
  -- by both, whatever their senders do.
  pub drains_never_share_row :
      (d d' : Dispatcher) (c c' : Claim) (alerts : List (Alert F)) (t : Directory)
      → (rows : List NotificationDelivery)
      → ((id : ℕ) → claims_id c rows id ≡ true → c'.locked id ≡ true)
      → All
          (λ s. All (λ s'. s.row_id ≢ s'.row_id) (deliver_pending d' c' alerts t rows).sends)
          (deliver_pending d c alerts t rows).sends
  drains_never_share_row d d' c c' alerts t rows locks =
      let theirs = sends_are_claimed d' c' alerts rows t in
      All-mono (λ s. claims_id c rows s.row_id ≡ true) _
        (λ s held.
          All-mono (λ s'. claims_id c' rows s'.row_id ≡ true) (λ s'. s.row_id ≢ s'.row_id)
            (λ s' free.
              differ c'.locked s.row_id s'.row_id (locks s.row_id held)
                (claims_id-unlocked c' rows s'.row_id free))
            _ theirs)
        _ (sends_are_claimed d c alerts rows t)
