-- ===== src/Platform/Alerts/Loss.antt =====
-- The report of prevented loss: `prevented_loss` of server/src/envelock/platform/alerts.py. Python's
-- floats are a parameter, `Money`.
use envelock.Prelude.{
  ℕ, suc, ◌≡◌, refl, ◌+◌, String, Bool, true, false, ◌&&◌, Option, none, some, List, [], ◌∷◌, arith,
  str_eq, eq_iff, map, Bool-cases, inl, inr, if◌then◌else◌, ap, ◌∙◌, count_if, subst, sym,
}
use envelock.Prelude.Dict.{Dict, lookup, insert, lookup-insert}
use envelock.Platform.Alerts.{Alert, is_resolved, in_feed_tiers}

-- The operations on amounts.
pub record Money : Type 1 where
  pub Amount : Type 0
  pub zero_amount : Amount
  pub add : Amount → Amount → Amount
  pub round_cents : Amount → Amount
  pub greater : Amount → Amount → Bool

-- What `prevented_loss` answers.
pub record PreventedLoss (m : Money) : Type 0 where
  pub by_currency : List (String × m.Amount)
  pub incidents : ℕ
  pub unpriced_incidents : ℕ

-- What the loop carries.
pub record Tally (m : Money) : Type 0 where
  pub totals : Dict m.Amount
  pub counted : ℕ
  pub unpriced : ℕ

module _ (m : Money) where
  abbrev pub or_zero : Option m.Amount → m.Amount
  or_zero none = m.zero_amount
  or_zero (some total) = total

  -- `totals.get(currency, 0.0)`
  unfoldable pub total_of : String → Dict m.Amount → m.Amount
  total_of currency totals = or_zero (lookup currency totals)

  -- `a.state != "resolved" or a.tier not in _PREVENTED_TIERS`, negated
  abbrev pub is_confirmed : Alert m.Amount → Bool
  is_confirmed a = is_resolved a.state && in_feed_tiers a.tier

  -- The body of the loop for a confirmed alert.
  unfoldable pub price : Option m.Amount → Option String → Tally m → Tally m
  price none currency t = record t { unpriced = t.unpriced + 1 }
  price (some amount) none t = record t { unpriced = t.unpriced + 1 }
  price (some amount) (some currency) t = record t {
    totals = insert currency (m.add (total_of currency t.totals) amount) t.totals;
    counted = t.counted + 1;
  }

  -- The loop.
  unfoldable pub tally : List (Alert m.Amount) → Tally m → Tally m
  tally [] t = t
  tally (a ∷ rest) t =
      tally rest (if is_confirmed a then price a.amount_at_risk a.amount_currency t else t)

  -- `sorted(totals.items(), key=lambda kv: -kv[1])`
  unfoldable pub insert_total :
      String × m.Amount → List (String × m.Amount) → List (String × m.Amount)
  insert_total e [] = e ∷ []
  insert_total e (f ∷ fs) = if m.greater f.1 e.1 then f ∷ insert_total e fs else e ∷ f ∷ fs

  unfoldable pub sort_totals : List (String × m.Amount) → List (String × m.Amount)
  sort_totals [] = []
  sort_totals (e ∷ es) = insert_total e (sort_totals es)

  -- `prevented_loss`
  unfoldable pub prevented_loss : List (Alert m.Amount) → PreventedLoss m
  prevented_loss alerts =
      let t = tally alerts (record { totals = []; counted = 0; unpriced = 0 }) in
      record {
        by_currency = map (λ e. (e.0, m.round_cents e.1)) (sort_totals t.totals);
        incidents = t.counted;
        unpriced_incidents = t.unpriced;
      }

  price-counts :
      (amount : Option m.Amount) (currency : Option String) (t : Tally m)
      → (price amount currency t).counted + (price amount currency t).unpriced
        ≡ t.counted + t.unpriced + 1
  unfolding price
  price-counts none currency t = omega arith
  price-counts (some amount) none t = omega arith
  price-counts (some amount) (some currency) t = omega arith

  tally_step :
      (b : Bool) (a : Alert m.Amount) (rest : List (Alert m.Amount)) (t : Tally m)
      → is_confirmed a ≡ b
      → tally (a ∷ rest) t
        ≡ tally rest (if b then price a.amount_at_risk a.amount_currency t else t)
  unfolding tally
  tally_step b a rest t h =
      ap (λ c. tally rest (if c then price a.amount_at_risk a.amount_currency t else t)) h

  tally-counts :
      (alerts : List (Alert m.Amount)) (t : Tally m)
      → (tally alerts t).counted + (tally alerts t).unpriced
        ≡ t.counted + t.unpriced + count_if is_confirmed alerts
  unfolding tally
  tally-counts [] t = omega arith
  tally-counts (a ∷ rest) t = elim (Bool-cases (is_confirmed a)) [
    | inl h ↦
        let later = tally-counts rest (price a.amount_at_risk a.amount_currency t) in
        let own = price-counts a.amount_at_risk a.amount_currency t in
        subst
          (λ x. x.counted + x.unpriced ≡ t.counted + t.unpriced + count_if is_confirmed (a ∷ rest))
          (sym (tally_step true a rest t h))
          (subst
            (λ b.
              (tally rest (price a.amount_at_risk a.amount_currency t)).counted
                + (tally rest (price a.amount_at_risk a.amount_currency t)).unpriced
              ≡ t.counted
                + t.unpriced
                + (if b then suc (count_if is_confirmed rest) else count_if is_confirmed rest))
            (sym h) (omega (arith, later, own)))
    | inr h ↦
        subst
          (λ x. x.counted + x.unpriced ≡ t.counted + t.unpriced + count_if is_confirmed (a ∷ rest))
          (sym (tally_step false a rest t h))
          (subst
            (λ b.
              (tally rest t).counted + (tally rest t).unpriced
              ≡ t.counted
                + t.unpriced
                + (if b then suc (count_if is_confirmed rest) else count_if is_confirmed rest))
            (sym h) (tally-counts rest t))
  ]

  -- Each confirmed alert of the tiers High and Critical is counted once, as an incident or as one without
  -- a price, and no other alert is.
  pub prevented_loss-counts :
      (alerts : List (Alert m.Amount))
      → (prevented_loss alerts).incidents + (prevented_loss alerts).unpriced_incidents
        ≡ count_if (λ a. is_resolved a.state && in_feed_tiers a.tier) alerts
  unfolding prevented_loss
  prevented_loss-counts alerts =
      omega (arith, tally-counts alerts (record { totals = []; counted = 0; unpriced = 0 }))

  -- The amounts of the confirmed alerts in one currency, added to a sum in their order.
  abbrev add_priced : String → Option m.Amount → Option String → m.Amount → m.Amount
  add_priced currency none other sum = sum
  add_priced currency (some amount) none sum = sum
  add_priced currency (some amount) (some other) sum =
      if str_eq currency other then m.add sum amount else sum

  abbrev pub sum_in : String → List (Alert m.Amount) → m.Amount → m.Amount
  sum_in currency [] sum = sum
  sum_in currency (a ∷ rest) sum =
      sum_in currency rest
        (if is_confirmed a then add_priced currency a.amount_at_risk a.amount_currency sum else sum)

  total_of-insert :
      (currency other : String) (v : m.Amount) (d : Dict m.Amount)
      → total_of currency (insert other v d)
        ≡ (if str_eq currency other then v else total_of currency d)
  unfolding total_of
  total_of-insert currency other v d = elim (Bool-cases (str_eq currency other)) [
    | inl h ↦
        let same : str_eq other currency ≡ true =
          ground (arith, h, eq_iff currency other, eq_iff other currency) in
        rw h (
          ap or_zero (lookup-insert currency other v d)
          ∙ ap (λ b. or_zero (if b then some v else lookup currency d)) same)
    | inr h ↦
        let other_way : str_eq other currency ≡ false =
          ground (arith, h, eq_iff currency other, eq_iff other currency) in
        rw h (
          ap or_zero (lookup-insert currency other v d)
          ∙ ap (λ b. or_zero (if b then some v else lookup currency d)) other_way)
  ]

  add_at :
      (currency other : String) (amount : m.Amount) (t : Tally m)
      → (if str_eq currency other
          then m.add (total_of other t.totals) amount
          else total_of currency t.totals)
        ≡ (if str_eq currency other
            then m.add (total_of currency t.totals) amount
            else total_of currency t.totals)
  add_at currency other amount t = elim (Bool-cases (str_eq currency other)) [
    | inr h ↦ rw h refl
    | inl h ↦
        rw h (ap (λ c. m.add (total_of c t.totals) amount) (sym ((eq_iff currency other).0 h)))
  ]

  total_of-price :
      (currency : String) (amount : Option m.Amount) (other : Option String) (t : Tally m)
      → total_of currency (price amount other t).totals
        ≡ add_priced currency amount other (total_of currency t.totals)
  unfolding price total_of
  total_of-price currency none other t = refl
  total_of-price currency (some amount) none t = refl
  total_of-price currency (some amount) (some other) t =
      total_of-insert currency other (m.add (total_of other t.totals) amount) t.totals
      ∙ add_at currency other amount t

  -- No currency is added to another: the total that the loop holds for a currency is the sum of the amounts
  -- of the confirmed alerts in that currency, added in their order.
  pub total_of-tally :
      (currency : String) (alerts : List (Alert m.Amount)) (t : Tally m)
      → total_of currency (tally alerts t).totals
        ≡ sum_in currency alerts (total_of currency t.totals)
  unfolding tally
  total_of-tally currency [] t = refl
  total_of-tally currency (a ∷ rest) t = elim (Bool-cases (is_confirmed a)) [
    | inl h ↦
        ap (λ x. total_of currency x.totals) (tally_step true a rest t h)
        ∙ total_of-tally currency rest (price a.amount_at_risk a.amount_currency t)
        ∙ ap (sum_in currency rest) (
            total_of-price currency a.amount_at_risk a.amount_currency t
            ∙ ap
                (λ b.
                  if b
                  then add_priced currency a.amount_at_risk a.amount_currency
                      (total_of currency t.totals)
                  else total_of currency t.totals)
                (sym h))
    | inr h ↦
        ap (λ x. total_of currency x.totals) (tally_step false a rest t h)
        ∙ total_of-tally currency rest t
        ∙ ap
            (λ b. sum_in currency rest (
              if b
              then add_priced currency a.amount_at_risk a.amount_currency
                  (total_of currency t.totals)
              else total_of currency t.totals))
            (sym h)
  ]
