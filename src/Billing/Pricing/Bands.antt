-- ===== src/Billing/Pricing/Bands.antt =====
-- The banded cost is the sum of the marginal prices of the single mailboxes.
use envelock.Prelude.{
  ℕ, zero, suc, ◌+◌, ◌-◌, ◌*◌, ◌≤◌, ◌<◌, ◌≡◌, refl, sym, ap, ◌∙◌, min, List, [], ◌∷◌, leb, ltb,
  arith, if◌then◌else◌, leb→le, inl, inr, Bool-cases, some, length, true,
}
use envelock.Billing.Pricing.{BandRow, bands, add_band, band_loop, banded_cost}

-- The price of the mailbox with `i` mailboxes before it: the rate of the first band above `i`.
unfoldable pub marginal : List ℕ → List ℕ → ℕ → ℕ
marginal (bound ∷ bounds) (rate ∷ rates) i = if ltb i bound then rate else marginal bounds rates i
marginal _ _ i = 0

-- `f lower + f (lower + 1) + ...`, with `n` terms.
unfoldable pub sum_range : (ℕ → ℕ) → ℕ → ℕ → ℕ
sum_range f lower zero = 0
sum_range f lower (suc n) = f lower + sum_range f (lower + 1) n

module _ (f : ℕ → ℕ) where
  sum_range-add :
      (lower m n : ℕ) → sum_range f lower (m + n) ≡ sum_range f lower m + sum_range f (lower + m) n
  unfolding sum_range
  sum_range-add lower zero n = ground arith
  sum_range-add lower (suc m) n =
      let shift : suc m + n ≡ suc (m + n) = omega arith in
      rw shift (ground (arith, sum_range-add (lower + 1) m n))

  sum_range_const :
      (r lower n : ℕ)
      → ((k : ℕ) → lower ≤ k → k < lower + n → f k ≡ r)
      → sum_range f lower n ≡ n * r
  unfolding sum_range
  sum_range_const r lower zero h = omega arith
  sum_range_const r lower (suc n) h = omega (
    arith,
    h lower (omega arith) (omega arith),
    sum_range_const r (lower + 1) n (λ k p q. h k (omega arith) (omega arith)),
  )

  sum_range_congr :
      (g : ℕ → ℕ) (lower n : ℕ)
      → ((k : ℕ) → lower ≤ k → f k ≡ g k)
      → sum_range f lower n ≡ sum_range g lower n
  unfolding sum_range
  sum_range_congr g lower zero h = refl
  sum_range_congr g lower (suc n) h =
      omega
        (arith, h lower (omega arith), sum_range_congr g (lower + 1) n (λ k p. h k (omega arith)))

-- Bounds that do not descend, from a lower one on.
abbrev pub Ascending : ℕ → List ℕ → Type 0
Ascending lower [] = Unit
Ascending lower (b ∷ bs) = (lower ≤ b) × Ascending b bs

marginal-high :
    (bound rate : ℕ) (bounds rates : List ℕ) (k : ℕ)
    → bound ≤ k
    → marginal (bound ∷ bounds) (rate ∷ rates) k ≡ marginal bounds rates k
unfolding marginal
marginal-high bound rate bounds rates k h = ground arith

marginal-low :
    (bound rate : ℕ) (bounds rates : List ℕ) (k : ℕ)
    → k < bound
    → marginal (bound ∷ bounds) (rate ∷ rates) k ≡ rate
unfolding marginal
marginal-low bound rate bounds rates k h = ground arith

sum_nothing : (f : ℕ → ℕ) (lower : ℕ) → sum_range f lower 0 ≡ 0
unfolding sum_range
sum_nothing f lower = refl

none_sum : (f : ℕ → ℕ) (lower n : ℕ) → leb n 0 ≡ true → 0 ≡ sum_range f lower n
none_sum f lower n h = ground (arith, h, sum_nothing f lower)

band_inside :
    (b r : ℕ) (bs rs : List ℕ) (lower n : ℕ)
    → n ≤ b - lower
    → min n (b - lower) * r + sum_range (marginal bs rs) b (n - min n (b - lower))
      ≡ sum_range (marginal (b ∷ bs) (r ∷ rs)) lower n
band_inside b r bs rs lower n inside =
    let whole : min n (b - lower) ≡ n = omega arith in
    let left : n - n ≡ 0 = omega arith in
    rw (whole, left, sum_nothing (marginal bs rs) b)
      (omega (
        arith,
        sum_range_const (marginal (b ∷ bs) (r ∷ rs)) r lower n
            (λ k p q. marginal-low b r bs rs k (omega arith)),
      ))

band_beyond :
    (b r : ℕ) (bs rs : List ℕ) (lower n : ℕ)
    → lower ≤ b
    → b - lower < n
    → min n (b - lower) * r + sum_range (marginal bs rs) b (n - min n (b - lower))
      ≡ sum_range (marginal (b ∷ bs) (r ∷ rs)) lower n
band_beyond b r bs rs lower n low beyond =
    let width = b - lower in
    let whole : min n (b - lower) ≡ width = omega arith in
    let parts : width + (n - width) ≡ n = omega arith in
    let middle : lower + width ≡ b = omega arith in
    let f = marginal (b ∷ bs) (r ∷ rs) in
    let split : sum_range f lower n ≡ sum_range f lower width + sum_range f b (n - width) =
      ap (sum_range f lower) (sym parts)
      ∙ sum_range-add f lower width (n - width)
      ∙ ap (λ l. sum_range f lower width + sum_range f l (n - width)) middle in
    rw whole (
      omega (
        arith,
        split,
        sum_range_const f r lower width (λ k p q. marginal-low b r bs rs k (omega arith)),
        sum_range_congr f (marginal bs rs) b (n - width) (λ k p. marginal-high b r bs rs k p),
      ))

band_sum :
    (b r : ℕ) (bs rs : List ℕ) (lower n : ℕ)
    → lower ≤ b
    → min n (b - lower) * r + sum_range (marginal bs rs) b (n - min n (b - lower))
      ≡ sum_range (marginal (b ∷ bs) (r ∷ rs)) lower n
band_sum b r bs rs lower n low = elim (Bool-cases (leb n (b - lower))) [
  | inl inside ↦ band_inside b r bs rs lower n (leb→le n (b - lower) inside)
  | inr beyond ↦ band_beyond b r bs rs lower n low (ground arith)
]

-- What `add_band` makes of a result, as a total and rows.
add_band-some :
    (row : BandRow) (total : ℕ) (rows : List BandRow)
    → row.cents ≡ row.count * row.rate_cents
    → (more : List BandRow) × (add_band row (some (total, rows)) ≡ some (row.cents + total, more))
unfolding add_band
add_band-some row total rows e = elim (Bool-cases (ltb 0 row.count)) [
  | inl h ↦ (row ∷ rows, rw h refl)
  | inr h ↦ (rows, rw h (ap (λ t. some (t, rows)) (ground (arith, e, h))))
]

length-suc : (m n : ℕ) → suc m ≡ suc n → m ≡ n
length-suc m n h = omega (arith, h)

band_loop-sum :
    (bounds rates : List ℕ) (lower n : ℕ)
    → Ascending lower bounds
    → length rates ≡ length bounds
    → (rows : List BandRow) × (band_loop bounds rates lower n
        ≡ some (sum_range (marginal bounds rates) lower n, rows))
unfolding band_loop marginal
band_loop-sum [] [] lower n h e =
    ([], ap (λ t. some (t, [])) (sym (sum_range_const _ 0 lower n (λ k p q. refl) ∙ omega arith)))
band_loop-sum [] (r ∷ rs) lower n h e = ([], ground (arith, e))
band_loop-sum (b ∷ bs) [] lower n h e = ([], ground (arith, e))
band_loop-sum (b ∷ bs) (r ∷ rs) lower n h e =
    let in_band = min n (b - lower) in
    let (rest, found) = band_loop-sum bs rs b (n - in_band) h.1 (length-suc _ _ e) in
    let (more, added) =
      add_band-some
        (record {
          first = lower + 1;
          bound = b;
          count = in_band;
          rate_cents = r;
          cents = in_band * r;
        })
        (sum_range (marginal bs rs) b (n - in_band)) rest refl in
    elim (Bool-cases (leb n 0)) [
      | inl none_left ↦ ([], rw none_left (ap (λ t. some (t, [])) (none_sum _ lower n none_left)))
      | inr left ↦ (
        more,
        rw left (
            ap (add_band _) found
            ∙ added
            ∙ ap (λ t. some (t, more)) (band_sum b r bs rs lower n h.0)),
      )
    ]

-- With a rate for each band, the loop raises nothing, and the banded cost adds up the marginal price of each
-- mailbox, however many there are.
pub banded_cost-eq-sum :
    (count : ℕ) (rates : List ℕ)
    → length rates ≡ length bands
    → (rows : List BandRow) × (banded_cost count rates
        ≡ some (sum_range (marginal bands rates) 0 count, rows))
unfolding banded_cost
banded_cost-eq-sum count rates e = band_loop-sum bands rates 0 count (omega arith) e
