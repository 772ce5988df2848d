-- ===== src/Billing/Pricing/Quotes.antt =====
-- What the two price functions promise.
use envelock.Prelude.{length, refl, some, ap, ◌∙◌, ℕ, ◌+◌, ◌-◌, ◌*◌, ◌≤◌, ◌<◌, ◌≡◌, max, arith}
use envelock.Prelude.Int.{ℤ, pos, pos_part}
use envelock.Billing.Pricing.{
  Plan, guard, essential, complete, solo, BillingTerm, monthly, quarterly, semiannual, annual,
  term_discount, platform_cents, plan_mailbox_seats, extra_cents, discount, charge, bands,
  protected_rates, monitored_rates, quote_banded, banded_quote, banded_cost, Quote,
}
use envelock.Billing.Pricing.Bands.{marginal, sum_range, banded_cost-eq-sum}

-- The seats that are charged for: those in use, or those that the plan includes.
abbrev pub billed : Plan → ℤ → ℕ
billed solo mailboxes = pos_part mailboxes
billed plan mailboxes = max (pos_part mailboxes) (plan_mailbox_seats plan)

-- The rate for one seat.
abbrev pub seat_rate : Plan → ℕ
seat_rate guard = 0
seat_rate essential = 200
seat_rate complete = 350
seat_rate solo = 600

-- The hundredths of the undiscounted price that are left to pay. Solo is charged flat.
abbrev pub share : Plan → BillingTerm → ℕ
share solo term = 100
share plan term = 100 - term_discount term

discounted :
    (s : ℕ) (term : BillingTerm)
    → let price = s * (100 - term_discount term) in
      (price ≤ (s - discount s term) * 100) × ((s - discount s term) * 100 < price + 100)
unfolding discount term_discount
discounted s monthly = omega arith
discounted s quarterly = omega arith
discounted s semiannual = omega arith
discounted s annual = omega arith

-- Whatever the term, the charge is the platform fee and the billed seats, less the term's discount
-- rounded down: it lies within one cent above the exact discounted price.
pub charge_exact :
    (plan : Plan) (term : BillingTerm) (mailboxes : ℤ)
    → let price =
        (platform_cents plan + billed plan mailboxes * seat_rate plan) * share plan term in
      (price ≤ charge plan term mailboxes * 100) × (charge plan term mailboxes * 100 < price + 100)
unfolding charge discount term_discount platform_cents extra_cents plan_mailbox_seats
charge_exact guard term mailboxes = omega arith
charge_exact essential term mailboxes = discounted (1500 + max (pos_part mailboxes) 5 * 200) term
charge_exact complete term mailboxes = discounted (3150 + max (pos_part mailboxes) 5 * 350) term
charge_exact solo term mailboxes = omega arith

discount_mono : (s t : ℕ) (term : BillingTerm) → s ≤ t → s - discount s term ≤ t - discount t term
unfolding discount term_discount
discount_mono s t monthly h = omega arith
discount_mono s t quarterly h = omega arith
discount_mono s t semiannual h = omega arith
discount_mono s t annual h = omega arith

discount-le : (s : ℕ) (term : BillingTerm) → discount s term ≤ s
unfolding discount term_discount
discount-le s monthly = omega arith
discount-le s quarterly = omega arith
discount-le s semiannual = omega arith
discount-le s annual = omega arith

-- For mailboxes in any number, more of them never cost less on the same plan and term.
pub charge_mono :
    (plan : Plan) (term : BillingTerm) (m n : ℕ)
    → m ≤ n
    → charge plan term (pos m) ≤ charge plan term (pos n)
unfolding charge extra_cents
charge_mono guard term m n h = omega arith
charge_mono essential term m n h = discount_mono _ _ term (omega arith)
charge_mono complete term m n h = discount_mono _ _ term (omega arith)
charge_mono solo term m n h = omega arith

-- On the two plans with bands a quote is always answered. Its total is the subtotal less a discount within it,
-- and the subtotal is the sum of the platform fee and the marginal prices of the mailboxes, protected and
-- monitored.
pub quote_adds_up :
    (plan : Plan) (term : BillingTerm) (mail_domains protected monitored : ℕ)
    → length (protected_rates plan) ≡ length bands
    → (q : Quote) × (quote_banded plan term mail_domains protected monitored ≡ some q)
      × (q.total + q.discounted ≡ q.subtotal)
      × (q.subtotal
          ≡ q.platform
            + sum_range (marginal bands (protected_rates plan)) 0 protected
            + sum_range (marginal bands monitored_rates) 0 monitored)
unfolding quote_banded banded_quote
quote_adds_up plan term mail_domains protected monitored e =
    let (rows, first) = banded_cost-eq-sum protected (protected_rates plan) e in
    let (more, second) = banded_cost-eq-sum monitored monitored_rates refl in
    (
      _,
      ap (λ c. banded_quote plan term mail_domains c (banded_cost monitored monitored_rates)) first
          ∙ ap (banded_quote plan term mail_domains (some (_, rows))) second,
      omega (arith, discount-le),
      refl,
    )
