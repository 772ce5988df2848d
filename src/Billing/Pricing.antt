-- ===== src/Billing/Pricing.antt =====
-- The price tables and the two price functions: server/src/envelock/billing/pricing.py.
-- `int(x * 0.05)`, `int(x * 0.10)` and `int(x * 0.20)` are the exact floors of hundredths: the three
-- doubles lie above the decimals by less than 2 ^ -56 of them, so for cents below 2 ^ 48 the product
-- reaches an integer exactly where the true product does, and falls short of none.
pub mod Bands
pub mod Quotes
use envelock.Prelude.{
  ℕ, ◌+◌, ◌-◌, ◌*◌, ◌/◌, ◌^◌, min, max, String, Bool, true, false, Option, none, some, List, [],
  ◌∷◌, str_eq, leb, ltb, ◌==◌, if◌then◌else◌,
}
use envelock.Prelude.Int.{ℤ, pos_part}

pub data Plan : Type 0 where
  guard essential complete solo : Plan

pub data BillingTerm : Type 0 where
  monthly quarterly semiannual annual : BillingTerm

-- `Plan(plan)`; `none` is the ValueError
unfoldable pub parse_plan : String → Option Plan
parse_plan s =
    if str_eq s "guard"
    then some guard
    else if str_eq s "essential"
    then some essential
    else if str_eq s "complete"
    then some complete
    else if str_eq s "solo"
    then some solo
    else none

-- `BillingTerm(term)`
unfoldable pub parse_term : String → Option BillingTerm
parse_term s =
    if str_eq s "monthly"
    then some monthly
    else if str_eq s "quarterly"
    then some quarterly
    else if str_eq s "semiannual"
    then some semiannual
    else if str_eq s "annual"
    then some annual
    else none

-- `TERM_DISCOUNT`, in hundredths
unfoldable pub term_discount : BillingTerm → ℕ
term_discount monthly = 0
term_discount quarterly = 5
term_discount semiannual = 10
term_discount annual = 20

-- `PLATFORM_CENTS`
unfoldable pub platform_cents : Plan → ℕ
platform_cents guard = 0
platform_cents essential = 1500
platform_cents complete = 3150
platform_cents solo = 0

-- `PLAN_MAILBOX_SEATS`
unfoldable pub plan_mailbox_seats : Plan → ℕ
plan_mailbox_seats guard = 0
plan_mailbox_seats solo = 1
plan_mailbox_seats essential = 5
plan_mailbox_seats complete = 5

-- `EXTRA_MAILBOX_CENTS.get`
unfoldable pub extra_cents : Plan → Option ℕ
extra_cents essential = some 200
extra_cents complete = some 350
extra_cents _ = none

abbrev seats_or_zero : Option Plan → ℕ
seats_or_zero none = 0
seats_or_zero (some p) = plan_mailbox_seats p

-- `included_mailbox_seats`
unfoldable pub included_mailbox_seats : String → ℕ
unfolding plan_mailbox_seats parse_plan
included_mailbox_seats plan = seats_or_zero (parse_plan plan)

abbrev pub solo_cents : ℕ
solo_cents = 600

abbrev pub solo_team_cents : ℕ
solo_team_cents = 500

abbrev pub solo_team_min : ℕ
solo_team_min = 3

-- `int(subtotal * TERM_DISCOUNT[term])`
unfoldable pub discount : ℕ → BillingTerm → ℕ
discount subtotal term = subtotal * term_discount term / 100

-- The part of `self_serve_cents` below the parsing of its two texts.
unfoldable pub charge : Plan → BillingTerm → ℤ → ℕ
charge guard term mailboxes = 0
charge plan term mailboxes = elim (extra_cents plan) [
  | none ↦ solo_cents * pos_part mailboxes
  | some rate ↦
      let billed_seats = max (pos_part mailboxes) (plan_mailbox_seats plan) in
      let subtotal = platform_cents plan + billed_seats * rate in subtotal - discount subtotal term
]

abbrev charge_parsed : Option Plan → Option BillingTerm → ℤ → ℕ
charge_parsed (some plan) (some term) mailboxes = charge plan term mailboxes
charge_parsed _ _ mailboxes = 0

-- `self_serve_cents`
unfoldable pub self_serve_cents : String → ℤ → String → ℕ
self_serve_cents plan mailboxes term = charge_parsed (parse_plan plan) (parse_term term) mailboxes

-- `_BANDS`
abbrev pub bands : List ℕ
bands = 10 ∷ 50 ∷ 200 ∷ 1000 ∷ (10 ^ 9) ∷ []

-- `_PROTECTED_RATES`; a KeyError for the other plans, which `quote` never looks up
unfoldable pub protected_rates : Plan → List ℕ
protected_rates essential = 200 ∷ 170 ∷ 140 ∷ 100 ∷ 70 ∷ []
protected_rates complete = 350 ∷ 300 ∷ 240 ∷ 175 ∷ 120 ∷ []
protected_rates _ = []

-- `_MONITORED_RATES`
abbrev pub monitored_rates : List ℕ
monitored_rates = 60 ∷ 50 ∷ 40 ∷ 30 ∷ 20 ∷ []

-- A row of the breakdown: the band from `first` to `bound`, the mailboxes in it, their rate and cost.
pub record BandRow : Type 0 where
  pub first : ℕ
  pub bound : ℕ
  pub count : ℕ
  pub rate_cents : ℕ
  pub cents : ℕ

-- What a band adds to the total and the rows of those after it, unless `zip` has raised there.
unfoldable pub add_band : BandRow → Option (ℕ × List BandRow) → Option (ℕ × List BandRow)
add_band row none = none
add_band row (some (total, rows)) =
    if ltb 0 row.count then some (row.cents + total, row ∷ rows) else some (total, rows)

-- The loop of `_banded_cost`, from `lower`, with `remaining` mailboxes to place; `none` is the ValueError of
-- `zip(..., strict=True)`, which is raised where the loop reaches the end of only one of the two.
unfoldable pub band_loop : List ℕ → List ℕ → ℕ → ℕ → Option (ℕ × List BandRow)
band_loop [] [] lower remaining = some (0, [])
band_loop [] (rate ∷ rates) lower remaining = none
band_loop (bound ∷ bounds) [] lower remaining = none
band_loop (bound ∷ bounds) (rate ∷ rates) lower remaining =
    let in_band = min remaining (bound - lower) in
    let rest = band_loop bounds rates bound (remaining - in_band) in
    if leb remaining 0
    then some (0, [])
    else add_band
        (record {
          first = lower + 1;
          bound = bound;
          count = in_band;
          rate_cents = rate;
          cents = in_band * rate;
        })
        rest

-- `_banded_cost`
unfoldable pub banded_cost : ℕ → List ℕ → Option (ℕ × List BandRow)
banded_cost count rates = band_loop bands rates 0 count

pub data Breakdown : Type 0 where
  free : Breakdown
  flat : (mailboxes rate_cents : ℕ) → Breakdown
  banded :
      (mail_domains base_cents additional_domains : ℕ) → List BandRow → List BandRow → ℕ → Breakdown

pub record Quote : Type 0 where
  pub plan : Plan
  pub term : BillingTerm
  pub platform : ℕ
  pub protected_total : ℕ
  pub monitored_total : ℕ
  pub subtotal : ℕ
  pub discounted : ℕ
  pub total : ℕ
  pub breakdown : Breakdown

unfoldable pub quote_solo : BillingTerm → ℕ → Quote
quote_solo term mailboxes =
    let rate = if leb solo_team_min mailboxes then solo_team_cents else solo_cents in
    let subtotal = rate * mailboxes in
    record {
      plan = solo;
      term = term;
      platform = 0;
      protected_total = subtotal;
      monitored_total = 0;
      subtotal = subtotal;
      discounted = discount subtotal term;
      total = subtotal - discount subtotal term;
      breakdown = flat mailboxes rate;
    }

-- `quote` on a banded plan, once the two costs are known.
unfoldable pub banded_quote :
    Plan
    → BillingTerm
    → (mail_domains : ℕ) → Option (ℕ × List BandRow)
    → Option (ℕ × List BandRow)
    → Option Quote
banded_quote plan term mail_domains none monitored = none
banded_quote plan term mail_domains (some protected) none = none
banded_quote plan term mail_domains (some protected) (some monitored) =
    let base = platform_cents plan in
    let extra_domains = mail_domains - 1 in
    let platform = base + base / 2 * extra_domains in
    let subtotal = platform + protected.0 + monitored.0 in
    some (record {
      plan = plan;
      term = term;
      platform = platform;
      protected_total = protected.0;
      monitored_total = monitored.0;
      subtotal = subtotal;
      discounted = discount subtotal term;
      total = subtotal - discount subtotal term;
      breakdown =
          banded mail_domains base extra_domains protected.1 monitored.1 (term_discount term);
    })

unfoldable pub quote_banded : Plan → BillingTerm → ℕ → ℕ → ℕ → Option Quote
quote_banded plan term mail_domains protected monitored =
    banded_quote plan term mail_domains (banded_cost protected (protected_rates plan))
      (banded_cost monitored monitored_rates)

-- `quote`, on counts that are not negative; `none` is an error that is raised
unfoldable pub quote : Plan → BillingTerm → ℕ → ℕ → ℕ → ℕ → Option Quote
quote guard term mail_domains protected monitored solo_mailboxes = some (record {
  plan = guard;
  term = term;
  platform = 0;
  protected_total = 0;
  monitored_total = 0;
  subtotal = 0;
  discounted = 0;
  total = 0;
  breakdown = free;
})
quote solo term mail_domains protected monitored solo_mailboxes =
    some (quote_solo term solo_mailboxes)
quote plan term mail_domains protected monitored solo_mailboxes =
    quote_banded plan term mail_domains protected monitored
