-- ===== src/Billing/Tests.antt =====
-- The properties of prices and entitlements at concrete inputs.
use mathlib.Core.List.{Perm}
use envelock.Prelude.{◌≡◌, refl, true, none, some, List, [], ◌∷◌, ◌++◌}
use envelock.Billing.Pricing.{
  complete, bands, BandRow, band_loop, add_band, banded_cost, protected_rates,
}
use envelock.Billing.Pricing.Bands.{banded_cost-eq-sum, sum_range, marginal}
use envelock.Billing.Entitlement.{Tenant, Mailbox, entitled_mailboxes}
use envelock.Billing.Entitlement.Oldest.{entitled_are_oldest, AllAfter}

banded_cost-eq-sum_example :
    (rows : List BandRow) × (banded_cost 60 (protected_rates complete)
      ≡ some (sum_range (marginal bands (protected_rates complete)) 0 60, rows))
unfolding protected_rates
banded_cost-eq-sum_example = banded_cost-eq-sum 60 (protected_rates complete) refl

-- A rate is missing.
mismatched : banded_cost 100 (200 ∷ []) ≡ none
unfolding banded_cost band_loop add_band
mismatched = refl

abbrev paying : Tenant
paying = record {
  is_active = some true;
  plan = "solo";
  trial_ends_at = none;
  payment_method_ok = true;
  extra_mailbox_seats = none;
}

abbrev boxes : List Mailbox
boxes = record { id = 2; created_at = some 50 } ∷ record { id = 1; created_at = some 20 } ∷ []

entitled_are_oldest_example :
    (others : List Mailbox) × Perm (entitled_mailboxes paying 100 boxes ++ others) boxes
    × AllAfter (entitled_mailboxes paying 100 boxes) others
entitled_are_oldest_example = entitled_are_oldest paying 100 boxes
