-- ===== src/Billing/Trial/FreeMail.antt =====
-- Who is refused a trial, and who never is: server/src/envelock/billing/trial.py and
-- `confirm_payment_method` of server/src/envelock/api/billing.py.
use envelock.Prelude.{
  ℕ, String, Bool, true, false, not, ◌&&◌, ◌||◌, Option, none, some, List, ◌≡◌, refl, arith,
  Option-cases, inl, inr,
}
use envelock.Prelude.Dict.{Dict, is_some}
use envelock.Billing.Trial.{
  Texts, LedgerEntry, Tenant, allowed, has_domain, is_overridden, evaluate, given_text, Provider,
  Confirmed, confirmed, settle_trial, confirm_payment_method, backfill, is_own,
}

abbrev pub answers : Confirmed → Bool
answers (confirmed c) = true
answers _ = false

abbrev pub is_ready : Option Provider → (reference : String) → Bool
is_ready none reference = false
is_ready (some p) reference = p.is_configured && is_some (p.verify_instrument reference)

-- The row has an override by sales.
abbrev overridden_row : Option LedgerEntry → Bool
overridden_row none = false
overridden_row (some row) = is_some (given_text row.override_by)

module _ (texts : Texts) where
  -- A trial is refused exactly if the ledger has a row for the domain that sales have not overridden; a domain
  -- that only resembles another one, or shares its card, is never refused.
  pub refused_iff_used :
      (identifier : String) (existing : Option LedgerEntry) (entries : List LedgerEntry)
      → (fingerprint : Option String) (now days : ℕ)
      → allowed (evaluate texts identifier existing entries fingerprint now days)
        ≡ (not (is_some existing) || overridden_row existing)
  unfolding evaluate allowed is_overridden
  refused_iff_used identifier none entries fingerprint now days = ground arith
  refused_iff_used identifier (some row) entries fingerprint now days = ground arith

  -- An address on a free mail service is never refused: whatever trials were had before with the same address
  -- and the same card, the confirmation allows one, starts it if the provider grants it and this tenant
  -- has not had one, and writes nothing to the ledger.
  pub free_mail_never_refused :
      (grants : Bool) (identifier : String) (fingerprint : Option String) (now days : ℕ)
      (tenant : Tenant)
      → (ledger : Dict LedgerEntry) → has_domain texts identifier ≡ false
      → let c = settle_trial texts grants identifier fingerprint now days tenant ledger in
        (c.trial_allowed ≡ true)
        × (c.trial_started ≡ (grants && not (is_some tenant.trial_started_at)))
        × (c.ledger ≡ ledger)
  unfolding settle_trial evaluate allowed backfill is_own
  free_mail_never_refused grants identifier fingerprint now days tenant ledger h =
      rw h (ground arith)

  -- A confirmation is answered exactly if the provider is known and configured, the tenant exists, and the
  -- instrument verifies; otherwise an error is raised.
  pub confirmed_iff :
      (p : Option Provider) (reference identifier : String) (now days : ℕ) (tenant : Option Tenant)
      → (ledger : Dict LedgerEntry)
      → answers (confirm_payment_method texts p reference identifier now days tenant ledger)
        ≡ (is_ready p reference && is_some tenant)
  unfolding confirm_payment_method
  confirmed_iff none reference identifier now days tenant ledger = refl
  confirmed_iff (some p) reference identifier now days none ledger = ground arith
  confirmed_iff (some p) reference identifier now days (some t) ledger =
      elim (Option-cases (p.verify_instrument reference)) [
        | inl h ↦ rw h (ground arith)
        | inr (f, h) ↦ rw h (ground arith)
      ]
