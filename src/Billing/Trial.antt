-- ===== src/Billing/Trial.antt =====
-- Trials: server/src/envelock/billing/trial.py, and the two places that start one: sign-up in
-- server/src/envelock/api/auth.py and the confirmation of a payment method in
-- server/src/envelock/api/billing.py. The public suffix list and Python's operations on texts are
-- parameters; times are whole days.
pub mod Once
pub mod FreeMail
mod Tests
use envelock.Prelude.{
  ℕ, ◌+◌, min, String, Bool, true, false, not, ◌&&◌, ◌||◌, Option, none, some, List, [], ◌∷◌, ◌++◌,
  ◌==◌, str_eq, leb, length, is_empty, keep, if◌then◌else◌,
}
use envelock.Prelude.Dict.{Dict, lookup, insert, is_some}
use envelock.Domains.{is_free_mail}
use envelock.Detections.Attachments.Triage.{contains}

pub data Eligibility : Type 0 where
  eligible already_used review overridden : Eligibility

-- `DomainTrialLedger`, which stands under its registrable domain; a `LedgerEntry` has the same fields
pub record LedgerEntry : Type 0 where
  pub registrable_domain : String
  pub first_trial_at : ℕ
  pub first_tenant_id : ℕ
  pub payment_fingerprint : Option String
  pub override_by : Option String

-- What a trial is locked to. The source writes the two kinds as texts that begin with `domain:` and
-- `mailbox:`.
pub data TrialKey : Type 0 where
  domain : String → TrialKey
  mailbox : (address : String) → (fingerprint : Option String) → TrialKey

pub record TrialDecision : Type 0 where
  pub eligibility : Eligibility
  pub trial_key : TrialKey
  pub ends_at : Option ℕ

-- `TrialDecision.allowed`
unfoldable pub allowed : TrialDecision → Bool
allowed d = allows d.eligibility
  where
    allows : Eligibility → Bool
    allows already_used = false
    allows _ = true

-- `registrable_domain`, `identifier.strip().lower()`, `email.rsplit("@", 1)[-1] if "@" in email else ""`,
-- and the code points of a text.
pub record Texts : Type 0 where
  pub registrable : String → String
  pub normal : String → String
  pub domain_part : String → String
  pub points : String → List ℕ

-- `payment_fingerprint` as a truth value
unfoldable pub given_text : Option String → Option String
given_text none = none
given_text (some s) = if str_eq s "" then none else some s

-- `label.partition(".")[0]`
unfoldable pub first_label : List ℕ → List ℕ
first_label [] = []
first_label (c ∷ s) = let rest = first_label s in if c == b'.' then [] else c ∷ rest

unfoldable pub same_points : List ℕ → List ℕ → Bool
same_points xs ys = contains xs ys && contains ys xs

-- `_related`
unfoldable pub related : Texts → (a b : String) → Bool
related texts a b =
    let la = first_label (texts.points a) in
    let lb = first_label (texts.points b) in
    if is_empty la || is_empty lb || same_points la lb
    then false
    else (contains lb la || contains la lb) && leb 4 (min (length la) (length lb))

module _ (texts : Texts) where
  -- `reg and not is_free_mail(reg)`
  unfoldable pub has_domain : String → Bool
  has_domain identifier =
      let reg = texts.registrable identifier in
      not (str_eq reg "") && not (is_free_mail texts.registrable reg)

  -- `trial_key`
  unfoldable pub trial_key :
      (identifier : String) → (payment_fingerprint : Option String) → TrialKey
  trial_key identifier payment_fingerprint =
      if has_domain identifier
      then domain (texts.registrable identifier)
      else mailbox (texts.normal identifier) (given_text payment_fingerprint)

  -- `payment_fingerprint is not None and entry.payment_fingerprint == payment_fingerprint`
  unfoldable pub matches_payment : Option String → Option String → Bool
  matches_payment none recorded = false
  matches_payment (some print) none = false
  matches_payment (some print) (some recorded) = str_eq recorded print

  -- The loop of `evaluate` over the related entries: whether one of them is flagged.
  unfoldable pub resembles : (reg : String) → Option String → List LedgerEntry → Bool
  resembles reg payment_fingerprint [] = false
  resembles reg payment_fingerprint (entry ∷ entries) =
      matches_payment payment_fingerprint entry.payment_fingerprint
      || (not (str_eq reg "") && related texts reg entry.registrable_domain)
      || resembles reg payment_fingerprint entries

  -- `if existing.override_by`
  unfoldable pub is_overridden : LedgerEntry → Bool
  is_overridden entry = is_some (given_text entry.override_by)

  -- `evaluate`, less the reason that it words
  unfoldable pub evaluate :
      (identifier : String)
      → Option LedgerEntry
      → (related_entries : List LedgerEntry) → (payment_fingerprint : Option String)
      → (now trial_days : ℕ) → TrialDecision
  evaluate identifier (some existing) entries payment_fingerprint now trial_days =
      let key = trial_key identifier payment_fingerprint in
      if is_overridden existing
      then record { eligibility = overridden; trial_key = key; ends_at = some (now + trial_days) }
      else record { eligibility = already_used; trial_key = key; ends_at = none }
  evaluate identifier none entries payment_fingerprint now trial_days = record {
    eligibility =
        if resembles (texts.registrable identifier) payment_fingerprint entries
        then review
        else eligible;
    trial_key = trial_key identifier payment_fingerprint;
    ends_at = some (now + trial_days);
  }

-- The fields of `Tenant` that trials read or change; `on_complete` says that a trial put it on the plan
-- Complete
pub record Tenant : Type 0 where
  pub id : ℕ
  pub on_complete : Bool
  pub trial_started_at : Option ℕ
  pub trial_ends_at : Option ℕ
  pub payment_method_ok : Bool

unfoldable pub new_entry : (reg : String) (now tenant_id : ℕ) → Option String → LedgerEntry
new_entry reg now tenant_id fingerprint = record {
  registrable_domain = reg;
  first_trial_at = now;
  first_tenant_id = tenant_id;
  payment_fingerprint = fingerprint;
  override_by = none;
}

-- A tenant and the ledger, and whether a trial was started.
pub record Started : Type 0 where
  pub tenant : Tenant
  pub ledger : Dict LedgerEntry
  pub started : Bool

unfoldable pub put_on_trial : (now trial_days : ℕ) → Tenant → Tenant
put_on_trial now trial_days tenant = record tenant {
  trial_started_at = some now;
  trial_ends_at = some (now + trial_days);
}

-- The start of a trial at sign-up, `_start_signup_trial`.
unfoldable pub start_signup_trial :
    Texts → (email : String) → (now trial_days : ℕ) → Tenant → Dict LedgerEntry → Started
start_signup_trial texts email now trial_days tenant ledger =
    let part = texts.domain_part email in
    let reg = texts.registrable part in
    let on_trial = record (put_on_trial now trial_days tenant) { on_complete = true } in
    if not (has_domain texts part)
    then record { tenant = on_trial; ledger = ledger; started = true }
    else if is_some (lookup reg ledger)
    then record { tenant = tenant; ledger = ledger; started = false }
    else record {
      tenant = on_trial;
      ledger = insert reg (new_entry reg now tenant.id none) ledger;
      started = true;
    }

-- A payment provider: `verify_instrument` answers the fingerprint of an instrument, if it has one, or
-- raises.
pub record Provider : Type 0 where
  pub is_configured : Bool
  pub grants_entitlement : Bool
  pub verify_instrument : (reference : String) → Option (Option String)

-- The answer of `confirm_payment_method`, with the tables afterwards.
pub record Confirmation : Type 0 where
  pub gate_passed : Bool
  pub trial_allowed : Bool
  pub trial_started : Bool
  pub own_trial : Bool
  pub decision : TrialDecision
  pub tenant : Tenant
  pub ledger : Dict LedgerEntry

-- What `confirm_payment_method` does: raises one of four errors, or answers.
pub data Confirmed : Type 0 where
  unknown_provider not_available no_tenant not_verified : Confirmed
  confirmed : Confirmation → Confirmed

-- `row is not None and row.first_tenant_id == tenant.id`
unfoldable pub is_own : (tenant_id : ℕ) → Option LedgerEntry → Bool
is_own tenant_id none = false
is_own tenant_id (some row) = row.first_tenant_id == tenant_id

-- `instrument.fingerprint and not row.payment_fingerprint`: the row with the fingerprint, where it had none
unfoldable pub backfilled : Option String → LedgerEntry → LedgerEntry
backfilled fingerprint row =
    if is_some (given_text fingerprint) && not (is_some (given_text row.payment_fingerprint))
    then record row { payment_fingerprint = fingerprint }
    else row

unfoldable pub backfill :
    (reg : String) → Option String → Option LedgerEntry → Dict LedgerEntry → Dict LedgerEntry
backfill reg fingerprint none ledger = ledger
backfill reg fingerprint (some row) ledger = insert reg (backfilled fingerprint row) ledger

-- The other rows with the same instrument.
unfoldable pub same_instrument :
    Option String → (reg : String) → Dict LedgerEntry → List LedgerEntry
same_instrument fingerprint reg [] = []
same_instrument fingerprint reg ((k, row) ∷ rows) =
    let rest = same_instrument fingerprint reg rows in
    if is_some (given_text fingerprint)
      && str_eq (text row.payment_fingerprint) (text fingerprint)
      && not (str_eq row.registrable_domain reg)
    then row ∷ rest
    else rest
  where
    text : Option String → String
    text none = ""
    text (some s) = s

module _ (texts : Texts) where
  -- `confirm_payment_method` after the verification of the instrument
  unfoldable pub settle_trial :
      (grants : Bool) (identifier : String) (fingerprint : Option String) (now trial_days : ℕ)
      → Tenant
      → Dict LedgerEntry
      → Confirmation
  settle_trial grants identifier fingerprint now trial_days tenant ledger =
      let reg = texts.registrable identifier in
      let is_domain_trial = has_domain texts identifier in
      let row : Option LedgerEntry = if is_domain_trial then lookup reg ledger else none in
      let entries = if is_domain_trial then same_instrument fingerprint reg ledger else [] in
      let decision = evaluate texts identifier row entries fingerprint now trial_days in
      let own = is_own tenant.id row in
      let paid = record tenant { payment_method_ok = grants || tenant.payment_method_ok } in
      let starts = grants && allowed decision && not (is_some tenant.trial_started_at) in
      record {
        gate_passed = grants || tenant.payment_method_ok;
        trial_allowed = own || allowed decision;
        trial_started = starts;
        own_trial = own;
        decision = decision;
        tenant = if starts then put_on_trial now trial_days paid else paid;
        ledger =
            if starts
            then if is_domain_trial && not (is_some row)
              then insert reg (new_entry reg now tenant.id fingerprint) ledger
              else ledger
            else if own
            then backfill reg fingerprint row ledger
            else ledger;
      }

  -- `confirm_payment_method`, for the identifier that `_trial_identifier` answers
  unfoldable pub confirm_payment_method :
      Option Provider
      → (reference identifier : String) (now trial_days : ℕ) → Option Tenant
      → Dict LedgerEntry
      → Confirmed
  confirm_payment_method none reference identifier now trial_days tenant ledger = unknown_provider
  confirm_payment_method (some p) reference identifier now trial_days tenant ledger =
      if not p.is_configured then not_available else found tenant
    where
      verified : Tenant → Option (Option String) → Confirmed
      verified t none = not_verified
      verified t (some fingerprint) =
          confirmed
            (settle_trial p.grants_entitlement identifier fingerprint now trial_days t ledger)

      found : Option Tenant → Confirmed
      found none = no_tenant
      found (some t) = verified t (p.verify_instrument reference)
