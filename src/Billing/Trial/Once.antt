-- ===== src/Billing/Trial/Once.antt =====
-- One trial for each registrable domain: `_start_signup_trial` of server/src/envelock/api/auth.py and
-- `confirm_payment_method` of server/src/envelock/api/billing.py on one ledger.
use envelock.Prelude.{
  ℕ, ◌+◌, ◌≤◌, String, Bool, true, false, not, ◌&&◌, ◌||◌, Option, none, some, List, [], ◌∷◌,
  str_eq, if◌then◌else◌, ◌≡◌, refl, arith, Bool-cases, inl, inr, eq_iff, subst, sym, ◌∙◌,
}
use envelock.Prelude.Dict.{Dict, lookup, insert, lookup-insert, is_some}
use envelock.Billing.Trial.{
  Texts, LedgerEntry, Tenant, allowed, has_domain, is_overridden, given_text, evaluate, new_entry,
  start_signup_trial, is_own, backfilled, backfill, settle_trial, same_instrument,
}

-- A call that may start a trial; each carries the tenant as it stands.
pub data Call : Type 0 where
  sign_up : (email : String) (now : ℕ) → Tenant → Call
  confirm :
      (grants : Bool) (identifier : String) (fingerprint : Option String) (now : ℕ) → Tenant → Call

-- A domain whose one trial is used: its row is not one that sales have overridden.
unfoldable pub is_used : Option LedgerEntry → Bool
is_used none = false
is_used (some row) = not (is_some (given_text row.override_by))

used_is_some : (o : Option LedgerEntry) → is_used o ≡ true → is_some o ≡ true
unfolding is_used
used_is_some none h = ground (arith, h)
used_is_some (some row) h = refl

new_is_used :
    (reg : String) (now id : ℕ) (fp : Option String)
    → is_used (some (new_entry reg now id fp)) ≡ true
unfolding is_used new_entry given_text
new_is_used reg now id fp = refl

is_used-backfilled :
    (fp : Option String) (row : LedgerEntry)
    → is_used (some (backfilled fp row)) ≡ is_used (some row)
unfolding is_used backfilled
is_used-backfilled fp row = ground arith

-- A look at a row that a backfill does not change, and that misses a row that is not there.
abbrev IsSight : (Option LedgerEntry → Bool) → Type 0
IsSight seen =
    (seen none ≡ false)
    × ((fp : Option String) (row : LedgerEntry) → seen (some (backfilled fp row)) ≡ seen (some row))

used-IsSight : IsSight is_used
unfolding is_used
used-IsSight = (refl, is_used-backfilled)

some-IsSight : IsSight is_some
some-IsSight = (refl, λ fp row. refl)

-- What the writes of a confirmation leave of the row of a domain.
written :
    (seen : Option LedgerEntry → Bool) (d reg : String) (starts own : Bool) (o : Option LedgerEntry)
    → (fp : Option String) (new : LedgerEntry) (ledger : Dict LedgerEntry) → IsSight seen
    → lookup reg ledger ≡ o
    → seen (some new) ≡ true
    → seen (
        lookup d (
          if starts
          then if not (is_some o) then insert reg new ledger else ledger
          else if own
          then backfill reg fp o ledger
          else ledger))
      ≡ (seen (lookup d ledger) || (str_eq reg d && starts && not (is_some (lookup d ledger))))
unfolding backfill
written seen d reg starts own none fp new ledger sight h n =
    ground (arith, h, n, sight, eq_iff reg d, lookup-insert d reg new ledger)
written seen d reg starts own (some row) fp new ledger sight h n =
    ground
      (arith, h, n, sight.1 fp row, eq_iff reg d, lookup-insert d reg (backfilled fp row) ledger)

not_some : (o : Option LedgerEntry) → is_some o ≡ false → o ≡ none
not_some none h = refl
not_some (some row) h = ground (arith, h)

module _ (texts : Texts) (trial_days : ℕ) where
  -- The ledger after a call.
  unfoldable pub ledger_after : Call → Dict LedgerEntry → Dict LedgerEntry
  ledger_after (sign_up email now tenant) ledger =
      (start_signup_trial texts email now trial_days tenant ledger).ledger
  ledger_after (confirm grants identifier fingerprint now tenant) ledger =
      (settle_trial texts grants identifier fingerprint now trial_days tenant ledger).ledger

  -- Whether a call starts a trial on the domain `d`.
  unfoldable pub starts_on : (d : String) → Call → Dict LedgerEntry → Bool
  starts_on d (sign_up email now tenant) ledger =
      let part = texts.domain_part email in
      (has_domain texts part && str_eq (texts.registrable part) d)
      && (start_signup_trial texts email now trial_days tenant ledger).started
  starts_on d (confirm grants identifier fingerprint now tenant) ledger =
      (has_domain texts identifier && str_eq (texts.registrable identifier) d)
      && (settle_trial texts grants identifier fingerprint now trial_days tenant
          ledger).trial_started

  -- The number of trials that a run of calls starts on a domain.
  unfoldable pub trials_on : (d : String) → List Call → Dict LedgerEntry → ℕ
  trials_on d [] ledger = 0
  trials_on d (call ∷ calls) ledger =
      (if starts_on d call ledger then 1 else 0) + trials_on d calls (ledger_after call ledger)

  refused_once_used :
      (identifier : String) (o : Option LedgerEntry) (es : List LedgerEntry) (fp : Option String)
      (now : ℕ)
      → is_used o ≡ true
      → allowed (evaluate texts identifier o es fp now trial_days) ≡ false
  unfolding is_used evaluate allowed is_overridden
  refused_once_used identifier none es fp now h = ground (arith, h)
  refused_once_used identifier (some row) es fp now h = ground (arith, h)

  unwritten :
      (seen : Option LedgerEntry → Bool) (d : String) (starts own : Bool)
      (ledger : Dict LedgerEntry)
      → seen (lookup d (if starts then ledger else if own then ledger else ledger))
        ≡ (seen (lookup d ledger) || false)
  unwritten seen d starts own ledger = ground arith

  -- What a confirmation leaves of the row of a domain.
  row_after :
      (seen : Option LedgerEntry → Bool) (d : String) (grants : Bool) (identifier : String)
      → (fp : Option String) (now : ℕ) (tenant : Tenant) (ledger : Dict LedgerEntry) → IsSight seen
      → seen (some (new_entry (texts.registrable identifier) now tenant.id fp)) ≡ true
      → let reg = texts.registrable identifier in
        let on = has_domain texts identifier && str_eq reg d in
        let c = settle_trial texts grants identifier fp now trial_days tenant ledger in
        seen (lookup d c.ledger)
        ≡ (seen (lookup d ledger) || (on && c.trial_started && not (is_some (lookup d ledger))))
  unfolding settle_trial backfill
  row_after seen d grants identifier fp now tenant ledger sight new =
      let reg = texts.registrable identifier in
      elim (Bool-cases (has_domain texts identifier)) [
        | inl h ↦
            let row = lookup reg ledger in
            let entries = same_instrument fp reg ledger in
            let starts =
              grants
              && allowed (evaluate texts identifier row entries fp now trial_days)
              && not (is_some tenant.trial_started_at) in
            rw h (
              written seen d reg starts (is_own tenant.id row) row fp
                (new_entry reg now tenant.id fp) ledger sight refl new)
        | inr h ↦ rw h (unwritten seen d _ _ ledger)
      ]

  refused_on :
      (d : String) (grants : Bool) (identifier : String) (fp : Option String) (now : ℕ)
      (tenant : Tenant)
      → (ledger : Dict LedgerEntry) → is_used (lookup d ledger) ≡ true
      → ((has_domain texts identifier && str_eq (texts.registrable identifier) d)
          && (settle_trial texts grants identifier fp now trial_days tenant ledger).trial_started)
        ≡ false
  unfolding settle_trial
  refused_on d grants identifier fp now tenant ledger h =
      let reg = texts.registrable identifier in
      elim (Bool-cases (has_domain texts identifier)) [
        | inr k ↦ rw k refl
        | inl k ↦ elim (Bool-cases (str_eq reg d)) [
          | inr e ↦ rw (k, e) refl
          | inl e ↦
              let used =
                subst (λ x. is_used (lookup x ledger) ≡ true) (sym ((eq_iff reg d).0 e)) h in
              rw
                (
                  k,
                  e,
                  refused_once_used identifier (lookup reg ledger) (same_instrument fp reg ledger)
                      fp now used,
                )
                (ground arith)
        ]
      ]

  used_stays :
      (d : String) (call : Call) (ledger : Dict LedgerEntry)
      → is_used (lookup d ledger) ≡ true
      → (starts_on d call ledger ≡ false) × (is_used (lookup d (ledger_after call ledger)) ≡ true)
  unfolding starts_on ledger_after start_signup_trial
  used_stays d (sign_up email now tenant) ledger h =
      let reg = texts.registrable (texts.domain_part email) in
      let row = new_entry reg now tenant.id none in
      ground (
        arith,
        h,
        eq_iff reg d,
        lookup-insert d reg row ledger,
        used_is_some (lookup d ledger),
        new_is_used reg now tenant.id none,
      )
  used_stays d (confirm grants identifier fingerprint now tenant) ledger h =
      let reg = texts.registrable identifier in
      (
        refused_on d grants identifier fingerprint now tenant ledger h,
        ground (
          arith,
          h,
          row_after is_used d grants identifier fingerprint now tenant ledger used-IsSight
              (new_is_used reg now tenant.id fingerprint),
        ),
      )

  -- A call on a domain without a row starts the trial that uses it, or leaves it without one.
  free_until_started :
      (d : String) (call : Call) (ledger : Dict LedgerEntry)
      → lookup d ledger ≡ none
      → let after = lookup d (ledger_after call ledger) in
        (is_used after ≡ starts_on d call ledger) × (is_some after ≡ starts_on d call ledger)
  unfolding starts_on ledger_after start_signup_trial is_used
  free_until_started d (sign_up email now tenant) ledger h =
      let reg = texts.registrable (texts.domain_part email) in
      ground (
        arith,
        h,
        eq_iff reg d,
        lookup-insert d reg (new_entry reg now tenant.id none) ledger,
        new_is_used reg now tenant.id none,
      )
  free_until_started d (confirm grants identifier fp now tenant) ledger h =
      let reg = texts.registrable identifier in
      ground (
        arith,
        h,
        row_after is_used d grants identifier fp now tenant ledger used-IsSight
            (new_is_used reg now tenant.id fp),
        row_after is_some d grants identifier fp now tenant ledger some-IsSight refl,
      )

  no_more_trials :
      (d : String) (calls : List Call) (ledger : Dict LedgerEntry)
      → is_used (lookup d ledger) ≡ true
      → trials_on d calls ledger ≡ 0
  unfolding trials_on
  no_more_trials d [] ledger h = refl
  no_more_trials d (call ∷ calls) ledger h =
      let (refused, still) = used_stays d call ledger h in
      rw (refused, no_more_trials d calls (ledger_after call ledger) still) refl

  one_at_most :
      (d : String) (calls : List Call) (ledger : Dict LedgerEntry)
      → lookup d ledger ≡ none
      → trials_on d calls ledger ≤ 1
  unfolding trials_on
  one_at_most d [] ledger h = ground arith
  one_at_most d (call ∷ calls) ledger h =
      let after = ledger_after call ledger in
      let (used, there) = free_until_started d call ledger h in
      elim (Bool-cases (starts_on d call ledger)) [
        | inl s ↦ rw (s, no_more_trials d calls after (used ∙ s)) (ground arith)
        | inr s ↦
            rw s (ground (arith, one_at_most d calls after (not_some (lookup d after) (there ∙ s))))
      ]

  -- Over any run of sign-ups and confirmed payment methods, by any tenants, a registrable domain gets at most
  -- one trial, when the ledger starts empty.
  pub one_trial_per_domain : (d : String) (calls : List Call) → trials_on d calls [] ≤ 1
  unfolding lookup
  one_trial_per_domain d calls = one_at_most d calls [] refl
