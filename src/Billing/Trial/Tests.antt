-- ===== src/Billing/Trial/Tests.antt =====
-- The properties of trials at concrete inputs.
use envelock.Prelude.{◌≤◌, ◌≡◌, refl, true, false, not, ◌&&◌, none, some, [], ◌∷◌}
use envelock.Prelude.Dict.{is_some}
use envelock.Billing.Trial.{Texts, Tenant, Provider, has_domain, settle_trial}
use envelock.Domains.{is_free_mail, free_mail}
use envelock.Billing.Trial.Once.{sign_up, confirm, trials_on, one_trial_per_domain}
use envelock.Billing.Trial.FreeMail.{free_mail_never_refused}

-- Every address is written as its domain.
abbrev plain : Texts
plain = record { registrable = λ s. s; normal = λ s. s; domain_part = λ s. s; points = λ s. [] }

abbrev newcomer : Tenant
newcomer = record {
  id = 7;
  on_complete = false;
  trial_started_at = none;
  trial_ends_at = none;
  payment_method_ok = false;
}

one_trial_per_domain_example :
    trials_on plain 15 "acme.example"
      (sign_up "acme.example" 0 newcomer
        ∷ sign_up "acme.example" 40 (record newcomer { id = 8 })
        ∷ confirm true "acme.example" (some "fp") 50 (record newcomer { id = 9 })
        ∷ [])
      []
    ≤ 1
one_trial_per_domain_example = one_trial_per_domain plain 15 "acme.example" (
    sign_up "acme.example" 0 newcomer
    ∷ sign_up "acme.example" 40 (record newcomer { id = 8 })
    ∷ confirm true "acme.example" (some "fp") 50 (record newcomer { id = 9 })
    ∷ [])

free_mail_never_refused_example :
    ((settle_trial plain true "gmail.com" (some "fp") 50 15 newcomer []).trial_allowed ≡ true)
    × ((settle_trial plain true "gmail.com" (some "fp") 50 15 newcomer []).trial_started
        ≡ (true && not (is_some newcomer.trial_started_at)))
    × ((settle_trial plain true "gmail.com" (some "fp") 50 15 newcomer []).ledger ≡ [])
unfolding has_domain is_free_mail free_mail
free_mail_never_refused_example =
    free_mail_never_refused plain true "gmail.com" (some "fp") 50 15 newcomer [] refl

abbrev sandbox : Provider
sandbox = record {
  is_configured = true;
  grants_entitlement = true;
  verify_instrument = λ reference. some (some "fp");
}
