-- ===== src/Risk/Callback.antt =====
-- When an alert asks for a callback, and on which number.
use envelock.Prelude.{
  ◌≡◌, ◌↔◌, ◌⊎◌, ap, ◌∙◌, String, true, false, Option, none, some, List, [], ◌∷◌, elem, eq_iff,
  arith,
}
use envelock.Core.{AlertTier}
use envelock.Risk.{FindingResult, RiskAssessment, Floats, first_a1, callback, services_of, assess}

-- The first A1 finding is found exactly when there is one.
first_a1-none :
    (fs : List FindingResult) → (first_a1 fs ≡ none) ↔ (elem "A1" (services_of fs) ≡ false)
unfolding first_a1
first_a1-none [] = ground arith
first_a1-none (f ∷ fs) =
    ground (arith, first_a1-none fs, eq_iff f.service "A1", eq_iff "A1" f.service)

callback_of_assess :
    (fl : Floats) (f : FindingResult) (fs : List FindingResult) (a : RiskAssessment)
    → assess fl (f ∷ fs) ≡ some a
    → (a.requires_callback, a.callback_phone) ≡ callback (f ∷ fs) (services_of (f ∷ fs)) a.tier
unfolding assess
callback_of_assess fl f fs a e = ground arith

abbrev pub phone_of : Option (Option String) → Option String
phone_of none = none
phone_of (some phone) = phone

callback_cases :
    (fs : List FindingResult) (t : AlertTier)
    → ((callback fs (services_of fs) t).0 ≡ true) ↔ (
        (elem "A1" (services_of fs) ≡ true)
        ⊎ ((t ≡ AlertTier.critical) × (elem "A2" (services_of fs) ≡ true)))
unfolding callback
callback_cases fs t = ground (arith, first_a1-none fs)

phone_of-callback :
    (fs : List FindingResult) (services : List String) (t : AlertTier)
    → (callback fs services t).1 ≡ phone_of (first_a1 fs)
unfolding callback
phone_of-callback fs services t = ground arith

-- An alert asks for a callback exactly when an A1 finding is among its findings, or when it is
-- critical and an A2 finding is.
pub callback_iff :
    (fl : Floats) (findings : List FindingResult) (a : RiskAssessment)
    → assess fl findings ≡ some a
    → (a.requires_callback ≡ true) ↔ (
        (elem "A1" (services_of findings) ≡ true)
        ⊎ ((a.tier ≡ AlertTier.critical) × (elem "A2" (services_of findings) ≡ true)))
unfolding assess
callback_iff fl [] a e = absurd (cc)
callback_iff fl (f ∷ fs) a e =
    rw (ap (λ p. p.0) (callback_of_assess fl f fs a e)) (callback_cases (f ∷ fs) a.tier)

-- The number to call is the one on file with the first A1 finding; without an A1 finding there is
-- none, whatever the message says.
pub callback_phone_of_a1 :
    (fl : Floats) (findings : List FindingResult) (a : RiskAssessment)
    → assess fl findings ≡ some a
    → a.callback_phone ≡ phone_of (first_a1 findings)
unfolding assess
callback_phone_of_a1 fl [] a e = absurd (cc)
callback_phone_of_a1 fl (f ∷ fs) a e =
    ap (λ p. p.1) (callback_of_assess fl f fs a e) ∙ phone_of-callback (f ∷ fs) _ a.tier
