-- ===== src/Risk/Tests.antt =====
-- The properties of the assessment at concrete inputs: floats are counted in units of 1/720720.
use envelock.Prelude.{
  ℕ, ◌+◌, ◌*◌, ◌/◌, ◌≤◌, refl, arith, false, Option, none, some, List, [], ◌∷◌, map, All,
}
use envelock.Core.{AlertTier, order}
use envelock.Risk.{FindingResult, RiskAssessment, Floats, assess}
use envelock.Risk.Tier.{assess_never_demotes}
use envelock.Risk.Score.{IsIeee, score_bounds}

abbrev fixed : Floats
fixed = record {
  Float = ℕ;
  int_zero = 0;
  div = λ a b. a * 720720 / b;
  add = λ a b. a + b;
  trunc = λ x. x / 720720;
}

fixed-IsIeee : IsIeee fixed
fixed-IsIeee = record { exact = λ s h. omega arith; grows = λ x s i. omega arith }

abbrev new_account : FindingResult
new_account = record {
  service = "A2";
  tier = AlertTier.medium;
  score = 40;
  summary = "New bank details";
  evidence = [];
}

abbrev lookalike : FindingResult
lookalike = record {
  service = "A3";
  tier = AlertTier.high;
  score = 60;
  summary = "Lookalike domain";
  evidence = [];
}

abbrev changed_account : FindingResult
changed_account = record {
  service = "A1";
  tier = AlertTier.high;
  score = 90;
  summary = "Bank details changed";
  evidence = ("callback_phone", "+441632960002") ∷ [];
}

abbrev found : List FindingResult
found = new_account ∷ lookalike ∷ []

abbrev known_vendor : List FindingResult
known_vendor = changed_account ∷ lookalike ∷ []

abbrev or_no_alert : Option RiskAssessment → RiskAssessment
or_no_alert none = record {
  tier = AlertTier.low;
  score = 0;
  title = "";
  body = "";
  services = [];
  requires_callback = false;
  callback_phone = none;
  rationale = [];
}
or_no_alert (some a) = a

abbrev novel : RiskAssessment
novel = or_no_alert (assess fixed found)

abbrev known : RiskAssessment
known = or_no_alert (assess fixed known_vendor)

assess_never_demotes_example : All (λ f. order f.tier ≤ order novel.tier) found
unfolding assess
assess_never_demotes_example = assess_never_demotes fixed found novel refl

score_bounds_example :
    (known.score ≤ 100) × All (λ s. s ≤ known.score) (map (λ f. f.score) known_vendor)
unfolding assess
score_bounds_example =
    score_bounds fixed fixed-IsIeee known_vendor known refl (omega arith, (omega arith, tt))
