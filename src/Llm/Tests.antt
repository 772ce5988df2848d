-- ===== src/Llm/Tests.antt =====
-- The properties of the judge at concrete inputs.
use envelock.Prelude.{
  ℕ, ◌-◌, ◌≡◌, min, String, true, false, ◌&&◌, none, some, List, [], ◌∷◌, count_if, ◌==◌, str_eq,
}
use envelock.Core.{AlertTier}
use envelock.Risk.{RiskAssessment}
use envelock.Llm.{Cascade, refine, claimed_calls}
use envelock.Llm.Refine.{refine_never_demotes, granted_calls_lem, granted_calls, Escalates}

abbrev agreeing : Cascade
agreeing = record {
  is_mail = true;
  configured = true;
  ai_on_links = false;
  cap = 2;
  min_confidence = 70;
  mailbox_id = 3;
  period = "2026-02";
  judge = λ a. some (record {
    escalate = true;
    confidence = 90;
    rationale = "An urgent change of account.";
    cost_micros = 40;
  });
}

abbrev suspect : RiskAssessment
suspect = record {
  tier = AlertTier.high;
  score = 60;
  title = "New bank details";
  body = "New bank details";
  services = "A2" ∷ [];
  requires_callback = false;
  callback_phone = none;
  rationale = [];
}

refine_never_demotes_example :
    (b : RiskAssessment) × ((refine agreeing [] (some suspect)).assessment ≡ some b)
    × Escalates suspect b
refine_never_demotes_example = refine_never_demotes agreeing [] suspect

abbrev month_claims : List (ℕ × String)
month_claims = (3, "2026-02") ∷ (4, "2026-02") ∷ (3, "2026-02") ∷ (3, "2026-02") ∷ []

granted_calls_example :
    granted_calls 2 3 "2026-02" month_claims []
    ≡ min
        (count_if (λ x. 3 == x.0 && str_eq "2026-02" x.1) month_claims)
        (2 - claimed_calls 3 "2026-02" [])
granted_calls_example = granted_calls_lem 2 3 "2026-02" month_claims []
