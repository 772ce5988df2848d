-- ===== src/Platform/Graph/Profile.antt =====
-- The risk profile of a counterparty: class RiskProfile of server/src/envelock/platform/graph.py. The rate
-- of passed authentications is a float, compared with 0.9 by the parameter `below_0_9`.
use envelock.Prelude.{
  ℕ, ◌+◌, ◌*◌, ◌≤◌, min, String, Bool, true, false, Option, none, some, ltb, leb, if◌then◌else◌,
  ◌≡◌, ◌↔◌, arith,
}
use envelock.Core.{AlertTier, low, medium, high, critical}
use envelock.Platform.Graph.{Verdict, fraudulent, suspicious}

-- The fields of `RiskProfile` that the score reads
pub record RiskProfile (F : Type 0) : Type 0 where
  pub message_count : ℕ
  pub verified_phone : Option String
  pub auth_pass_rate : F
  pub incidents : ℕ
  pub graph_verdict : Option Verdict
  pub domain_age_days : Option ℕ

pub data Advice : Type 0 where
  do_not_pay confirm_by_phone add_a_phone normal : Advice

-- `self.graph_verdict is Verdict.SUSPICIOUS`
unfoldable pub verdict_risk : Option Verdict → ℕ
verdict_risk (some suspicious) = 40
verdict_risk _ = 0

unfoldable pub is_known_fraud : Option Verdict → Bool
is_known_fraud (some fraudulent) = true
is_known_fraud _ = false

-- `self.verified_phone is None`
unfoldable pub lacks_phone : Option String → Bool
lacks_phone none = true
lacks_phone (some phone) = false

-- `self.domain_age_days is not None and self.domain_age_days < 90`
unfoldable pub is_young : Option ℕ → Bool
is_young none = false
is_young (some days) = ltb days 90

module _ {F : Type 0} (below_0_9 : F → Bool) where
  -- `score`
  unfoldable pub score : RiskProfile F → ℕ
  score p =
      if is_known_fraud p.graph_verdict
      then 100
      else min
          (verdict_risk p.graph_verdict
            + (if lacks_phone p.verified_phone then 20 else 0)
            + (if is_young p.domain_age_days then 20 else 0)
            + (if below_0_9 p.auth_pass_rate then 15 else 0)
            + (if ltb p.message_count 5 then 10 else 0)
            + min (p.incidents * 10) 30)
          100

  -- `tier`
  unfoldable pub tier : RiskProfile F → AlertTier
  tier p =
      let s = score p in
      if leb 80 s then critical else if leb 50 s then high else if leb 25 s then medium else low

  -- `advice`
  unfoldable pub advice : RiskProfile F → Advice
  advice p =
      if leb 80 (score p)
      then do_not_pay
      else if leb 50 (score p)
      then confirm_by_phone
      else if lacks_phone p.verified_phone
      then add_a_phone
      else normal

  pub score_bound : (p : RiskProfile F) → score p ≤ 100
  unfolding score
  score_bound p = ground arith

  -- The advice is not to pay exactly for a critical profile, and to confirm by phone exactly for a high one;
  -- a domain that the graph holds for fraudulent is critical, and a profile with an incident less is no riskier.
  pub advice_agrees :
      (p : RiskProfile F)
      → ((advice p ≡ do_not_pay) ↔ (tier p ≡ critical))
        × ((advice p ≡ confirm_by_phone) ↔ (tier p ≡ high))
        × (p.graph_verdict ≡ some fraudulent → tier p ≡ critical)
        × (score p ≤ score (record p { incidents = p.incidents + 1 }))
  unfolding advice tier score is_known_fraud
  advice_agrees p = ground arith
