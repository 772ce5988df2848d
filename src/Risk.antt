-- ===== src/Risk.antt =====
-- Risk scoring and alert tiering: server/src/envelock/risk/engine.py.
-- The score is a sum of floating point quotients, so the float operations are a parameter.
pub mod Tier
pub mod Callback
pub mod Score
mod Tests
use Prim.Native.Nat.{Ordering}
use Prim.Native.String
use envelock.Prelude.{
  ℕ, ◌+◌, min, String, Bool, true, false, not, ◌&&◌, Option, none, some, List, [], ◌∷◌, ◌++◌, map,
  keep, ltb, leb, str_eq, elem, subset, if◌then◌else◌,
}
use envelock.Prelude.Dict.{Dict, lookup}
use envelock.Core.{AlertTier, order}

-- `FindingResult` of detections/base.py; of the evidence the texts are kept.
pub record FindingResult : Type 0 where
  pub service : String
  pub tier : AlertTier
  pub score : ℕ
  pub summary : String
  pub evidence : Dict String

pub record RiskAssessment : Type 0 where
  pub tier : AlertTier
  pub score : ℕ
  pub title : String
  pub body : String
  pub services : List String
  pub requires_callback : Bool
  pub callback_phone : Option String
  pub rationale : List String

-- `is_alertable`
unfoldable pub is_alertable : RiskAssessment → Bool
unfolding order
is_alertable a = ltb 0 (order a.tier)

-- Python's floats: `a / b` on ints, `+`, and `int(...)`.
pub record Floats : Type 1 where
  pub Float : Type 0
  pub int_zero : Float
  pub div : ℕ → ℕ → Float
  pub add : Float → Float → Float
  pub trunc : Float → ℕ

-- An entry of `_COMBINATIONS`: the services, the explanation, the floor.
pub record Combination : Type 0 where
  pub services : List String
  pub explanation : String
  pub floor : Option AlertTier

abbrev combination : List String → String → Option AlertTier → Combination
combination services explanation floor = record {
  services = services;
  explanation = explanation;
  floor = floor;
}

-- `_COMBINATIONS`
unfoldable pub combinations : List Combination
combinations =
    combination ("A7" ∷ "A1" ∷ [])
      "First-ever contact from this domain, and it changes payment details." none
    ∷ combination ("A3" ∷ "A1" ∷ []) "A lookalike domain is requesting a payment-detail change."
        none
    ∷ combination ("A6" ∷ "A1" ∷ [])
        "Payment details changed and replies would be redirected elsewhere." none
    ∷ combination ("A10" ∷ "A1" ∷ [])
        "Sending infrastructure changed and payment details changed with it." none
    ∷ combination ("A8" ∷ "A1" ∷ []) "Thread hijacking combined with a payment-detail change." none
    ∷ combination ("A14" ∷ "A1" ∷ []) "Payment-detail change delivered with urgency pressure." none
    ∷ combination ("C1" ∷ "C11" ∷ [])
        "External forwarding rule alongside unexplained mailbox access." none
    ∷ combination ("A2" ∷ "A4" ∷ [])
        "Payment instructions from an unverified payee on a homoglyph domain."
        (some AlertTier.critical)
    ∷ combination ("A2" ∷ "A3" ∷ [])
        "Payment instructions from an unverified payee on a lookalike domain."
        (some AlertTier.critical)
    ∷ combination ("A2" ∷ "A5" ∷ [])
        "Payment instructions from an unverified payee spoofing a known display name."
        (some AlertTier.critical)
    ∷ combination ("A2" ∷ "A6" ∷ [])
        "Payment instructions from an unverified payee, with replies redirected elsewhere."
        (some AlertTier.critical)
    ∷ combination ("A2" ∷ "B7" ∷ []) "Payment instructions from a sender on a public blocklist."
        (some AlertTier.critical)
    ∷ combination ("A2" ∷ "A7" ∷ "A14" ∷ [])
        "First-ever contact, urgent, sending payment instructions to a new payee — verify by phone before paying."
        (some AlertTier.critical)
    ∷ []

-- `_promote` by one step; `_BY_RANK` inverts `_ORDER`.
unfoldable pub promote : AlertTier → AlertTier
promote AlertTier.low = AlertTier.medium
promote AlertTier.medium = AlertTier.high
promote AlertTier.high = AlertTier.critical
promote AlertTier.critical = AlertTier.critical

-- `max(findings, key=lambda f: (_ORDER[f.tier], f.score))`: the first of the greatest.
unfoldable pub heavier : FindingResult → FindingResult → Bool
heavier a b =
    if ltb (order b.tier) (order a.tier)
    then true
    else if ltb (order a.tier) (order b.tier)
    then false
    else ltb b.score a.score

unfoldable pub base_of : FindingResult → List FindingResult → FindingResult
base_of best [] = best
base_of best (f ∷ fs) = base_of (if heavier f best then f else best) fs

-- One round of the loop over the combinations, on the tier.
unfoldable pub raise_tier : Option AlertTier → AlertTier → AlertTier
raise_tier none tier = promote tier
raise_tier (some floor) tier = if ltb (order tier) (order floor) then floor else tier

unfoldable pub combine : List Combination → List String → AlertTier → AlertTier × List String
combine [] services tier = (tier, [])
combine (c ∷ cs) services tier =
    let applies = subset c.services services in
    let (tier', rationale) =
      combine cs services (if applies then raise_tier c.floor tier else tier) in
    (tier', if applies then c.explanation ∷ rationale else rationale)

-- `sorted(scores, reverse=True)`
unfoldable pub insert_score : ℕ → List ℕ → List ℕ
insert_score s [] = s ∷ []
insert_score s (t ∷ ts) = if ltb s t then t ∷ insert_score s ts else s ∷ t ∷ ts

unfoldable pub sort_scores : List ℕ → List ℕ
sort_scores [] = []
sort_scores (s ∷ ss) = insert_score s (sort_scores ss)

-- `sum(s / (i + 1) for i, s in enumerate(ordered))`, from `i`, on the sum so far
unfoldable pub weigh : (fl : Floats) → fl.Float → ℕ → List ℕ → fl.Float
weigh fl acc i [] = acc
weigh fl acc i (s ∷ ss) = weigh fl (fl.add acc (fl.div s (i + 1))) (i + 1) ss

unfoldable pub aggregate : Floats → List ℕ → ℕ
aggregate fl scores = min 100 (fl.trunc (weigh fl fl.int_zero 0 (sort_scores scores)))

-- `sorted(services)` on a set of texts, which holds each once
abbrev place : String → String → List String → List String → Ordering → List String
place s t ts more Ordering.lt = s ∷ t ∷ ts
place s t ts more Ordering.eq = t ∷ ts
place s t ts more Ordering.gt = t ∷ more

unfoldable pub insert_service : String → List String → List String
insert_service s [] = s ∷ []
insert_service s (t ∷ ts) = place s t ts (insert_service s ts) (String.compare s t)

unfoldable pub sort_services : List String → List String
sort_services [] = []
sort_services (s ∷ ss) = insert_service s (sort_services ss)

-- The loop for the callback: the first A1 finding, and the phone number on file with it.
unfoldable pub first_a1 : List FindingResult → Option (Option String)
first_a1 [] = none
first_a1 (f ∷ fs) =
    if str_eq f.service "A1" then some (lookup "callback_phone" f.evidence) else first_a1 fs

abbrev pub is_critical : AlertTier → Bool
is_critical AlertTier.critical = true
is_critical _ = false

unfoldable pub callback : List FindingResult → List String → AlertTier → Bool × Option String
callback findings services tier = elim (first_a1 findings) [
  | some phone ↦ (true, phone)
  | none ↦ (is_critical tier && elem "A2" services, none)
]

-- `"\n".join(lines)`
unfoldable pub join_lines : List String → String
join_lines [] = ""
join_lines (l ∷ []) = l
join_lines (l ∷ m ∷ ls) = String.◌++◌ l (String.◌++◌ "\n" (join_lines (m ∷ ls)))

abbrev pub services_of : List FindingResult → List String
services_of = map (λ f. f.service)

-- `assess`
unfoldable pub assess : Floats → List FindingResult → Option RiskAssessment
assess fl [] = none
assess fl (f ∷ fs) =
    let findings = f ∷ fs in
    let services = services_of findings in
    let base = base_of f fs in
    let (tier, rationale) = combine combinations services base.tier in
    let (requires, phone) = callback findings services tier in
    some (record {
      tier = tier;
      score = aggregate fl (map (λ g. g.score) findings);
      title = base.summary;
      body = join_lines (
          map (λ g. g.summary) (keep (λ g. not (str_eq g.summary base.summary)) findings)
          ++ rationale);
      services = sort_services services;
      requires_callback = requires;
      callback_phone = phone;
      rationale = rationale;
    })
