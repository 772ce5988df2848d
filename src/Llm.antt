-- ===== src/Llm.antt =====
-- The cascade of the language-model judge: server/src/envelock/llm/gate.py and llm/cascade.py. The
-- judge, the cleaning of its sentence by a regular expression and the tenant's plan are parameters; a
-- confidence is a whole number of hundredths.
pub mod Refine
mod Tests
use Prim.Native.Char.{code}
use Prim.Native.String
use envelock.Prelude.{
  ℕ, String, Bool, true, false, not, ◌&&◌, ◌||◌, Option, none, some, List, [], ◌∷◌, ◌++◌, ◌==◌,
  str_eq, elem, any, if◌then◌else◌, ltb, leb, ◌+◌,
}
use envelock.Core.{AlertTier}
use envelock.Billing.Features.{family_of}
use envelock.Risk.{RiskAssessment, promote, is_critical}

-- `_PAYMENT_SIGNALS`
abbrev pub payment_signals : List String
payment_signals =
    "A1" ∷ "A2" ∷ "A3" ∷ "A4" ∷ "A5" ∷ "A6" ∷ "A7" ∷ "A8" ∷ "A9" ∷ "A10" ∷ "A11" ∷ "A13" ∷ "A14"
    ∷ "A15" ∷ []

-- `_PHISH_SIGNALS`
abbrev pub phish_signals : List String
phish_signals = "B1" ∷ "B3" ∷ "B4" ∷ "B5" ∷ "B6" ∷ "B7" ∷ "B9" ∷ []

-- `assessment.tier in (AlertTier.MEDIUM, AlertTier.HIGH)`
abbrev pub is_ambiguous : AlertTier → Bool
is_ambiguous AlertTier.medium = true
is_ambiguous AlertTier.high = true
is_ambiguous _ = false

-- `should_escalate`
unfoldable pub should_escalate : Option RiskAssessment → Bool
should_escalate none = false
should_escalate (some a) =
    if not (any (λ s. elem s (payment_signals ++ phish_signals)) a.services)
    then false
    else is_ambiguous a.tier

-- `LlmUsage`, a row for a mailbox and a period; the tenant is the mailbox's
pub record LlmUsage : Type 0 where
  pub mailbox_id : ℕ
  pub period : String
  pub calls : ℕ
  pub cost_micros : ℕ

-- The index of the table.
unfoldable pub is_row : ℕ → String → LlmUsage → Bool
is_row mailbox_id period row = row.mailbox_id == mailbox_id && str_eq row.period period

-- The upsert of `_reserve_call`.
unfoldable pub claim : ℕ → String → List LlmUsage → List LlmUsage
claim mailbox_id period [] =
    record { mailbox_id = mailbox_id; period = period; calls = 1; cost_micros = 0 } ∷ []
claim mailbox_id period (row ∷ rows) =
    if is_row mailbox_id period row
    then record row { calls = row.calls + 1 } ∷ rows
    else row ∷ claim mailbox_id period rows

-- The calls that the upsert returns.
unfoldable pub claimed_calls : ℕ → String → List LlmUsage → ℕ
claimed_calls mailbox_id period [] = 0
claimed_calls mailbox_id period (row ∷ rows) =
    if is_row mailbox_id period row then row.calls else claimed_calls mailbox_id period rows

-- `_reserve_call`: whether the call is granted, and the table afterwards
unfoldable pub reserve_call :
    (cap mailbox_id : ℕ) (period : String) → List LlmUsage → Bool × List LlmUsage
reserve_call cap mailbox_id period usage =
    let claimed = claim mailbox_id period usage in
    (not (ltb cap (claimed_calls mailbox_id period claimed)), claimed)

-- `usage.cost_micros = (usage.cost_micros or 0) + verdict.cost_micros`
unfoldable pub add_cost : ℕ → String → ℕ → List LlmUsage → List LlmUsage
add_cost mailbox_id period cost [] = []
add_cost mailbox_id period cost (row ∷ rows) =
    if is_row mailbox_id period row
    then record row { cost_micros = row.cost_micros + cost } ∷ rows
    else row ∷ add_cost mailbox_id period cost rows

-- What `refine` reads of an `LlmVerdict`; `rationale` is the cleaned sentence.
pub record LlmVerdict : Type 0 where
  pub escalate : Bool
  pub confidence : ℕ
  pub rationale : String
  pub cost_micros : ℕ

-- `sv.upper().startswith("A")`, on the ASCII text of a service
unfoldable pub in_payment_family : String → Bool
in_payment_family service = starts (family_of service)
  where
    starts : Option ℕ → Bool
    starts none = false
    starts (some family) = family == b'A'

-- `verdict.rationale or "..."`
unfoldable pub reason_of : String → String
reason_of rationale =
    if str_eq rationale "" then "our fraud review found signs of a payment scam." else rationale

unfoldable pub client_line : String → String
client_line rationale =
    String.◌++◌ "Our fraud check agrees this looks like a scam: " (reason_of rationale)

-- The change that a confirming verdict makes.
unfoldable pub escalated : LlmVerdict → RiskAssessment → RiskAssessment
escalated v a = record a {
  tier = promote a.tier;
  requires_callback = a.requires_callback || is_critical (promote a.tier);
  rationale = a.rationale ++ (client_line v.rationale ∷ []);
  body = String.◌++◌ a.body (String.◌++◌ "\n" (client_line v.rationale));
}

-- `verdict.escalate and verdict.confidence >= minc and assessment.tier is not AlertTier.CRITICAL`
unfoldable pub fold_verdict : (min_confidence : ℕ) → LlmVerdict → RiskAssessment → RiskAssessment
fold_verdict min_confidence v a =
    if v.escalate && leb min_confidence v.confidence && not (is_critical a.tier)
    then escalated v a
    else a

-- What `refine` is given besides the assessment. A mail event always names its
-- mailbox.
pub record Cascade : Type 0 where
  pub is_mail : Bool
  pub configured : Bool
  pub ai_on_links : Bool
  pub cap : ℕ
  pub min_confidence : ℕ
  pub mailbox_id : ℕ
  pub period : String
  pub judge : RiskAssessment → Option LlmVerdict

-- What `refine` leaves.
pub record Refined : Type 0 where
  pub assessment : Option RiskAssessment
  pub verdict : Option LlmVerdict
  pub usage : List LlmUsage

-- `refine` after the judge
unfoldable pub judged : Cascade → RiskAssessment → List LlmUsage → Option LlmVerdict → Refined
judged c a usage none = record { assessment = some a; verdict = none; usage = usage }
judged c a usage (some v) = record {
  assessment = some (fold_verdict c.min_confidence v a);
  verdict = some v;
  usage = add_cost c.mailbox_id c.period v.cost_micros usage;
}

-- `refine` from the reservation on
unfoldable pub reserved : Cascade → RiskAssessment → Bool × List LlmUsage → Refined
reserved c a (granted, usage) =
    if not granted
    then record { assessment = some a; verdict = none; usage = usage }
    else judged c a usage (c.judge a)

-- `refine`
unfoldable pub refine : Cascade → List LlmUsage → Option RiskAssessment → Refined
refine c usage none = record { assessment = none; verdict = none; usage = usage }
refine c usage (some a) =
    if not c.is_mail
      || not c.configured
      || not (should_escalate (some a))
      || (not c.ai_on_links && not (any in_payment_family a.services))
    then record { assessment = some a; verdict = none; usage = usage }
    else reserved c a (reserve_call c.cap c.mailbox_id c.period usage)
