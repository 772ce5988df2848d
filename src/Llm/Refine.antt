-- ===== src/Llm/Refine.antt =====
-- What the judge may do to an assessment, and what it may cost.
use envelock.Prelude.{
  ℕ, ◌≡◌, refl, subst, sym, ◌≤◌, ◌+◌, min, ◌-◌, String, Bool, true, false, not, ◌&&◌, ◌||◌, Option,
  none, some, List, [], ◌∷◌, arith, ◌==◌, str_eq, eq_iff, Bool-cases, inl, inr, if◌then◌else◌, ltb,
  leb, any, count_if, str_eq_refl,
}
use envelock.Core.{AlertTier, order}
use envelock.Risk.{RiskAssessment, promote, is_critical}
use envelock.Llm.{
  should_escalate, is_ambiguous, LlmUsage, is_row, claim, claimed_calls, reserve_call, LlmVerdict,
  escalated, fold_verdict, Cascade, Refined, judged, reserved, refine, in_payment_family,
}

-- What the judge may do: raise the tier by at most one step, with a callback where it becomes critical;
-- a callback that was required stays so, and the services, score, title and phone are left.
abbrev pub Escalates : RiskAssessment → RiskAssessment → Type 0
Escalates a b =
    (order a.tier ≤ order b.tier)
    × (order b.tier ≤ order a.tier + 1)
    × ((is_critical b.tier && not (is_critical a.tier) && not b.requires_callback) ≡ false)
    × ((a.requires_callback && not b.requires_callback) ≡ false)
    × (b.services ≡ a.services)
    × (b.score ≡ a.score)
    × (b.title ≡ a.title)
    × (b.callback_phone ≡ a.callback_phone)

promote-order : (t : AlertTier) → (order t ≤ order (promote t)) × (order (promote t) ≤ order t + 1)
unfolding order promote
promote-order AlertTier.low = (omega arith, omega arith)
promote-order AlertTier.medium = (omega arith, omega arith)
promote-order AlertTier.high = (omega arith, omega arith)
promote-order AlertTier.critical = (omega arith, omega arith)

Escalates-refl : (a : RiskAssessment) → Escalates a a
Escalates-refl a = (omega arith, omega arith, ground arith, ground arith, refl, refl, refl, refl)

escalated-Escalates : (v : LlmVerdict) (a : RiskAssessment) → Escalates a (escalated v a)
unfolding escalated
escalated-Escalates v a =
    let steps = promote-order a.tier in
    (steps.0, steps.1, ground arith, ground arith, refl, refl, refl, refl)

fold_verdict-Escalates :
    (m : ℕ) (v : LlmVerdict) (a : RiskAssessment) → Escalates a (fold_verdict m v a)
unfolding fold_verdict
fold_verdict-Escalates m v a =
    elim (Bool-cases (v.escalate && leb m v.confidence && not (is_critical a.tier))) [
      | inl h ↦
          subst (λ b. Escalates a (if b then escalated v a else a)) (sym h)
            (escalated-Escalates v a)
      | inr h ↦ subst (λ b. Escalates a (if b then escalated v a else a)) (sym h) (Escalates-refl a)
    ]

-- The result holds an assessment that the given one may become.
abbrev pub Keeps : RiskAssessment → Option RiskAssessment → Type 0
Keeps a found = (b : RiskAssessment) × (found ≡ some b) × Escalates a b

judged-Keeps :
    (c : Cascade) (a : RiskAssessment) (usage : List LlmUsage) (v : Option LlmVerdict)
    → Keeps a (judged c a usage v).assessment
unfolding judged
judged-Keeps c a usage none = (a, refl, Escalates-refl a)
judged-Keeps c a usage (some v) =
    (fold_verdict c.min_confidence v a, refl, fold_verdict-Escalates c.min_confidence v a)

reserved-Keeps :
    (c : Cascade) (a : RiskAssessment) (granted : Bool) (usage : List LlmUsage)
    → Keeps a (reserved c a (granted, usage)).assessment
unfolding reserved
reserved-Keeps c a true usage = judged-Keeps c a usage (c.judge a)
reserved-Keeps c a false usage = (a, refl, Escalates-refl a)

-- Whatever the judge answers, `refine` returns the assessment with its tier at most one step higher and
-- never lower, with a callback required where it has become critical and where it was required; the
-- services, score, title and phone stay.
pub refine_never_demotes :
    (c : Cascade) (usage : List LlmUsage) (a : RiskAssessment)
    → (b : RiskAssessment) × ((refine c usage (some a)).assessment ≡ some b) × Escalates a b
unfolding refine reserve_call
refine_never_demotes c usage a =
    elim (Bool-cases (
      not c.is_mail
      || not c.configured
      || not (should_escalate (some a))
      || not c.ai_on_links && not (any in_payment_family a.services))) [
        | inl h ↦
            subst (λ x. Keeps a (if x then kept else asked).assessment) (sym h)
              (a, refl, Escalates-refl a)
        | inr h ↦
            subst (λ x. Keeps a (if x then kept else asked).assessment) (sym h)
              (reserved-Keeps c a (not (ltb c.cap (claimed_calls c.mailbox_id c.period claimed)))
                claimed)
      ]
  where
    claimed : List LlmUsage
    claimed = claim c.mailbox_id c.period usage

    kept : Refined
    kept = record { assessment = some a; verdict = none; usage = usage }

    asked : Refined
    asked = reserved c a (reserve_call c.cap c.mailbox_id c.period usage)

-- The judge is asked, and a call is counted, only about a medium or high assessment: any other is
-- returned as it is, and nothing is spent.
pub refine_outside_band :
    (c : Cascade) (usage : List LlmUsage) (a : RiskAssessment)
    → is_ambiguous a.tier ≡ false
    → refine c usage (some a) ≡ record { assessment = some a; verdict = none; usage = usage }
unfolding refine should_escalate
refine_outside_band c usage a h = ground (arith, h)

-- The calls for one mailbox and period that are granted, over claims one after another for any.
unfoldable pub granted_calls :
    (cap mailbox : ℕ) (period : String) → List (ℕ × String) → List LlmUsage → ℕ
granted_calls cap mailbox period [] usage = 0
granted_calls cap mailbox period ((m, p) ∷ claims) usage =
    let claimed = reserve_call cap m p usage in
    let rest = granted_calls cap mailbox period claims claimed.1 in
    if mailbox == m && str_eq period p && claimed.0 then rest + 1 else rest

claimed-claim_self :
    (mailbox : ℕ) (period : String) (usage : List LlmUsage)
    → claimed_calls mailbox period (claim mailbox period usage)
      ≡ claimed_calls mailbox period usage + 1
unfolding claim claimed_calls is_row
claimed-claim_self mailbox period [] = grind (arith, str_eq_refl period)
claimed-claim_self mailbox period (row ∷ rows) =
    ground (arith, claimed-claim_self mailbox period rows)

claimed-claim_other :
    (mailbox : ℕ) (period : String) (other : ℕ) (time : String) (usage : List LlmUsage)
    → (mailbox == other && str_eq period time) ≡ false
    → claimed_calls mailbox period (claim other time usage) ≡ claimed_calls mailbox period usage
unfolding claim claimed_calls is_row
claimed-claim_other mailbox period other time [] h = grind (arith, h, eq_iff)
claimed-claim_other mailbox period other time (row ∷ rows) h =
    let rest = claimed-claim_other mailbox period other time rows h in
    grind (arith, h, rest, eq_iff row.period time, eq_iff row.period period, eq_iff period time)

claimed-claim_same :
    (mailbox : ℕ) (period : String) (other : ℕ) (time : String) (usage : List LlmUsage)
    → (mailbox == other && str_eq period time) ≡ true
    → (claimed_calls mailbox period (claim other time usage)
        ≡ claimed_calls mailbox period usage + 1)
      × (claimed_calls other time (claim other time usage) ≡ claimed_calls mailbox period usage + 1)
claimed-claim_same mailbox period other time usage h =
    let same : mailbox ≡ other = ground (arith, h) in
    let when : period ≡ time = (eq_iff period time).0 (ground (arith, h)) in
    (
      rw (same, when) (claimed-claim_self other time usage),
      rw (same, when) (claimed-claim_self other time usage),
    )

-- The monthly cap holds: of any sequence of claims, of this and other mailboxes and periods, exactly as
-- many for this mailbox and period are granted as there are, up to what the cap leaves over the calls
-- already counted.
pub granted_calls_lem :
    (cap mailbox : ℕ) (period : String) (claims : List (ℕ × String)) (usage : List LlmUsage)
    → granted_calls cap mailbox period claims usage
      ≡ min
          (count_if (λ x. mailbox == x.0 && str_eq period x.1) claims)
          (cap - claimed_calls mailbox period usage)
unfolding granted_calls reserve_call
granted_calls_lem cap mailbox period [] usage = omega arith
granted_calls_lem cap mailbox period ((m, p) ∷ claims) usage =
    let rest = granted_calls_lem cap mailbox period claims (claim m p usage) in
    elim (Bool-cases (mailbox == m && str_eq period p)) [
      | inr h ↦
          let count = claimed-claim_other mailbox period m p usage h in
          grind (arith, h, rest, count)
      | inl h ↦
          let count = claimed-claim_same mailbox period m p usage h in grind (arith, h, rest, count)
    ]
