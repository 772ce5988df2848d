-- ===== src/Risk/Tier.antt =====
-- The tier is the gravest finding's, raised by the combinations and never lowered.
use envelock.Prelude.{
  ◌≤◌, ◌≡◌, inl, inr, sym, subst, ◌∙◌, String, Bool, true, false, ◌||◌, ◌&&◌, Option, none, some,
  List, [], ◌∷◌, All, elem, subset, arith, Bool-cases,
}
use envelock.Core.{AlertTier, order}
use envelock.Risk.{
  FindingResult, RiskAssessment, Floats, Combination, combinations, promote, heavier, base_of,
  raise_tier, combine, services_of, assess, is_critical,
}

order-promote : (t : AlertTier) → order t ≤ order (promote t)
unfolding order promote
order-promote AlertTier.low = omega arith
order-promote AlertTier.medium = omega arith
order-promote AlertTier.high = omega arith
order-promote AlertTier.critical = omega arith

order-raise_tier : (o : Option AlertTier) (t : AlertTier) → order t ≤ order (raise_tier o t)
unfolding raise_tier
order-raise_tier none t = order-promote t
order-raise_tier (some floor) t = ground arith

order-combine :
    (cs : List Combination) (services : List String) (t : AlertTier)
    → order t ≤ order (combine cs services t).0
unfolding combine
order-combine [] services t = omega arith
order-combine (c ∷ cs) services t = ground (
  arith,
  order-combine cs services t,
  order-combine cs services (raise_tier c.floor t),
  order-raise_tier c.floor t,
)

heavier-true : (a b : FindingResult) → heavier a b ≡ true → order b.tier ≤ order a.tier
unfolding heavier
heavier-true a b h = ground arith

heavier-false : (a b : FindingResult) → heavier a b ≡ false → order a.tier ≤ order b.tier
unfolding heavier
heavier-false a b h = ground arith

abbrev Below : FindingResult → FindingResult → Type 0
Below top f = order f.tier ≤ order top.tier

base_of-ge : (best : FindingResult) (fs : List FindingResult) → Below (base_of best fs) best
unfolding base_of
base_of-ge best [] = omega arith
base_of-ge best (f ∷ fs) = elim (Bool-cases (heavier f best)) [
  | inl h ↦ rw (h, base_of) (omega (arith, base_of-ge f fs, heavier-true f best h))
  | inr h ↦ rw (h, base_of) (base_of-ge best fs)
]

base_of-heavier :
    (best f : FindingResult) (fs : List FindingResult)
    → heavier f best ≡ true
    → base_of best (f ∷ fs) ≡ base_of f fs
unfolding base_of
base_of-heavier best f fs h = rw (h, base_of)

base_of_lighter :
    (best f : FindingResult) (fs : List FindingResult)
    → heavier f best ≡ false
    → base_of best (f ∷ fs) ≡ base_of best fs
unfolding base_of
base_of_lighter best f fs h = rw (h, base_of)

base_of-All : (best : FindingResult) (fs : List FindingResult) → All (Below (base_of best fs)) fs
base_of-All best [] = tt
base_of-All best (f ∷ fs) = elim (Bool-cases (heavier f best)) [
  | inl h ↦
      subst (λ top. All (Below top) (f ∷ fs)) (sym (base_of-heavier best f fs h))
        (base_of-ge f fs, base_of-All f fs)
  | inr h ↦
      subst (λ top. All (Below top) (f ∷ fs)) (sym (base_of_lighter best f fs h))
        (omega (arith, base_of-ge best fs, heavier-false f best h), base_of-All best fs)
]

abbrev NotAbove : AlertTier → FindingResult → Type 0
NotAbove tier f = order f.tier ≤ order tier

NotAbove-mono :
    (s t : AlertTier) (fs : List FindingResult)
    → order s ≤ order t
    → All (NotAbove s) fs
    → All (NotAbove t) fs
NotAbove-mono s t [] h a = tt
NotAbove-mono s t (f ∷ fs) h a = (omega (arith, a.0), NotAbove-mono s t fs h a.1)

tier_of_assess :
    (fl : Floats) (f : FindingResult) (fs : List FindingResult) (a : RiskAssessment)
    → assess fl (f ∷ fs) ≡ some a
    → a.tier ≡ (combine combinations (services_of (f ∷ fs)) (base_of f fs).tier).0
unfolding assess
tier_of_assess fl f fs a e = ground arith

-- The assessment is at least as grave as each of its findings.
pub assess_never_demotes :
    (fl : Floats) (findings : List FindingResult) (a : RiskAssessment)
    → assess fl findings ≡ some a
    → All (λ f. order f.tier ≤ order a.tier) findings
assess_never_demotes fl [] a e = tt
assess_never_demotes fl (f ∷ fs) a e =
    let raised : order (base_of f fs).tier ≤ order a.tier =
      rw (tier_of_assess fl f fs a e)
        (order-combine combinations (services_of (f ∷ fs)) (base_of f fs).tier) in
    NotAbove-mono (base_of f fs).tier a.tier (f ∷ fs) raised (base_of-ge f fs, base_of-All f fs)

-- Some combination with a critical floor applies.
abbrev critical_floor : Option AlertTier → Bool
critical_floor none = false
critical_floor (some t) = is_critical t

abbrev forced : List Combination → List String → Bool
forced [] services = false
forced (c ∷ cs) services =
    (critical_floor c.floor && subset c.services services) || forced cs services

raise_tier-critical :
    (o : Option AlertTier) (t : AlertTier) → critical_floor o ≡ true → order (raise_tier o t) ≡ 3
unfolding raise_tier order
raise_tier-critical none t h = absurd (cc)
raise_tier-critical (some floor) t h = ground arith

order-le : (t : AlertTier) → order t ≤ 3
unfolding order
order-le t = ground arith

combine-forced :
    (cs : List Combination) (services : List String) (t : AlertTier)
    → forced cs services ≡ true
    → order (combine cs services t).0 ≡ 3
unfolding combine
combine-forced [] services t h = absurd (cc)
combine-forced (c ∷ cs) services t h = ground (
  arith,
  order-combine cs services (raise_tier c.floor t),
  raise_tier-critical c.floor t,
  order-le (combine cs services (raise_tier c.floor t)).0,
  combine-forced cs services t,
  combine-forced cs services (raise_tier c.floor t),
)

critical_of_order : (t : AlertTier) → order t ≡ 3 → t ≡ AlertTier.critical
unfolding order
critical_of_order t h = ground arith

-- The signs that, beside payment instructions from an unverified payee, make a first-strike fraud.
abbrev pub deceptive : List String → Bool
deceptive services =
    elem "A3" services
    || elem "A4" services
    || elem "A5" services
    || elem "A6" services
    || elem "B7" services
    || (elem "A7" services && elem "A14" services)

forced-combinations :
    (services : List String)
    → elem "A2" services ≡ true
    → deceptive services ≡ true
    → forced combinations services ≡ true
unfolding combinations
forced-combinations services h k = ground arith

-- Payment instructions from an unverified payee, with a lookalike, homoglyph, spoofed name,
-- redirected reply or blocklisted sender, or with a first contact under urgency, are critical.
pub novel_vendor_critical :
    (fl : Floats) (findings : List FindingResult) (a : RiskAssessment)
    → assess fl findings ≡ some a
    → elem "A2" (services_of findings) ≡ true
    → deceptive (services_of findings) ≡ true
    → a.tier ≡ AlertTier.critical
novel_vendor_critical fl [] a e h k = cc
novel_vendor_critical fl (f ∷ fs) a e h k =
    tier_of_assess fl f fs a e
    ∙ critical_of_order _ (
        combine-forced combinations (services_of (f ∷ fs)) (base_of f fs).tier
          (forced-combinations (services_of (f ∷ fs)) h k))
