-- ===== src/Risk/Score.antt =====
-- The score: a bounded aggregate with diminishing returns.
use envelock.Prelude.{ℕ, ◌+◌, ◌≤◌, ◌≡◌, some, List, [], ◌∷◌, All, map, arith}
use envelock.Risk.{
  FindingResult, RiskAssessment, Floats, insert_score, sort_scores, weigh, aggregate, assess,
}

-- What IEEE 754 doubles do on the values met here, sums of a few quotients of scores of a hundred at
-- most: a score divided by one and added to 0 is exact, and adding a value that is not negative
-- does not make a sum smaller.
pub record IsIeee (fl : Floats) : Type 0 where
  pub exact : (s : ℕ) → s ≤ 100 → fl.trunc (fl.add fl.int_zero (fl.div s 1)) ≡ s
  pub grows : (x : fl.Float) (s i : ℕ) → fl.trunc x ≤ fl.trunc (fl.add x (fl.div s i))

score_of_assess :
    (fl : Floats) (findings : List FindingResult) (a : RiskAssessment)
    → assess fl findings ≡ some a
    → a.score ≡ aggregate fl (map (λ g. g.score) findings)
unfolding assess
score_of_assess fl [] a e = absurd (cc)
score_of_assess fl (f ∷ fs) a e = ground arith

-- The first of the sorted scores is the greatest.
abbrev head_or_zero : List ℕ → ℕ
head_or_zero [] = 0
head_or_zero (s ∷ ss) = s

head-insert_score :
    (s : ℕ) (ts : List ℕ)
    → (s ≤ head_or_zero (insert_score s ts)) × (head_or_zero ts ≤ head_or_zero (insert_score s ts))
unfolding insert_score
head-insert_score s [] = (omega arith, omega arith)
head-insert_score s (t ∷ ts) = ground arith

All-mono : (m n : ℕ) (xs : List ℕ) → m ≤ n → All (λ x. x ≤ m) xs → All (λ x. x ≤ n) xs
All-mono m n [] h a = tt
All-mono m n (x ∷ xs) h a = (omega (arith, a.0), All-mono m n xs h a.1)

sorted-head-ge : (ss : List ℕ) → All (λ s. s ≤ head_or_zero (sort_scores ss)) ss
unfolding sort_scores
sorted-head-ge [] = tt
sorted-head-ge (s ∷ ss) = (
  (head-insert_score s (sort_scores ss)).0,
  All-mono _ _ ss (head-insert_score s (sort_scores ss)).1 (sorted-head-ge ss),
)

head-insert_score-le :
    (b s : ℕ) (ts : List ℕ) → s ≤ b → head_or_zero ts ≤ b → head_or_zero (insert_score s ts) ≤ b
unfolding insert_score
head-insert_score-le b s [] h k = h
head-insert_score-le b s (t ∷ ts) h k = ground arith

sorted-head-le : (b : ℕ) (ss : List ℕ) → All (λ s. s ≤ b) ss → head_or_zero (sort_scores ss) ≤ b
unfolding sort_scores
sorted-head-le b [] h = omega arith
sorted-head-le b (s ∷ ss) h =
    head-insert_score-le b s (sort_scores ss) h.0 (sorted-head-le b ss h.1)

module _ (fl : Floats) (ieee : IsIeee fl) where
  weigh-ge : (acc : fl.Float) (i : ℕ) (ss : List ℕ) → fl.trunc acc ≤ fl.trunc (weigh fl acc i ss)
  unfolding weigh
  weigh-ge acc i [] = omega arith
  weigh-ge acc i (s ∷ ss) =
      omega (arith, ieee.grows acc s (i + 1), weigh-ge (fl.add acc (fl.div s (i + 1))) (i + 1) ss)

  weigh-head :
      (ss : List ℕ) → head_or_zero ss ≤ 100 → head_or_zero ss ≤ fl.trunc (weigh fl fl.int_zero 0 ss)
  unfolding weigh
  weigh-head [] h = omega arith
  weigh-head (s ∷ ss) h =
      omega (arith, ieee.exact s h, weigh-ge (fl.add fl.int_zero (fl.div s (0 + 1))) (0 + 1) ss)

  -- With scores of a hundred at most, the score of an assessment is a hundred at most, and no less
  -- than the score of any of its findings.
  pub score_bounds :
      (findings : List FindingResult) (a : RiskAssessment)
      → assess fl findings ≡ some a
      → All (λ s. s ≤ 100) (map (λ f. f.score) findings)
      → (a.score ≤ 100) × All (λ s. s ≤ a.score) (map (λ f. f.score) findings)
  unfolding aggregate
  score_bounds findings a e h =
      let scores = map (λ (f : FindingResult). f.score) findings in
      let top = sorted-head-le 100 scores h in
      let eq = score_of_assess fl findings a e in
      (
        omega (arith, eq),
        All-mono (head_or_zero (sort_scores scores)) a.score scores
            (omega (arith, eq, weigh-head (sort_scores scores) top)) (sorted-head-ge scores),
      )
