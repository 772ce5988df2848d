-- ===== src/Workers/Jobs/Retention.antt =====
-- What the job registry keeps: no unfinished job is dropped, and finished ones are bounded.
use envelock.Prelude.{
  ℕ, ◌≤◌, ◌≡◌, refl, String, Bool, true, Option, List, [], ◌∷◌, ◌++◌, length, keep, ltb, arith, ◌∙◌,
  ◌⊎◌, Bool-cases, inl, inr, false, suc, ◌-◌, All, ap,
}
use envelock.Workers.Jobs.{Job, is_unfinished, evict, max_retained, submit, new_job}

abbrev unfinished : Job → Bool
unfinished job = is_unfinished job.status

keep-evict : (jobs : List Job) → keep unfinished (evict jobs) ≡ keep unfinished jobs
unfolding evict
keep-evict [] = refl
keep-evict (job ∷ jobs) = ground (arith, keep-evict jobs)

keep-unfinished-append :
    (xs ys : List Job) → keep unfinished (xs ++ ys) ≡ keep unfinished xs ++ keep unfinished ys
keep-unfinished-append [] ys = refl
keep-unfinished-append (x ∷ xs) ys = ground (arith, keep-unfinished-append xs ys)

-- `submit` drops no unfinished job: the unfinished ones afterwards are those before, in order, and
-- then the new one.
pub submit_keeps_unfinished :
    (jobs : List Job) (id now : ℕ) (kind : String) (tenant_id : ℕ) (key : Option String)
    → keep (λ job. is_unfinished job.status) (submit jobs id now kind tenant_id key)
      ≡ keep (λ job. is_unfinished job.status) jobs ++ (new_job id now kind tenant_id key ∷ [])
unfolding submit new_job is_unfinished
submit_keeps_unfinished jobs id now kind tenant_id key =
    keep-evict (jobs ++ (new_job id now kind tenant_id key ∷ []))
    ∙ keep-unfinished-append jobs (new_job id now kind tenant_id key ∷ [])

-- Within the limit, or stopped by an unfinished job.
abbrev IsTrimmed : List Job → Type 0
IsTrimmed [] = Unit
IsTrimmed (oldest ∷ rest) =
    (length (oldest ∷ rest) ≤ max_retained) ⊎ (is_unfinished oldest.status ≡ true)

-- What a submission may do to the jobs: it takes finished ones off the front, and no more than bring the rest
-- down to the limit; and it leaves jobs over the limit only where the oldest is unfinished.
unfoldable pub IsEviction : (before after : List Job) → Type 0
IsEviction before after =
    (dropped : List Job) × (before ≡ dropped ++ after)
    × All (λ job. is_unfinished job.status ≡ false) dropped
    × (length dropped ≤ length before - max_retained)
    × IsTrimmed after

within : (n : ℕ) → ltb max_retained n ≡ false → n ≤ max_retained
within n h = ground (arith, h)

one_more :
    (m n : ℕ)
    → ltb max_retained (suc n) ≡ true
    → m ≤ n - max_retained
    → suc m ≤ suc n - max_retained
one_more m n h k = ground (arith, h, k)

evict-IsEviction : (jobs : List Job) → IsEviction jobs (evict jobs)
unfolding evict IsEviction
evict-IsEviction [] = ([], refl, tt, omega arith, tt)
evict-IsEviction (job ∷ jobs) =
    let (dropped, split, finished, few, trimmed) = evict-IsEviction jobs in
    elim (Bool-cases (ltb max_retained (length (job ∷ jobs)))) [
      | inr h ↦ rw h ([], refl, tt, omega arith, inl (within _ h))
      | inl h ↦ elim (Bool-cases (is_unfinished job.status)) [
        | inl u ↦ rw (h, u) ([], refl, tt, omega arith, inr u)
        | inr u ↦
            rw (h, u)
              (
                job ∷ dropped,
                ap (λ js. job ∷ js) split,
                (u, finished),
                one_more (length dropped) (length jobs) h few,
                trimmed,
              )
      ]
    ]

-- A submission adds the new job at the end and drops only finished jobs, oldest first and never more than
-- bring the registry down to its limit of 200. It is over the limit afterwards only where the oldest job it
-- holds is unfinished.
pub submit-IsEviction :
    (jobs : List Job) (id now : ℕ) (kind : String) (tenant_id : ℕ) (key : Option String)
    → IsEviction
        (jobs ++ (new_job id now kind tenant_id key ∷ []))
        (submit jobs id now kind tenant_id key)
unfolding submit
submit-IsEviction jobs id now kind tenant_id key =
    evict-IsEviction (jobs ++ (new_job id now kind tenant_id key ∷ []))
