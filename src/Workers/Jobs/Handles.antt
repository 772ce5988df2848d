-- ===== src/Workers/Jobs/Handles.antt =====
-- What the handle of a job gives: `get` and `running_for` after `submit`.
use envelock.Prelude.{
  ℕ, ◌≡◌, refl, String, Bool, true, not, ◌&&◌, Option, none, some, List, [], ◌∷◌, ◌++◌, ltb, arith,
  ◌==◌, str_eq_refl, length, Bool-cases, inl, inr,
}
use envelock.Workers.Jobs.{
  Job, is_unfinished, evict, max_retained, submit, new_job, find, get, owned, running_for,
  last_where, joins, key_matches, has_key,
}

module _ (p : Job → Bool) (job : Job) (yes : p job ≡ true) where
  last_where-append : (jobs : List Job) → last_where p (jobs ++ (job ∷ [])) ≡ some job
  unfolding last_where
  last_where-append [] = rw yes refl
  last_where-append (j ∷ jobs) = rw (last_where-append jobs) refl

  last_where-evict : (jobs : List Job) → last_where p (evict (jobs ++ (job ∷ []))) ≡ some job
  unfolding evict
  last_where-evict [] = last_where-append []
  last_where-evict (j ∷ jobs) =
      elim (Bool-cases
        (ltb max_retained (length (j ∷ jobs ++ (job ∷ []))) && not (is_unfinished j.status))) [
          | inl h ↦ rw h (last_where-evict jobs)
          | inr h ↦ rw h (last_where-append (j ∷ jobs))
        ]

key_matches_refl : (key : Option String) → key_matches key key ≡ true
unfolding key_matches has_key
key_matches_refl none = refl
key_matches_refl (some key) = str_eq_refl key

-- Starting a job is idempotent: once `submit` has started one, `running_for` with the same tenant,
-- kind and key finds it.
pub submit_then_joined :
    (jobs : List Job) (id now : ℕ) (kind : String) (tenant_id : ℕ) (key : Option String)
    → running_for (submit jobs id now kind tenant_id key) tenant_id kind key
      ≡ some (new_job id now kind tenant_id key)
unfolding submit new_job running_for joins is_unfinished
submit_then_joined jobs id now kind tenant_id key =
    last_where-evict (joins tenant_id kind key) (new_job id now kind tenant_id key)
      (grind (arith, str_eq_refl kind, key_matches_refl key)) jobs

find_id : (id : ℕ) (jobs : List Job) (job : Job) → find id jobs ≡ some job → job.id ≡ id
unfolding find
find_id id [] job h = absurd (cc)
find_id id (j ∷ jobs) job h = elim (Bool-cases (j.id == id)) [
  | inl e ↦ ground (arith, h, e)
  | inr e ↦ find_id id jobs job (ground (arith, h, e))
]

owned_lem :
    (tenant_id : ℕ) (found : Option Job) (job : Job)
    → owned tenant_id found ≡ some job
    → (job.tenant_id ≡ tenant_id) × (found ≡ some job)
unfolding owned
owned_lem tenant_id none job h = absurd (cc)
owned_lem tenant_id (some j) job h = elim (Bool-cases (j.tenant_id == tenant_id)) [
  | inl e ↦ (ground (arith, h, e), ground (arith, h, e))
  | inr e ↦ ground (arith, h, e)
]

-- A job that `get` answers is the tenant's own; nobody else's id is answered, whatever it is.
pub get_is_scoped :
    (jobs : List Job) (job_id tenant_id : ℕ) (job : Job)
    → get jobs job_id tenant_id ≡ some job
    → (job.tenant_id ≡ tenant_id) × (job.id ≡ job_id)
unfolding get
get_is_scoped jobs job_id tenant_id job h =
    let found = owned_lem tenant_id (find job_id jobs) job h in
    (found.0, find_id job_id jobs job found.1)
