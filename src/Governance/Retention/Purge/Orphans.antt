-- ===== src/Governance/Retention/Purge/Orphans.antt =====
-- The rows that point at other rows, and the rows that are overdue: `purge_expired` of
-- server/src/envelock/governance/retention.py.
use envelock.Prelude.{
  ℕ, Bool, true, false, not, Option, none, some, List, [], ◌∷◌, ◌==◌, keep, any, ◌≡◌, refl, arith,
  All, All-keep, All-kept, Bool-cases, inl, inr, ==_iff, ap, ◌∙◌,
}
use envelock.Governance.Retention.{Tables, Dated, Child, has_id, refers, expired, is_older, without}
use envelock.Governance.Retention.Purge.{
  is_old_click, is_old_child, Counts, answered, purge_expired,
}
use envelock.Governance.Retention.Purge.Complete.{
  days_before, remaining, old_alerts, old_tokens, purge_expired_lem,
}

unfoldable pub present : ℕ → List Dated → Bool
present n rows = any (λ r. r.id == n) rows

unfoldable pub points_at : List Dated → Option ℕ → Bool
points_at alerts none = true
points_at alerts (some n) = present n alerts

-- The foreign keys of the tables.
unfoldable pub IsConsistent : Tables → Type 0
IsConsistent db =
    All (λ c. present c.link_token_id db.link_tokens ≡ true) db.link_clicks
    × All (λ c. points_at db.alerts c.alert_id ≡ true) db.findings
    × All (λ c. points_at db.alerts c.alert_id ≡ true) db.deliveries
    × All (λ c. points_at db.alerts c.alert_id ≡ true) db.verifications
    × All (λ c. points_at db.alerts c.alert_id ≡ true) db.llm_verdicts

present-kept :
    (ids : List ℕ) (n : ℕ) (rows : List Dated)
    → has_id ids n ≡ false
    → present n rows ≡ true
    → present n (keep (λ a. not (has_id ids a.id)) rows) ≡ true
unfolding present
present-kept ids n [] h k = k
present-kept ids n (row ∷ rows) h k = elim (Bool-cases (has_id ids row.id)) [
  | inl e ↦ rw e (present-kept ids n rows h (ground (arith, k, differs)))
  | inr e ↦ rw e (ground (arith, k, present-kept ids n rows h))
]
  where
    differs : (row.id == n) ≡ true → has_id ids row.id ≡ false
    differs e = ap (has_id ids) ((==_iff row.id n).0 e) ∙ h

present-recent :
    (cut n : ℕ) (rows : List Dated)
    → has_id (expired cut rows) n ≡ false
    → present n rows ≡ true
    → present n (keep (λ t. not (is_older cut t)) rows) ≡ true
unfolding present expired has_id
present-recent cut n [] h k = k
present-recent cut n (row ∷ rows) h k = elim (Bool-cases (is_older cut row)) [
  | inl e ↦ rw e (present-recent cut n rows (ground (arith, h, e)) (ground (arith, h, k, e)))
  | inr e ↦ rw e (ground (arith, h, k, e, present-recent cut n rows))
]

points_at-kept :
    (ids : List ℕ) (rows : List Dated) (o : Option ℕ)
    → not (refers ids o) ≡ true
    → points_at rows o ≡ true
    → points_at (keep (λ a. not (has_id ids a.id)) rows) o ≡ true
unfolding points_at refers
points_at-kept ids rows none h k = refl
points_at-kept ids rows (some n) h k = present-kept ids n rows (ground (arith, h)) k

children-kept :
    (ids : List ℕ) (alerts : List Dated) (children : List Child)
    → All (λ c. points_at alerts c.alert_id ≡ true) children
    → All
        (λ c. points_at (keep (λ a. not (has_id ids a.id)) alerts) c.alert_id ≡ true)
        (without ids children)
unfolding without
children-kept ids alerts children h =
    All-keep _ _ _ (λ c e k. points_at-kept ids alerts c.alert_id e k) children h

remaining-IsConsistent : (now : ℕ) (db : Tables) → IsConsistent db → IsConsistent (remaining now db)
unfolding remaining IsConsistent old_tokens
remaining-IsConsistent now db (clicks, findings, deliveries, verifications, verdicts) = (
  All-keep _ _ _
      (λ c e k.
        present-recent (days_before 365 now) c.link_token_id db.link_tokens (ground (arith, e)) k)
      db.link_clicks clicks,
  children-kept (old_alerts now db) db.alerts _ (All-keep _ _ _ (λ c e k. k) db.findings findings),
  children-kept (old_alerts now db) db.alerts db.deliveries deliveries,
  children-kept (old_alerts now db) db.alerts db.verifications verifications,
  children-kept (old_alerts now db) db.alerts db.llm_verdicts verdicts,
)

-- After a purge, every row that pointed at another still points at a row that exists: links at their
-- tokens; findings, deliveries, verifications and verdicts of the judge at their alerts.
pub purge-IsConsistent :
    (now : ℕ) (db : Tables)
    → IsConsistent db
    → (c : Counts) × (left : Tables) × (purge_expired now db ≡ answered c left) × IsConsistent left
purge-IsConsistent now db h =
    (_, remaining now db, purge_expired_lem now db, remaining-IsConsistent now db h)

-- Nothing that is overdue is left, bodies of messages aside.
unfoldable pub IsSettled : (now : ℕ) → Tables → Type 0
IsSettled now db =
    All (λ r. is_older (days_before 365 now) r ≡ false) db.sessions
    × All (λ r. is_older (days_before 365 now) r ≡ false) db.attested_reads
    × All (λ c. is_old_click (days_before 90 now) c ≡ false) db.link_clicks
    × All (λ t. is_older (days_before 365 now) t ≡ false) db.link_tokens
    × All (λ r. is_older (days_before 365 now) r ≡ false) db.audit_events
    × All (λ c. is_old_child (days_before 730 now) c ≡ false) db.findings
    × All (λ a. is_older (days_before 730 now) a ≡ false) db.alerts

expired_self :
    (cut : ℕ) (row : Dated) (rows : List Dated)
    → is_older cut row ≡ true
    → has_id (expired cut (row ∷ rows)) row.id ≡ true
unfolding expired has_id
expired_self cut row rows o = ground (arith, o, (==_iff row.id row.id).1 refl)

expired_later :
    (cut : ℕ) (row : Dated) (rows : List Dated) (i : ℕ)
    → has_id (expired cut rows) i ≡ true
    → has_id (expired cut (row ∷ rows)) i ≡ true
unfolding expired has_id
expired_later cut row rows i h = ground (arith, h)

-- A row that a deletion by its id leaves is not older than the cutoff.
not_listed_recent :
    (cut : ℕ) (ids : List ℕ) (rows : List Dated)
    → ((i : ℕ) → has_id (expired cut rows) i ≡ true → has_id ids i ≡ true)
    → All (λ a. is_older cut a ≡ false) (keep (λ a. not (has_id ids a.id)) rows)
not_listed_recent cut ids [] h = tt
not_listed_recent cut ids (row ∷ rows) h =
    let later = not_listed_recent cut ids rows (λ i k. h i (expired_later cut row rows i k)) in
    elim (Bool-cases (is_older cut row)) [
      | inl o ↦ rw (h row.id (expired_self cut row rows o)) later
      | inr o ↦ elim (Bool-cases (has_id ids row.id)) [
        | inl e ↦ rw e later
        | inr e ↦ rw e (o, later)
      ]
    ]

remaining-IsSettled : (now : ℕ) (db : Tables) → IsSettled now (remaining now db)
unfolding remaining IsSettled old_alerts without
remaining-IsSettled now db = (
  All-kept _ _ (λ r e. ground (arith, e)) db.sessions,
  All-kept _ _ (λ r e. ground (arith, e)) db.attested_reads,
  All-kept _ _ (λ c e. ground (arith, e)) db.link_clicks,
  All-kept _ _ (λ t e. ground (arith, e)) db.link_tokens,
  All-kept _ _ (λ r e. ground (arith, e)) db.audit_events,
  All-keep _ _ _ (λ c e k. k) _ (All-kept _ _ (λ c e. ground (arith, e)) db.findings),
  not_listed_recent (days_before 730 now) _ db.alerts (λ i h. h),
)

-- After a purge no session, attested read or audit event is older than a year, no click than 90 days, no
-- link token than a year, and no finding or alert than two years.
pub purge-IsSettled :
    (now : ℕ) (db : Tables)
    → (c : Counts) × (left : Tables) × (purge_expired now db ≡ answered c left) × IsSettled now left
purge-IsSettled now db = (_, remaining now db, purge_expired_lem now db, remaining-IsSettled now db)
