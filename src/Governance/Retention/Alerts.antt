-- ===== src/Governance/Retention/Alerts.antt =====
-- The loop over the batches of expired alerts: `_purge_alerts` of
-- server/src/envelock/governance/retention.py.
use envelock.Prelude.{
  ℕ, zero, suc, ◌+◌, ◌<◌, true, false, List, [], ◌∷◌, take, is_empty, count_if, length, ◌≡◌, refl,
  ◌∙◌, sym, ap, subst, arith, Bool-cases, inl, inr, length-keep-not,
}
use envelock.Governance.Retention.{
  Tables, Dated, has_id, expired, purged, resume, purge_batch, purge_alerts,
}
use envelock.Governance.Retention.Sweep.{
  swept, without_alerts, delete_alerts-clean, expired-split, swept-swept, swept-nil, round_deletes,
}

-- The rows of alerts with these ids.
abbrev pub count_of : List ℕ → List Dated → ℕ
count_of ids rows = count_if (λ a. has_id ids a.id) rows

counted :
    (ids : List ℕ) (rows : List Dated)
    → length (without_alerts ids rows) + count_of ids rows ≡ length rows
counted ids rows = length-keep-not (λ a. has_id ids a.id) rows

abbrev batch_of : ℕ → Tables → List ℕ
batch_of cut db = take purge_batch (expired cut db.alerts)

abbrev left_of : ℕ → Tables → Tables
left_of cut db = swept (batch_of cut db) db

round_sweeps :
    (cut : ℕ) (db : Tables)
    → swept (expired cut (left_of cut db).alerts) (left_of cut db)
      ≡ swept (expired cut db.alerts) db
unfolding swept
round_sweeps cut db =
    swept-swept (batch_of cut db) _ (expired cut db.alerts) db
      (expired-split cut purge_batch db.alerts)

add_up : (t b e' e n m k l : ℕ) → m + b ≡ n → k + e' ≡ m → l + e ≡ n → k ≡ l → t + b + e' ≡ t + e
add_up t b e' e n m k l h₁ h₂ h₃ h₄ = omega (arith, h₁, h₂, h₃, h₄)

round_counts :
    (cut total : ℕ) (db : Tables)
    → total
        + count_of (batch_of cut db) db.alerts
        + count_of (expired cut (left_of cut db).alerts) (left_of cut db).alerts
      ≡ total + count_of (expired cut db.alerts) db.alerts
unfolding swept
round_counts cut total db =
    add_up total _ _ _ _ _ _ _ (counted (batch_of cut db) db.alerts)
      (counted (expired cut (left_of cut db).alerts) (left_of cut db).alerts)
      (counted (expired cut db.alerts) db.alerts) (ap (λ d. length d.alerts) (round_sweeps cut db))

shorter : (m b n fuel : ℕ) → m + b ≡ n → 0 < b → n < suc fuel → m < fuel
shorter m b n fuel h k l = omega (arith, h, k, l)

all_batches :
    (cut : ℕ) (db : Tables) → is_empty (batch_of cut db) ≡ true → expired cut db.alerts ≡ []
all_batches cut db h = none_left (expired cut db.alerts) h
  where
    none_left : (ids : List ℕ) → is_empty (take purge_batch ids) ≡ true → ids ≡ []
    none_left [] h = refl
    none_left (i ∷ ids) h = ground (arith, h)

count_of-nil : (rows : List Dated) → count_of [] rows ≡ 0
unfolding has_id
count_of-nil [] = refl
count_of-nil (row ∷ rows) = count_of-nil rows

nothing_left :
    (ids : List ℕ) (total : ℕ) (db : Tables)
    → ids ≡ []
    → purged total db ≡ purged (total + count_of ids db.alerts) (swept ids db)
nothing_left ids total db e =
    subst (λ i. purged total db ≡ purged (total + count_of i db.alerts) (swept i db)) (sym e)
      (rw (swept-nil db, count_of-nil db.alerts) (ap (λ t. purged t db) (sum_nil total)))
  where
    sum_nil : (n : ℕ) → n ≡ n + 0
    sum_nil n = omega arith

left_is_shorter :
    (cut fuel : ℕ) (db : Tables)
    → is_empty (batch_of cut db) ≡ false
    → length db.alerts < suc fuel
    → length (left_of cut db).alerts < fuel
unfolding swept
left_is_shorter cut fuel db e h =
    shorter _ _ _ fuel (counted (batch_of cut db) db.alerts) (round_deletes cut 999 db.alerts e) h

-- With fuel for one round more than there are alerts, the loop ends without violating a foreign key. It
-- leaves what one deletion of all the expired alerts would leave, with all the rows that point at them, and
-- counts the alerts that it deleted.
pub purge_alerts-ends :
    (cut fuel total : ℕ) (db : Tables)
    → length db.alerts < fuel
    → purge_alerts cut fuel total db
      ≡ purged
          (total + count_of (expired cut db.alerts) db.alerts)
          (swept (expired cut db.alerts) db)
unfolding purge_alerts
purge_alerts-ends cut zero total db h = ground (arith, h)
purge_alerts-ends cut (suc fuel) total db h = elim (Bool-cases (is_empty (batch_of cut db))) [
  | inl e ↦ rw e (nothing_left (expired cut db.alerts) total db (all_batches cut db e))
  | inr e ↦ rw e (
      ap (resume _) (delete_alerts-clean (batch_of cut db) db)
      ∙ purge_alerts-ends cut fuel _ (left_of cut db) (left_is_shorter cut fuel db e h)
      ∙ ap (λ n. purged n (swept (expired cut (left_of cut db).alerts) (left_of cut db)))
          (round_counts cut total db)
      ∙ ap (purged (total + count_of (expired cut db.alerts) db.alerts)) (round_sweeps cut db))
]
