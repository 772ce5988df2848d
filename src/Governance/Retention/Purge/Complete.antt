-- ===== src/Governance/Retention/Purge/Complete.antt =====
-- What the purge leaves, table by table: `purge_expired` of
-- server/src/envelock/governance/retention.py.
use envelock.Prelude.{
  ℕ, suc, ◌+◌, ◌-◌, ◌*◌, ◌<◌, not, ◌&&◌, some, List, map, keep, length, ◌≡◌, refl, ◌∙◌, ap, arith,
  keep-keep, any-keep-not,
}
use envelock.Governance.Retention.{
  alert, link_token, cutoff, policy_for, Tables, has_id, is_older, expired, purged, without,
  delete_children,
}
use envelock.Governance.Retention.Sweep.{swept}
use envelock.Governance.Retention.Alerts.{count_of, purge_alerts-ends}
use envelock.Governance.Retention.Purge.{
  drop_body, is_old_click, is_old_child, purge_bodies, purge_identity, purge_clicks,
  delete_clicks_of, delete_tokens, purge_tokens, purge_audit, purge_findings, tokens_at, alerts_at,
  answer, finish, counts, answered, purge_before_tokens, purge_after_tokens, purge_expired,
}

-- The time that lies this many days before another.
abbrev pub days_before : (days now : ℕ) → ℕ
days_before days now = now - days * 86400

-- The alerts that are older than two years.
unfoldable pub old_alerts : ℕ → Tables → List ℕ
old_alerts now db = expired (days_before 730 now) db.alerts

unfoldable pub old_tokens : ℕ → Tables → List ℕ
old_tokens now db = expired (days_before 365 now) db.link_tokens

-- The tables after a purge, each written out by itself: a row stays unless it is older than the schedule
-- gives its class, or points at one that is. A message always stays, whatever its age, although the schedule
-- gives message metadata 365 days: what is older than 30 days and has a stored body loses the body and the
-- subject.
unfoldable pub remaining : (now : ℕ) → Tables → Tables
remaining now db = record {
  messages = map (drop_body (days_before 30 now)) db.messages;
  sessions = keep (λ r. not (is_older (days_before 365 now) r)) db.sessions;
  attested_reads = keep (λ r. not (is_older (days_before 365 now) r)) db.attested_reads;
  link_clicks =
      keep
        (λ c.
          not (is_old_click (days_before 90 now) c)
          && not (has_id (old_tokens now db) c.link_token_id))
        db.link_clicks;
  link_tokens = keep (λ t. not (is_older (days_before 365 now) t)) db.link_tokens;
  audit_events = keep (λ r. not (is_older (days_before 365 now) r)) db.audit_events;
  findings =
      without (old_alerts now db)
        (keep (λ c. not (is_old_child (days_before 730 now) c)) db.findings);
  deliveries = without (old_alerts now db) db.deliveries;
  verifications = without (old_alerts now db) db.verifications;
  llm_verdicts = without (old_alerts now db) db.llm_verdicts;
  alerts = keep (λ a. not (has_id (old_alerts now db) a.id)) db.alerts;
}

-- The tables after the link tokens.
after_tokens : ℕ → Tables → Tables
after_tokens cut db = record (delete_clicks_of (expired cut db.link_tokens) db) {
  link_tokens = keep (λ t. not (is_older cut t)) db.link_tokens;
}

tokens_delete : (cut : ℕ) (db : Tables) → purge_tokens cut db ≡ some (after_tokens cut db)
unfolding purge_tokens delete_tokens delete_clicks_of after_tokens
tokens_delete cut db =
    rw (any-keep-not (λ c. has_id (expired cut db.link_tokens) c.link_token_id) db.link_clicks) refl

enough : (n : ℕ) → n < suc n
enough n = omega arith

from_zero : (n : ℕ) → 0 + n ≡ n
from_zero n = omega arith

alerts_end :
    (now : ℕ) (db : Tables)
    → alerts_at (cutoff alert now) db
      ≡ purged (count_of (old_alerts now db) db.alerts) (swept (old_alerts now db) db)
unfolding cutoff policy_for old_alerts
alerts_end now db =
    purge_alerts-ends (days_before 730 now) (suc (length db.alerts)) 0 db
      (enough (length db.alerts))
    ∙ ap (λ n. purged n (swept (old_alerts now db) db)) (from_zero _)

-- The tables before the loop of the alerts.
before_alerts : (now : ℕ) → Tables → Tables
before_alerts now db =
    purge_after_tokens now (after_tokens (days_before 365 now) (purge_before_tokens now db))

tables_agree :
    (now : ℕ) (db : Tables) → swept (old_alerts now db) (before_alerts now db) ≡ remaining now db
unfolding remaining swept delete_children before_alerts after_tokens delete_clicks_of
    purge_after_tokens purge_before_tokens purge_findings purge_audit purge_clicks purge_identity
    purge_bodies cutoff policy_for old_tokens
tables_agree now db =
    rw
      (keep-keep (λ c. not (has_id (expired (days_before 365 now) db.link_tokens) c.link_token_id))
        (λ c. not (is_old_click (days_before 90 now) c)) db.link_clicks)
      refl

ids_before : (now : ℕ) (db : Tables) → old_alerts now (before_alerts now db) ≡ old_alerts now db
unfolding old_alerts before_alerts after_tokens delete_clicks_of purge_after_tokens
    purge_before_tokens purge_findings purge_audit purge_clicks purge_identity purge_bodies cutoff
    policy_for
ids_before now db = refl

alerts_before : (now : ℕ) (db : Tables) → (before_alerts now db).alerts ≡ db.alerts
unfolding before_alerts after_tokens delete_clicks_of purge_after_tokens purge_before_tokens
    purge_findings purge_audit purge_clicks purge_identity purge_bodies cutoff policy_for
alerts_before now db = refl

tokens_end :
    (now : ℕ) (db : Tables)
    → tokens_at (cutoff link_token now) (purge_before_tokens now db)
      ≡ some (after_tokens (days_before 365 now) (purge_before_tokens now db))
unfolding cutoff policy_for
tokens_end now db = tokens_delete (days_before 365 now) (purge_before_tokens now db)

-- A purge always ends with an answer: no foreign key is violated, and the loop of the alerts ends. Sessions,
-- attested reads, link tokens and audit events go after a year, clicks after 90 days or with their token, alerts
-- after two years with every row that points at them, and findings after two years. Every message stays,
-- whatever its age; one older than 30 days that has a stored body loses it with the subject. The answer counts
-- the rows of each table that are past their own age, the bodies that are dropped, and the alerts deleted.
pub purge_expired_lem :
    (now : ℕ) (db : Tables)
    → purge_expired now db
      ≡ answered (counts now (count_of (old_alerts now db) db.alerts) db) (remaining now db)
unfolding purge_expired purge_after_tokens before_alerts
purge_expired_lem now db =
    ap (finish now db) (tokens_end now db)
    ∙ ap (answer (λ n. counts now n db)) (alerts_end now (before_alerts now db))
    ∙ rw (ids_before now db, alerts_before now db, tables_agree now db) refl
