-- ===== src/Governance/Retention/Purge.antt =====
-- The purge of everything that has expired: `purge_expired` of
-- server/src/envelock/governance/retention.py.
pub mod Complete
pub mod Orphans
use envelock.Prelude.{
  ℕ, suc, Bool, not, ◌&&◌, Option, none, some, List, [], ◌∷◌, if◌then◌else◌, map, ltb, keep, any,
  count_if, length,
}
use envelock.Prelude.Dict.{is_some}
use envelock.Governance.Retention.{
  message_body, identity_event, audit_event, alert, finding, link_token, link_click, cutoff,
  Message, LinkClick, Dated, Child, Tables, Purged, violated, out_of_fuel, purged, has_id, is_older,
  expired, purge_alerts,
}

-- The condition of the `update(Message)`.
unfoldable pub has_old_body : ℕ → Message → Bool
has_old_body cut m = ltb m.received_at cut && is_some m.body_storage_key

-- What the `update(Message)` makes of a row.
unfoldable pub drop_body : ℕ → Message → Message
drop_body cut m =
    if has_old_body cut m then record m { body_storage_key = none; subject = none } else m

abbrev pub is_old_click : ℕ → LinkClick → Bool
is_old_click cut click = ltb click.created_at cut

abbrev pub is_old_child : ℕ → Child → Bool
is_old_child cut child = ltb child.created_at cut

unfoldable pub purge_bodies : ℕ → Tables → Tables
purge_bodies cut db = record db { messages = map (drop_body cut) db.messages }

unfoldable pub purge_identity : ℕ → Tables → Tables
purge_identity cut db = record db {
  sessions = keep (λ r. not (is_older cut r)) db.sessions;
  attested_reads = keep (λ r. not (is_older cut r)) db.attested_reads;
}

unfoldable pub purge_clicks : ℕ → Tables → Tables
purge_clicks cut db = record db {
  link_clicks = keep (λ c. not (is_old_click cut c)) db.link_clicks;
}

unfoldable pub delete_clicks_of : List ℕ → Tables → Tables
delete_clicks_of expiring db = record db {
  link_clicks = keep (λ c. not (has_id expiring c.link_token_id)) db.link_clicks;
}

-- `delete(LinkToken)`, which raises if a click still points at one of the tokens
unfoldable pub delete_tokens : ℕ → Tables → Option Tables
delete_tokens cut db =
    if any (λ c. has_id (expired cut db.link_tokens) c.link_token_id) db.link_clicks
    then none
    else some (record db { link_tokens = keep (λ t. not (is_older cut t)) db.link_tokens })

unfoldable pub purge_tokens : ℕ → Tables → Option Tables
purge_tokens cut db = delete_tokens cut (delete_clicks_of (expired cut db.link_tokens) db)

unfoldable pub purge_audit : ℕ → Tables → Tables
purge_audit cut db = record db { audit_events = keep (λ r. not (is_older cut r)) db.audit_events }

unfoldable pub purge_findings : ℕ → Tables → Tables
purge_findings cut db = record db { findings = keep (λ c. not (is_old_child cut c)) db.findings }

-- `if cut is not None`
abbrev pub at_cut : Option ℕ → (ℕ → Tables → Tables) → Tables → Tables
at_cut none step db = db
at_cut (some cut) step db = step cut db

abbrev tokens_at : Option ℕ → Tables → Option Tables
tokens_at none db = some db
tokens_at (some cut) db = purge_tokens cut db

-- The loop of the alerts with fuel for one round more than there are alerts.
abbrev alerts_at : Option ℕ → Tables → Purged
alerts_at none db = purged 0 db
alerts_at (some cut) db = purge_alerts cut (suc (length db.alerts)) 0 db

abbrev count_at : Option ℕ → (ℕ → ℕ) → ℕ
count_at none f = 0
count_at (some cut) f = f cut

-- The steps before the link tokens.
unfoldable pub purge_before_tokens : (now : ℕ) → Tables → Tables
purge_before_tokens now db = at_cut (cutoff link_click now) purge_clicks (
    at_cut (cutoff identity_event now) purge_identity
      (at_cut (cutoff message_body now) purge_bodies db))

-- The steps between the link tokens and the alerts.
unfoldable pub purge_after_tokens : (now : ℕ) → Tables → Tables
purge_after_tokens now db =
    at_cut (cutoff finding now) purge_findings (at_cut (cutoff audit_event now) purge_audit db)

-- The counts that the purge answers with, by the rows that each statement finds.
pub record Counts : Type 0 where
  pub bodies : ℕ
  pub sessions : ℕ
  pub reads : ℕ
  pub clicks : ℕ
  pub tokens : ℕ
  pub audits : ℕ
  pub findings : ℕ
  pub alerts : ℕ

unfoldable pub counts : (now : ℕ) → (alert_count : ℕ) → Tables → Counts
counts now alert_count db = record {
  bodies = count_at (cutoff message_body now) (λ cut. count_if (has_old_body cut) db.messages);
  sessions = count_at (cutoff identity_event now) (λ cut. count_if (is_older cut) db.sessions);
  reads = count_at (cutoff identity_event now) (λ cut. count_if (is_older cut) db.attested_reads);
  clicks = count_at (cutoff link_click now) (λ cut. count_if (is_old_click cut) db.link_clicks);
  tokens = count_at (cutoff link_token now) (λ cut. count_if (is_older cut) db.link_tokens);
  audits = count_at (cutoff audit_event now) (λ cut. count_if (is_older cut) db.audit_events);
  findings = count_at (cutoff finding now) (λ cut. count_if (is_old_child cut) db.findings);
  alerts = alert_count;
}

-- What `purge_expired` comes to: it raises, or it answers the counts.
pub data Outcome : Type 0 where
  raised : Outcome
  answered : Counts → Tables → Outcome

abbrev pub answer : (ℕ → Counts) → Purged → Outcome
answer count violated = raised
answer count out_of_fuel = raised
answer count (purged n db) = answered (count n) db

abbrev pub finish : (now : ℕ) → (before : Tables) → Option Tables → Outcome
finish now before none = raised
finish now before (some db) =
    answer (λ n. counts now n before) (alerts_at (cutoff alert now) (purge_after_tokens now db))

-- `purge_expired`
unfoldable pub purge_expired : (now : ℕ) → Tables → Outcome
purge_expired now db =
    finish now db (tokens_at (cutoff link_token now) (purge_before_tokens now db))
