-- ===== src/Platform/Alerts/Isolation.antt =====
-- What a tenant can change: `acknowledge` and `resolve` of server/src/envelock/platform/alerts.py, in any order.
use envelock.Prelude.{ℕ, ◌≡◌, String, Bool, false, not, Option, List, [], ◌∷◌, ◌==◌, keep, All}
use envelock.Platform.Alerts.{Alert, Store, AuditEvent, acknowledge}
use envelock.Platform.Alerts.Resolve.{Feed, resolve}

-- A call by a member of the tenant.
pub data Call : Type 0 where
  acknowledging : (now alert_id actor_id : ℕ) → Call
  closing : (now alert_id : ℕ) (actor_id : Option ℕ) (dismiss : Bool) → Call

module _ {F : Type 0} where
  -- What the tables hold of the other tenants: their alerts, their audit, and their reports to the graph.
  unfoldable pub of_others :
      (tenant_id : ℕ) → Store F → List (Alert F) × List AuditEvent × List (String × ℕ)
  of_others tenant_id s = (
    keep (λ a. not (a.tenant_id == tenant_id)) s.alerts,
    keep (λ e. not (e.tenant_id == tenant_id)) s.audit,
    keep (λ r. not (r.1 == tenant_id)) s.reports,
  )

  abbrev triple :
      List (Alert F)
      → List AuditEvent
      → List (String × ℕ)
      → List (Alert F) × List AuditEvent × List (String × ℕ)
  triple x y z = (x, y, z)

  -- The ids of the alerts are the primary key.
  abbrev pub IsKeyed : List (Alert F) → Type 0
  IsKeyed [] = Unit
  IsKeyed (a ∷ alerts) = All (λ b. (b.id == a.id) ≡ false) alerts × IsKeyed alerts

  -- The change of one alert that keeps its id and its tenant.
  abbrev Keeps : (Alert F → Alert F) → Type 0
  Keeps f = (a : Alert F) → ((f a).id ≡ a.id) × ((f a).tenant_id ≡ a.tenant_id)

  unfoldable pub call : Feed → (tenant_id : ℕ) → Call → Store F → Store F
  call feed tenant_id (acknowledging now alert_id actor_id) s =
      (acknowledge now alert_id tenant_id actor_id s).1
  call feed tenant_id (closing now alert_id actor_id dismiss) s =
      (resolve feed now alert_id tenant_id actor_id dismiss s).1

  unfoldable pub calls : Feed → (tenant_id : ℕ) → List Call → Store F → Store F
  calls feed tenant_id [] s = s
  calls feed tenant_id (c ∷ cs) s = calls feed tenant_id cs (call feed tenant_id c s)
