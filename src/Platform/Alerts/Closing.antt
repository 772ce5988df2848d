-- ===== src/Platform/Alerts/Closing.antt =====
-- What closing an alert tells the other tenants: `resolve` of server/src/envelock/platform/alerts.py.
use envelock.Prelude.{
  ℕ, ◌≡◌, refl, String, Bool, false, not, ◌&&◌, Option, none, some, List, arith, ◌==◌, Bool-cases,
  inl, inr,
}
use envelock.Platform.Alerts.{Alert, Store, alert_of}
use envelock.Platform.Alerts.Resolve.{Feed, resolve, close, close_found, feeds, report}

report_nothing :
    {F : Type 0} (feed : Feed) (dismiss : Bool) (tenant_id : ℕ) (a : Alert F)
    (reports : List (String × ℕ))
    → (not dismiss && feed.may_feed_graph tenant_id) ≡ false
    → report feed dismiss tenant_id a reports ≡ reports
unfolding report feeds
report_nothing feed dismiss tenant_id a reports h = ground (arith, h)

close_found-reports :
    {F : Type 0} (feed : Feed) (now tenant_id : ℕ) (actor_id : Option ℕ) (dismiss : Bool)
    (found : Option (Alert F)) (s : Store F)
    → (not dismiss && feed.may_feed_graph tenant_id) ≡ false
    → (close_found feed now tenant_id actor_id dismiss found s).1.reports ≡ s.reports
unfolding close_found close
close_found-reports feed now tenant_id actor_id dismiss none s h = refl
close_found-reports feed now tenant_id actor_id dismiss (some a) s h =
    elim (Bool-cases (a.tenant_id == tenant_id)) [
      | inl e ↦ rw e (report_nothing feed dismiss tenant_id a s.reports h)
      | inr e ↦ rw e refl
    ]

-- A dismissal, and a tenant without a verified domain, report nothing to the graph that the tenants
-- share: `resolve` leaves the reports as they were.
pub unverified_never_reports :
    {F : Type 0} (feed : Feed) (now alert_id tenant_id : ℕ) (actor_id : Option ℕ) (dismiss : Bool)
    (s : Store F)
    → (not dismiss && feed.may_feed_graph tenant_id) ≡ false
    → (resolve feed now alert_id tenant_id actor_id dismiss s).1.reports ≡ s.reports
unfolding resolve
unverified_never_reports feed now alert_id tenant_id actor_id dismiss s h =
    close_found-reports feed now tenant_id actor_id dismiss (alert_of alert_id s.alerts) s h
