-- ===== src/Workers/Tests.antt =====
-- The properties of the background work at concrete inputs.
use envelock.Prelude.{
  ℕ, zero, suc, ◌+◌, ◌≡◌, ◌≤◌, refl, arith, String, true, false, none, some, List, [], ◌∷◌, ◌++◌,
  keep, length,
}
use envelock.Workers.Jobs.{Job, running, done, evict, is_unfinished, submit, new_job}
use envelock.Workers.Jobs.Retention.{submit_keeps_unfinished, submit-IsEviction, IsEviction}
use envelock.Workers.Webhooks.{
  World, Address, status_code, assert_safe_url, host_of, scan, scan_answer, has_no_host,
  is_forbidden, choose, conclude, before_zone,
}
use envelock.Workers.Webhooks.Guard.{guard_dials_public, AllPublic, first_address}
use envelock.Workers.Webhooks.Queue.{
  Delivery, Endpoint, pending, attempt_delivery, send, answered, settle, reschedule, is_success,
  is_pending,
}
use envelock.Workers.Webhooks.Retry.{
  Visit, visits, delivery_ends, retry_times, lateness, total_delay,
}

abbrev old_job : Job
old_job = record (new_job 1 10 "backfill" 7 none) { status = running }

submit_keeps_unfinished_example :
    keep (λ job. is_unfinished job.status) (submit (old_job ∷ []) 2 20 "backfill" 7 (some "m1"))
    ≡ keep (λ job. is_unfinished job.status) (old_job ∷ [])
      ++ (new_job 2 20 "backfill" 7 (some "m1") ∷ [])
submit_keeps_unfinished_example =
    submit_keeps_unfinished (old_job ∷ []) 2 20 "backfill" 7 (some "m1")

abbrev finished_jobs : ℕ → List Job
finished_jobs zero = []
finished_jobs (suc n) = record old_job { id = n; status = done } ∷ finished_jobs n

-- Two hundred finished jobs and an unfinished one behind them: a submission drops the two oldest.
abbrev full : List Job
full = finished_jobs 200 ++ (old_job ∷ [])

submit-IsEviction_example :
    IsEviction (full ++ (new_job 2 20 "backfill" 7 none ∷ [])) (submit full 2 20 "backfill" 7 none)
submit-IsEviction_example = submit-IsEviction full 2 20 "backfill" 7 none

full_evicts : length (submit full 2 20 "backfill" 7 none) ≡ 200
unfolding submit evict is_unfinished
full_evicts = refl

abbrev receiver : Address
receiver = record {
  text = "203.0.113.9";
  is_loopback = false;
  is_link_local = false;
  is_private = false;
  is_multicast = false;
  is_reserved = false;
  is_unspecified = false;
}

abbrev refusing : World
refusing = record {
  settings = record { development = false; webhook_allow_private_hosts = false };
  urlparse = λ url. record { scheme = "https"; hostname = some "siem.example.org" };
  resolve = λ host. some ("203.0.113.9" ∷ []);
  ip_address = λ text. some receiver;
  post = λ url ip attempt. status_code 503;
}

guard_dials_public_example :
    (infos : List String) × (refusing.resolve
        (host_of (refusing.urlparse "https://siem.example.org/in").hostname)
      ≡ some infos)
    × AllPublic refusing.ip_address infos
    × (first_address refusing.ip_address infos ≡ some "203.0.113.9")
unfolding assert_safe_url has_no_host scan_answer scan is_forbidden choose conclude before_zone
guard_dials_public_example =
    guard_dials_public refusing "https://siem.example.org/in" "203.0.113.9" refl

abbrev siem : Endpoint
siem = record {
  id = 4;
  tenant_id = 7;
  url = "https://siem.example.org/in";
  active = true;
  events = [];
  last_delivery_at = none;
  last_status = none;
}

abbrev queued_alert : Delivery
queued_alert = record {
  tenant_id = 7;
  endpoint_id = 4;
  event_type = "alert.raised";
  payload = "{}";
  attempt = 0;
  next_attempt_at = 1000;
  status = pending;
  last_attempt_at = none;
  delivered_at = none;
  last_error = none;
}

abbrev refused_visit : Visit
refused_visit = record { world = refusing; late = 5; endpoint = some siem }

abbrev seven_visits : List Visit
seven_visits =
    refused_visit ∷ refused_visit ∷ refused_visit ∷ refused_visit ∷ refused_visit ∷ refused_visit
    ∷ refused_visit ∷ []

delivery_ends_example : is_pending (visits seven_visits queued_alert).status ≡ false
delivery_ends_example = delivery_ends seven_visits queued_alert refl (omega arith)

abbrev two_visits : List Visit
two_visits = refused_visit ∷ refused_visit ∷ []

retry_times_example :
    (length two_visits ≤ 6)
    × ((visits two_visits queued_alert).attempt ≡ length two_visits)
    × ((visits two_visits queued_alert).next_attempt_at
        ≡ queued_alert.next_attempt_at + lateness two_visits + total_delay (length two_visits))
unfolding visits attempt_delivery send answered settle reschedule is_success assert_safe_url
    has_no_host scan_answer scan is_forbidden choose conclude before_zone
retry_times_example = retry_times two_visits queued_alert refl refl
