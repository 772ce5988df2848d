-- ===== src/Detections/Tests.antt =====
-- The properties of the registry at concrete inputs; a context is the sender's address.
use envelock.Prelude.{
  ◌≡◌, refl, String, ◌||◌, some, List, [], ◌∷◌, keep, elem, true, none, ◌+◌, ◌*◌, if◌then◌else◌,
  not, ltb, arith, times,
}
use envelock.Core.{AlertTier}
use envelock.Core.Capabilities.{Capability, read_inbound, read_sessions}
use envelock.Domains.{is_platform_domain, platform_domains}
use envelock.Detections.Registry.{
  Detection, Registry, DetectionContext, pass, active_for, inactive_for, plan_locked_detections,
  run_all, run_loop, is_platform_notice,
}
use envelock.Detections.Registry.Coverage.{
  coverage_complete, platform_notice_silences, services, judged, register_all,
}
use envelock.Detections.Attachments.{Verdict}
use envelock.Detections.Attachments.Cache.{get, put, is_malicious}
use envelock.Detections.Attachments.Cache.Recall.{get-put}
use envelock.Detections.Attachments.Layers.{Cascade, Attachment, CascadeState, analyse}
use envelock.Detections.Attachments.Metering.{analyse_metered}

abbrev first_contact : Detection String
first_contact = record {
  service = "A7";
  requires = read_inbound ∷ [];
  evaluate = λ c.
      record { service = "A7"; tier = AlertTier.medium; score = 30; summary = c; evidence = [] }
      ∷ [];
}

abbrev link : Detection String
link = record {
  service = "B1";
  requires = read_inbound ∷ [];
  evaluate = λ c.
      record { service = "B1"; tier = AlertTier.high; score = 70; summary = c; evidence = [] } ∷ [];
}

abbrev session : Detection String
session = record { service = "C7"; requires = read_sessions ∷ []; evaluate = λ c. [] }

abbrev registry : Registry String
registry = ("A7", first_contact) ∷ ("B1", link) ∷ ("C7", session) ∷ []

abbrev reads_mail : List Capability
reads_mail = read_inbound ∷ []

abbrev notice : DetectionContext String
notice = record {
  capabilities = reads_mail;
  plan = some "essential";
  mail = some (record { provider_dmarc = pass; sender_domain = "google.com" });
  view = "no-reply@google.com";
}

-- The three detections, one of them registered twice.
abbrev registered : List (Detection String)
registered = first_contact ∷ link ∷ session ∷ link ∷ []

coverage_complete_example :
    (let all = register_all registered [] in
      times "B1" (services (active_for all reads_mail (some "essential")))
        + times "B1" (inactive_for all reads_mail)
        + times "B1" (plan_locked_detections all reads_mail "essential")
      ≡ (if elem "B1" (services registered) then 1 else 0))
coverage_complete_example = coverage_complete registered reads_mail "essential" "B1"

platform_notice_silences_example :
    run_all (λ d. d) registry notice
    ≡ keep judged (run_loop [] notice.view (active_for registry notice.capabilities notice.plan))
unfolding is_platform_notice is_platform_domain platform_domains
platform_notice_silences_example =
    platform_notice_silences (λ d. d) registry notice
      ((λ c. (refl, tt)), ((λ c. (refl, tt)), ((λ c. tt), tt))) refl

abbrev cascade : Cascade
cascade = record {
  ttl = 604800;
  max_entries = 50000;
  reputation_available = true;
  detonation_enabled = true;
  lookup_stats = λ sha. some (record {
    malicious_engines = 4;
    suspicious_engines = 0;
    harmless_engines = 60;
    undetected_engines = 5;
  });
}

abbrev macro_document : Attachment
macro_document = record {
  sha256 = "ab12";
  name = "invoice.docm";
  payload = 80 ∷ 75 ∷ 3 ∷ 4 ∷ [];
  declared_mime = none;
  protected_mailbox = true;
}

abbrev idle : CascadeState
idle = record {
  entries = [];
  metrics = record {
    seen = 0;
    cache_hits = 0;
    static_resolved = 0;
    reputation_calls = 0;
    detonations = 0;
    cost_micros = 0;
  };
}

analyse_metered_example :
    ((analyse cascade 10 macro_document idle).1.metrics.cost_micros
      ≡ 0 + (analyse cascade 10 macro_document idle).0.cost_micros)
    × ((analyse cascade 10 macro_document idle).1.metrics.detonations ≡ 0)
    × ((analyse cascade 10 macro_document idle).0.cost_micros + 100 * 0
        ≡ 100 * (analyse cascade 10 macro_document idle).1.metrics.reputation_calls)
    × ((analyse cascade 10 macro_document idle).1.metrics.seen ≡ 0 + 1)
analyse_metered_example = analyse_metered cascade 10 macro_document idle

abbrev program : Attachment
program = record macro_document { name = "invoice.exe"; payload = 77 ∷ 90 ∷ 144 ∷ [] }

get-put_example : (get 604800 700000 "ab12" (put 50000 10 "ab12" Verdict.clean [])).0 ≡ (
    if is_malicious Verdict.clean || not (ltb (10 + 604800) 700000)
    then some Verdict.clean
    else none)
get-put_example = get-put 50000 604800 10 700000 "ab12" Verdict.clean [] (omega arith)
