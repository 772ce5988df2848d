-- ===== src/Detections/Attachments/Layers.antt =====
-- `AttachmentCascade.analyse`: the layers of the cascade in their order. The answer of VirusTotal for a hash
-- is a parameter; the settings are a record.
use envelock.Prelude.{
  ℕ, ◌+◌, String, Bool, true, false, not, ◌&&◌, Option, none, some, List, [], ◌∷◌, ◌++◌,
  if◌then◌else◌, ltb, leb,
}
use envelock.Detections.Attachments.{
  Verdict, clean, suspicious, malicious, unknown, Layer, CascadeResult, CascadeMetrics,
  StaticVerdict, static, cache, reputation,
}
use envelock.Detections.Attachments.Cache.{Entry, get, put}
use envelock.Detections.Attachments.Triage.{static_triage}

-- What VirusTotal's statistics say: the counts of engines.
pub record Stats : Type 0 where
  pub malicious_engines : ℕ
  pub suspicious_engines : ℕ
  pub harmless_engines : ℕ
  pub undetected_engines : ℕ

-- `_reputation` on the statistics of a known sample
unfoldable pub judge_stats : Stats → Option Verdict
judge_stats s =
    if leb 3 s.malicious_engines
    then some malicious
    else if leb 1 s.malicious_engines
    then some suspicious
    else if leb 3 s.suspicious_engines
    then some suspicious
    else if ltb 0 (s.harmless_engines + s.undetected_engines)
    then some clean
    else none

-- `_reputation`; `none` where the request fails or the sample is not known
unfoldable pub reputation_of : Option Stats → Option Verdict
reputation_of none = none
reputation_of (some stats) = judge_stats stats

-- `_detonate`
abbrev pub detonate : List ℕ → Verdict
detonate payload = unknown

-- The cascade and what it reads from outside. Sizes and lifetimes are those of the cache.
pub record Cascade : Type 0 where
  pub ttl : ℕ
  pub max_entries : ℕ
  pub reputation_available : Bool
  pub detonation_enabled : Bool
  pub lookup_stats : String → Option Stats

-- The state of the cascade.
pub record CascadeState : Type 0 where
  pub entries : List Entry
  pub metrics : CascadeMetrics

-- What is analysed; the name is in lower case.
pub record Attachment : Type 0 where
  pub sha256 : String
  pub name : String
  pub payload : List ℕ
  pub declared_mime : Option String
  pub protected_mailbox : Bool

abbrev pub is_resolved : Verdict → Bool
is_resolved malicious = true
is_resolved clean = true
is_resolved _ = false

abbrev pub is_unknown : Verdict → Bool
is_unknown unknown = true
is_unknown _ = false

-- The end of `analyse`.
unfoldable pub fall_through :
    Attachment → StaticVerdict → CascadeState → CascadeResult × CascadeState
fall_through a triaged s = (
  record {
    sha256 = a.sha256;
    verdict = triaged.verdict;
    layer = static;
    reasons = triaged.reasons ++ ("detonation not enabled" ∷ []);
    cost_micros = 0;
  },
  s,
)

-- Layer 3.
unfoldable pub detonation_layer :
    Cascade → ℕ → Attachment → StaticVerdict → CascadeState → CascadeResult × CascadeState
detonation_layer c now a triaged s =
    if c.detonation_enabled && a.protected_mailbox && not (is_unknown (detonate a.payload))
    then (
      record {
        sha256 = a.sha256;
        verdict = detonate a.payload;
        layer = Layer.detonation;
        reasons = "dynamic analysis" ∷ [];
        cost_micros = 5000;
      },
      record {
        entries = put c.max_entries now a.sha256 (detonate a.payload) s.entries;
        metrics = record s.metrics {
          detonations = s.metrics.detonations + 1;
          cost_micros = s.metrics.cost_micros + 5000;
        };
      },
    )
    else fall_through a triaged s

-- Layer 2, with the answer of the look-up.
unfoldable pub reputation_layer :
    Cascade
    → ℕ
    → Attachment
    → StaticVerdict
    → Option Verdict
    → CascadeState
    → CascadeResult × CascadeState
reputation_layer c now a triaged none s = detonation_layer c now a triaged s
reputation_layer c now a triaged (some verdict) s = (
  record {
    sha256 = a.sha256;
    verdict = verdict;
    layer = reputation;
    reasons = "hash reputation" ∷ [];
    cost_micros = 100;
  },
  record {
    entries = put c.max_entries now a.sha256 verdict s.entries;
    metrics = record s.metrics {
      reputation_calls = s.metrics.reputation_calls + 1;
      cost_micros = s.metrics.cost_micros + 100;
    };
  },
)

-- Layer 1 and what follows it.
unfoldable pub static_layer :
    Cascade → ℕ → Attachment → StaticVerdict → CascadeState → CascadeResult × CascadeState
static_layer c now a triaged s =
    if is_resolved triaged.verdict
    then (
      record {
        sha256 = a.sha256;
        verdict = triaged.verdict;
        layer = static;
        reasons = triaged.reasons;
        cost_micros = 0;
      },
      record {
        entries = put c.max_entries now a.sha256 triaged.verdict s.entries;
        metrics = record s.metrics { static_resolved = s.metrics.static_resolved + 1 };
      },
    )
    else reputation_layer c now a triaged
        (if c.reputation_available then reputation_of (c.lookup_stats a.sha256) else none) s

-- Layer 0 and what follows it.
unfoldable pub cache_layer :
    Cascade → ℕ → Attachment → Option Verdict → CascadeState → CascadeResult × CascadeState
cache_layer c now a none s = static_layer c now a (static_triage a.name a.payload a.declared_mime) s
cache_layer c now a (some verdict) s = (
  record {
    sha256 = a.sha256;
    verdict = verdict;
    layer = cache;
    reasons = "shared verdict cache" ∷ [];
    cost_micros = 0;
  },
  record s { metrics = record s.metrics { cache_hits = s.metrics.cache_hits + 1 } },
)

-- `analyse`
unfoldable pub analyse : Cascade → ℕ → Attachment → CascadeState → CascadeResult × CascadeState
analyse c now a s =
    let looked = get c.ttl now a.sha256 s.entries in
    cache_layer c now a looked.0
      (record { entries = looked.1; metrics = record s.metrics { seen = s.metrics.seen + 1 } })
