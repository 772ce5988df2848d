-- ===== src/Detections/Attachments.antt =====
-- The attachment cascade: server/src/envelock/detections/cascade.py, with the verdict cache in its child
-- module Cache. Bytes are numbers; `str.lower` and the look-up of a hash at VirusTotal are parameters.
pub mod Cache
pub mod Triage
pub mod Layers
pub mod Metering
use envelock.Prelude.{
  ℕ, ◌+◌, String, Bool, true, false, not, ◌&&◌, ◌||◌, Option, none, some, List, [], ◌∷◌, ◌++◌,
  if◌then◌else◌, ltb,
}

-- `Verdict`
pub data Verdict : Type 0 where
  clean suspicious malicious unknown : Verdict

-- `_SEVERITY`
unfoldable pub severity : Verdict → ℕ
severity clean = 0
severity unknown = 1
severity suspicious = 2
severity malicious = 3

-- `max(a, b, key=_severity)`: the first of the greatest
unfoldable pub worse : Verdict → Verdict → Verdict
worse a b = if ltb (severity a) (severity b) then b else a

-- `Layer`
pub data Layer : Type 0 where
  cache static reputation detonation : Layer

-- `CascadeResult`
pub record CascadeResult : Type 0 where
  pub sha256 : String
  pub verdict : Verdict
  pub layer : Layer
  pub reasons : List String
  pub cost_micros : ℕ

-- `CascadeMetrics`
pub record CascadeMetrics : Type 0 where
  pub seen : ℕ
  pub cache_hits : ℕ
  pub static_resolved : ℕ
  pub reputation_calls : ℕ
  pub detonations : ℕ
  pub cost_micros : ℕ

-- `StaticVerdict`
pub record StaticVerdict : Type 0 where
  pub verdict : Verdict
  pub reasons : List String
