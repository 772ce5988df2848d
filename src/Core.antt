-- ===== src/Core.antt =====
-- Shared vocabulary: server/src/envelock/core/enums.py.
pub mod Capabilities
mod Tests
use envelock.Prelude.{ℕ}

pub data AlertTier : Type 0 where
  low medium high critical : AlertTier

-- `_ORDER` of risk/engine.py and llm/cascade.py
unfoldable pub order : AlertTier → ℕ
order AlertTier.low = 0
order AlertTier.medium = 1
order AlertTier.high = 2
order AlertTier.critical = 3

pub data SourceMechanism : Type 0 where
  graph_api gmail_api admin_api imap_idle imap_poll forward_ingest journal : SourceMechanism
  entra_logs google_reports client_sensor imap_flags : SourceMechanism
  cert_transparency zone_file rdap dmarc_rua threat_feed : SourceMechanism

pub data ProtectionLevel : Type 0 where
  full standard limited : ProtectionLevel
