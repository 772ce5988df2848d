-- ===== src/Limits.antt =====
-- Rate limits, lockout, one-time values and token revocation: server/src/envelock/security/limits.py.
-- The clock is read in ticks of a microsecond, so that `int(seconds)` is a division.
pub mod RateLimiter
pub mod Lockout
pub mod Replay
pub mod Revocations
mod Tests
use envelock.Prelude.{ℕ, String, Option, none, some, [], ◌∷◌}
use envelock.Prelude.Dict.{Dict, lookup}

-- One second, in ticks.
abbrev pub second : ℕ
second = 1000000

-- `Rule`: `limit` requests per `window` seconds.
pub record Rule : Type 0 where
  pub limit : ℕ
  pub window : ℕ

abbrev pub rule : ℕ → ℕ → Rule
rule limit window = record { limit = limit; window = window }

-- `RULES["default"]`
abbrev pub default_rule : Rule
default_rule = rule 120 60

-- `RULES`
unfoldable pub rules : Dict Rule
rules =
    ("auth.login", rule 10 300)
    ∷ ("auth.register", rule 20 3600)
    ∷ ("auth.mfa", rule 10 300)
    ∷ ("auth.refresh", rule 30 300)
    ∷ ("auth.recovery", rule 5 3600)
    ∷ ("contact", rule 5 3600)
    ∷ ("auth.password", rule 10 900)
    ∷ ("auth.phone", rule 5 3600)
    ∷ ("scan.domain", rule 20 60)
    ∷ ("scan.connect", rule 20 60)
    ∷ ("analyse", rule 30 60)
    ∷ ("export", rule 60 60)
    ∷ ("redirect", rule 60 60)
    ∷ ("webhooks", rule 300 60)
    ∷ ("brand", rule 20 60)
    ∷ ("simulate", rule 10 60)
    ∷ ("ingest", rule 120 60)
    ∷ ("status", rule 60 60)
    ∷ ("sensor.enroll", rule 10 300)
    ∷ ("sensor", rule 1200 60)
    ∷ ("default", default_rule)
    ∷ []

abbrev pub or_default : Option Rule → Rule
or_default none = default_rule
or_default (some r) = r

-- `RULES.get(bucket, RULES["default"])`
unfoldable pub rule_for : String → Rule
unfolding rules lookup
rule_for bucket = or_default (lookup bucket rules)
