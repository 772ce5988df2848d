-- ===== src/Limits/Replay.antt =====
-- `class ReplayGuard`: one-time use of a value while it is remembered.
pub mod Once
use envelock.Prelude.{
  ℕ, ◌+◌, ◌*◌, String, Bool, true, false, Option, none, some, leb, if◌then◌else◌,
}
use envelock.Prelude.Dict.{Dict, lookup, insert, purge, is_some}
use envelock.Limits.{second}

-- `ttl if ttl is not None else self._ttl`, in ticks
abbrev pub lifetime : ℕ → Option ℕ → ℕ
lifetime default none = default * second
lifetime default (some ttl) = ttl * second

-- `check_and_record`; `default` is the guard's own `_ttl`, 120 seconds for the TOTP guard.
unfoldable pub check_and_record : ℕ → String → ℕ → Option ℕ → Dict ℕ → Bool × Dict ℕ
check_and_record default key current ttl seen =
    let live = purge (λ expires. leb expires current) seen in
    if is_some (lookup key live)
    then (false, live)
    else (true, insert key (current + lifetime default ttl) live)
