-- ===== src/Limits/Lockout.antt =====
-- `class AccountLockout`: progressive lockout keyed on the account.
pub mod Progress
use envelock.Prelude.{
  ℕ, ◌+◌, ◌-◌, ◌*◌, ◌/◌, min, String, Bool, true, false, Option, none, some, List, [], ◌∷◌, get_or,
  leb, if◌then◌else◌,
}
use envelock.Prelude.Dict.{Dict, lookup, insert, erase}
use envelock.Limits.{second}

-- `_LockoutState`; its `history` is never read or written.
pub record LockoutState : Type 0 where
  pub failures : ℕ
  pub locked_until : ℕ

abbrev pub fresh : LockoutState
fresh = record { failures = 0; locked_until = 0 }

-- `THRESHOLD`
abbrev pub threshold : ℕ
threshold = 5

-- `BACKOFFS`, in seconds
abbrev pub backoffs : List ℕ
backoffs = 60 ∷ 300 ∷ 900 ∷ 3600 ∷ []

-- `BACKOFFS[min((failures - THRESHOLD) // THRESHOLD, len(BACKOFFS) - 1)]`
unfoldable pub backoff : ℕ → ℕ
backoff failures = get_or backoffs (min ((failures - threshold) / threshold) 3) 0

-- `is_locked`
abbrev pub locked_at : ℕ → Option LockoutState → Bool × ℕ
locked_at current none = (false, 0)
locked_at current (some s) =
    if leb s.locked_until current
    then (false, 0)
    else (true, (s.locked_until - current) / second + 1)

unfoldable pub is_locked : String → ℕ → Dict LockoutState → Bool × ℕ
is_locked identity current store = locked_at current (lookup identity store)

-- `record_failure`, on the entry of the account
unfoldable pub fail : ℕ → LockoutState → LockoutState
fail current s =
    let failures = s.failures + 1 in
    if leb threshold failures
    then record { failures = failures; locked_until = current + backoff failures * second }
    else record { failures = failures; locked_until = s.locked_until }

abbrev pub state_of : Option LockoutState → LockoutState
state_of none = fresh
state_of (some s) = s

-- `record_failure`; the `defaultdict` makes a fresh entry
unfoldable pub record_failure : String → ℕ → Dict LockoutState → Dict LockoutState
record_failure identity current store =
    insert identity (fail current (state_of (lookup identity store))) store

-- `record_success`
unfoldable pub record_success : String → Dict LockoutState → Dict LockoutState
record_success identity store = erase identity store
