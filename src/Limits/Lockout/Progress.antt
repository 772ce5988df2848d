-- ===== src/Limits/Lockout/Progress.antt =====
-- How a lockout grows with the failures, and that it always ends.
use envelock.Prelude.{
  ℕ, suc, zero, ◌+◌, ◌*◌, ◌≤◌, ◌<◌, ◌≡◌, ◌≢◌, refl, ap, ◌∙◌, String, false, Option, none, some,
  List, [], ◌∷◌, length, get_or, leb, ltb, arith, All, ◌&&◌,
}
use envelock.Prelude.Dict.{Dict, lookup, lookup-insert_self, lookup-insert_ne, lookup-erase_ne}
use envelock.Limits.{second}
use envelock.Limits.Lockout.{
  LockoutState, threshold, backoff, is_locked, locked_at, fail, state_of, record_failure,
  record_success,
}

tier_le : (n : ℕ) → get_or (60 ∷ 300 ∷ 900 ∷ 3600 ∷ []) n 0 ≤ 3600
tier_le zero = omega arith
tier_le (suc zero) = omega arith
tier_le (suc (suc zero)) = omega arith
tier_le (suc (suc (suc zero))) = omega arith
tier_le (suc (suc (suc (suc n)))) = omega arith

backoff-le : (n : ℕ) → backoff n ≤ 3600
unfolding backoff
backoff-le n = tier_le _

-- The failures of one account, in order.
unfoldable pub record_failures : String → List ℕ → Dict LockoutState → Dict LockoutState
record_failures identity [] store = store
record_failures identity (t ∷ ts) store =
    record_failures identity ts (record_failure identity t store)

abbrev state_at : String → Dict LockoutState → LockoutState
state_at identity store = state_of (lookup identity store)

state-record_failure :
    (identity : String) (t : ℕ) (store : Dict LockoutState)
    → state_at identity (record_failure identity t store) ≡ fail t (state_at identity store)
unfolding record_failure
state-record_failure identity t store =
    rw (lookup-insert_self identity (fail t (state_at identity store)) store)

failures-fail : (t : ℕ) (s : LockoutState) → (fail t s).failures ≡ s.failures + 1
unfolding fail
failures-fail t s = ground arith

failures-record_failures :
    (identity : String) (ts : List ℕ) (store : Dict LockoutState)
    → (state_at identity (record_failures identity ts store)).failures
      ≡ (state_at identity store).failures + length ts
unfolding record_failures
failures-record_failures identity [] store = omega arith
failures-record_failures identity (t ∷ ts) store = omega (
  arith,
  failures-record_failures identity ts (record_failure identity t store),
  ap (λ (s : LockoutState). s.failures) (state-record_failure identity t store),
  failures-fail t (state_at identity store),
)

-- Below the threshold an account has never been locked.
abbrev Unlocked : LockoutState → Type 0
Unlocked s = s.failures < threshold → s.locked_until ≡ 0

fail-Unlocked : (t : ℕ) (s : LockoutState) → Unlocked s → Unlocked (fail t s)
unfolding fail
fail-Unlocked t s h lt = ground (arith, h (ground arith))

record_failures-Unlocked :
    (identity : String) (ts : List ℕ) (store : Dict LockoutState)
    → Unlocked (state_at identity store)
    → Unlocked (state_at identity (record_failures identity ts store))
unfolding record_failures
record_failures-Unlocked identity [] store h = h
record_failures-Unlocked identity (t ∷ ts) store h =
    record_failures-Unlocked identity ts (record_failure identity t store)
      (rw (state-record_failure identity t store) (fail-Unlocked t _ h))

-- What the last failure decides.
locked_after_fail :
    (t now : ℕ) (s : LockoutState)
    → Unlocked s
    → (locked_at now (some (fail t s))).0
      ≡ (leb threshold (s.failures + 1) && ltb now (t + backoff (s.failures + 1) * second))
unfolding fail
locked_after_fail t now s h = ground (arith, λ (lt : s.failures < threshold). h lt)

none-Unlocked :
    (identity : String) (store : Dict LockoutState)
    → lookup identity store ≡ none
    → Unlocked (state_at identity store)
none-Unlocked identity store e = rw e (λ lt. refl)

is_locked-record_failure :
    (identity : String) (t now : ℕ) (store : Dict LockoutState)
    → Unlocked (state_at identity store)
    → (is_locked identity now (record_failure identity t store)).0 ≡ (
        leb threshold ((state_at identity store).failures + 1)
        && ltb now (t + backoff ((state_at identity store).failures + 1) * second))
unfolding is_locked record_failure
is_locked-record_failure identity t now store h =
    rw (lookup-insert_self identity (fail t (state_at identity store)) store)
      (locked_after_fail t now (state_at identity store) h)

module _ (identity : String) (store : Dict LockoutState) (unknown : lookup identity store ≡ none)
    (ts : List ℕ) (t : ℕ) where
  abbrev after_all : Dict LockoutState
  after_all = record_failure identity t (record_failures identity ts store)

  -- For an account with no record, after failures at `ts` and a last one at `t`: it is locked
  -- exactly when there were at least five, until the backoff for their number has passed.
  pub lockout_exact :
      (now : ℕ)
      → (is_locked identity now after_all).0
        ≡ (leb threshold (length ts + 1) && ltb now (t + backoff (length ts + 1) * second))
  lockout_exact now =
      let counted : (state_at identity (record_failures identity ts store)).failures ≡ length ts =
        failures-record_failures identity ts store
        ∙ ap (λ (o : Option LockoutState). (state_of o).failures + length ts) unknown
        ∙ omega arith in
      rw (
        is_locked-record_failure identity t now (record_failures identity ts store)
            (record_failures-Unlocked identity ts store (none-Unlocked identity store unknown)),
        counted,
      )

  -- However many failures there were, the account is open again an hour after the last one.
  pub lockout_ends :
      (now : ℕ) → t + 3600 * second ≤ now → (is_locked identity now after_all).0 ≡ false
  lockout_ends now h = lockout_exact now ∙ ground (arith, backoff-le (length ts + 1))

-- What happens to the accounts: a failed sign-in, or a successful one.
pub data Attempt : Type 0 where
  failed : String → ℕ → Attempt
  succeeded : String → Attempt

abbrev pub account : Attempt → String
account (failed identity t) = identity
account (succeeded identity) = identity

pub attempt : Attempt → Dict LockoutState → Dict LockoutState
attempt (failed identity t) store = record_failure identity t store
attempt (succeeded identity) store = record_success identity store

unfoldable pub attempts : List Attempt → Dict LockoutState → Dict LockoutState
attempts [] store = store
attempts (a ∷ as_) store = attempts as_ (attempt a store)

lookup-attempt :
    (identity : String) (a : Attempt) (store : Dict LockoutState)
    → identity ≢ account a
    → lookup identity (attempt a store) ≡ lookup identity store
unfolding attempt record_failure record_success
lookup-attempt identity (failed other t) store ne = lookup-insert_ne identity other _ store ne
lookup-attempt identity (succeeded other) store ne = lookup-erase_ne identity other store ne

-- Sign-ins on other accounts, failed or not, never lock or unlock an account.
pub lockout_isolated :
    (identity : String) (now : ℕ) (as_ : List Attempt) (store : Dict LockoutState)
    → All (λ a. identity ≢ account a) as_
    → is_locked identity now (attempts as_ store) ≡ is_locked identity now store
unfolding attempts is_locked
lockout_isolated identity now [] store h = refl
lockout_isolated identity now (a ∷ as_) store h =
    lockout_isolated identity now as_ (attempt a store) h.1
    ∙ ap (locked_at now) (lookup-attempt identity a store h.0)
