-- ===== src/Limits/Tests.antt =====
-- The properties of the limits at concrete inputs.
use envelock.Prelude.{
  ℕ, ◌≡◌, ◌≤◌, refl, true, none, some, List, [], ◌∷◌, count_if, arith, ◌*◌, ◌+◌, leb, ltb, ◌&&◌,
}
use envelock.Prelude.Dict.{lookup}
use envelock.Limits.{Rule, rule, second}
use envelock.Limits.RateLimiter.{span}
use envelock.Limits.RateLimiter.Window.{admitted_window_bound, admitted_from, in_window}
use envelock.Limits.Lockout.{is_locked, record_failure, threshold, backoff}
use envelock.Limits.Lockout.Progress.{lockout_exact, record_failures}
use envelock.Limits.Replay.Once.{accepts_at_most_once, Use, accepts}
use envelock.Limits.Revocations.{Revoked, revoke_user}
use envelock.Limits.Revocations.View.{
  answers-eq-refused, sign_out_everywhere, Query, answers, refused,
}
use envelock.Limits.Revocations.Single.{Op, present, consume, sign_out, wins, wins_at_most_once}
use envelock.Prelude.{map}

abbrev two_a_minute : Rule
two_a_minute = rule 2 60

abbrev times : List ℕ
times = 0 ∷ 10000000 ∷ 20000000 ∷ 70000000 ∷ []

admitted_window_bound_example :
    count_if (in_window 0 (span two_a_minute)) (admitted_from two_a_minute [] times) ≤ 2
admitted_window_bound_example =
    admitted_window_bound two_a_minute times 0
      (omega arith, (omega arith, (omega arith, (omega arith, tt))))

abbrev four_failures : List ℕ
four_failures = 1 ∷ 2 ∷ 3 ∷ 4 ∷ []

lockout_exact_example :
    (is_locked "ana" 60000004 (record_failure "ana" 5 (record_failures "ana" four_failures []))).0
    ≡ (leb threshold 5 && ltb 60000004 (5 + backoff 5 * second))
unfolding lookup
lockout_exact_example = lockout_exact "ana" [] refl four_failures 5 60000004

-- A code used twice, with a call on another value in between that is remembered for a minute only.
abbrev code_uses : List Use
code_uses =
    record { key = "u1:123456"; at = 1000; ttl = none }
    ∷ record { key = "verify:u2"; at = 1500; ttl = some 60 }
    ∷ record { key = "u1:123456"; at = 2000; ttl = some 300 }
    ∷ []

accepts_at_most_once_example : accepts 120 "u1:123456" code_uses [] ≤ 1
accepts_at_most_once_example = accepts_at_most_once 120 "u1:123456" 1000 120000000 code_uses [] (
  (omega arith, omega arith, λ e. omega arith),
  (
    (omega arith, omega arith, λ e. ground (arith, e)),
    ((omega arith, omega arith, λ e. omega arith), tt),
  ),
)

abbrev signed_out : Revoked
signed_out = record { jtis = ("t1", 500) ∷ []; users = ("ana", (100, 900)) ∷ [] }

abbrev shown : List Query
shown =
    record { jti = "t1"; user = "bob"; at = 200; issued = some 150 }
    ∷ record { jti = "t2"; user = "ana"; at = 300; issued = some 50 }
    ∷ record { jti = "t3"; user = "ana"; at = 950; issued = some 50 }
    ∷ []

answers-eq-refused_example : answers shown signed_out ≡ map (refused signed_out) shown
answers-eq-refused_example =
    answers-eq-refused shown signed_out (omega arith, (omega arith, (omega arith, tt)))

abbrev stale : List Query
stale =
    record { jti = "t4"; user = "ana"; at = 2000; issued = some 999 }
    ∷ record { jti = "t5"; user = "ana"; at = 3000; issued = none }
    ∷ []

sign_out_everywhere_example :
    answers stale (revoke_user "ana" 9000 none 1000 signed_out) ≡ map (λ _. true) stale
sign_out_everywhere_example =
    sign_out_everywhere "ana" 9000 1000 none signed_out stale (omega arith, (omega arith, tt))
      ((refl, omega arith, refl), ((refl, omega arith, refl), tt))

abbrev two_claims : List Op
two_claims =
    consume "r1" 5000
    ∷ sign_out "ana" 9000 none 1000
    ∷ present (record { jti = "r1"; user = "ana"; at = 1200; issued = some 1100 })
    ∷ consume "r1" 6000
    ∷ []

wins_at_most_once_example : wins "r1" two_claims signed_out ≤ 1
wins_at_most_once_example =
    wins_at_most_once "r1" 4000 two_claims signed_out
      ((λ e. omega arith), (tt, (omega arith, ((λ e. omega arith), tt))))
