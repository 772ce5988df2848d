-- ===== src/Limits/Revocations/View.antt =====
-- What `is_revoked` answers, as a function of a store in which nothing is ever forgotten.
use envelock.Prelude.{
  ℕ, ◌≤◌, ◌<◌, ◌≡◌, refl, ◌∙◌, String, Bool, true, false, ◌||◌, Option, none, some, List, [], ◌∷◌,
  leb, ltb, arith, if◌then◌else◌, All, eq_iff, map,
}
use envelock.Prelude.Dict.{lookup, lookup-purge, lookup-insert}
use envelock.Limits.Revocations.{Revoked, revoke_user, moment, forget, before_cutoff, is_revoked}

-- A presentation of a token: its `jti`, its subject, the clock, and when it was issued.
pub record Query : Type 0 where
  pub jti : String
  pub user : String
  pub at : ℕ
  pub issued : Option ℕ

-- The meaning of a revocation: the token's own entry has not expired, or the user's entry has not
-- and the token was issued before its cutoff, or at an unknown time.
abbrev pub jti_live : ℕ → Option ℕ → Bool
jti_live now none = false
jti_live now (some expires) = ltb now expires

abbrev pub user_live : ℕ → Option ℕ → Option (ℕ × ℕ) → Bool
user_live now issued none = false
user_live now none (some (cutoff, until)) = ltb now until
user_live now (some at) (some (cutoff, until)) = if ltb now until then ltb at cutoff else false

unfoldable pub refused : Revoked → Query → Bool
refused s q = jti_live q.at (lookup q.jti s.jtis) || user_live q.at q.issued (lookup q.user s.users)

-- The answers to a run of presentations; each leaves the store that the next one meets.
unfoldable pub answers : List Query → Revoked → List Bool
answers [] s = []
answers (q ∷ qs) s =
    let (answer, s') = is_revoked q.jti q.user q.at q.issued s in answer ∷ answers qs s'

abbrev pub Ordered : ℕ → List Query → Type 0
Ordered low [] = Unit
Ordered low (q ∷ qs) = (low ≤ q.at) × Ordered q.at qs

answer_lem : (s : Revoked) (q : Query) → (is_revoked q.jti q.user q.at q.issued s).0 ≡ refused s q
unfolding is_revoked refused
answer_lem s q = ground (
  arith,
  lookup-purge q.jti (λ expires. leb expires q.at) s.jtis,
  lookup-purge q.user (λ entry. leb entry.1 q.at) s.users,
)

-- Forgetting at one time does not change an answer at a later one.
refused-forget :
    (s : Revoked) (now : ℕ) (q : Query) → now ≤ q.at → refused (forget now s) q ≡ refused s q
unfolding refused forget
refused-forget s now q le = ground (
  arith,
  lookup-purge q.jti (λ expires. leb expires now) s.jtis,
  lookup-purge q.user (λ entry. leb entry.1 now) s.users,
)

-- Two stores that answer alike from a time on.
abbrev Agree : ℕ → Revoked → Revoked → Type 0
Agree now s t = (q : Query) → now ≤ q.at → refused s q ≡ refused t q

forgotten :
    (jti user : String) (now : ℕ) (issued : Option ℕ) (s : Revoked)
    → (is_revoked jti user now issued s).1 ≡ forget now s
unfolding is_revoked
forgotten jti user now issued s = refl

answers-Agree :
    (now : ℕ) (qs : List Query) (s t : Revoked)
    → Agree now s t
    → Ordered now qs
    → answers qs s ≡ map (refused t) qs
unfolding answers
answers-Agree now [] s t h o = refl
answers-Agree now (q ∷ qs) s t h o =
    let rest : answers qs (is_revoked q.jti q.user q.at q.issued s).1 ≡ map (refused t) qs =
      answers-Agree q.at qs (is_revoked q.jti q.user q.at q.issued s).1 t
        (λ p le.
          rw (forgotten q.jti q.user q.at q.issued s)
            (refused-forget s q.at p le ∙ h p (omega (arith, o.0))))
        o.1 in
    cc (rest, answer_lem s q, h q o.0)

-- A run of presentations, by a clock that does not run backwards, is answered as by a store that
-- never forgets: the purge that each answer makes cannot be observed.
pub answers-eq-refused :
    (qs : List Query) (s : Revoked) → Ordered 0 qs → answers qs s ≡ map (refused s) qs
answers-eq-refused qs s o = answers-Agree 0 qs s s (λ q le. refl) o

-- A token of `user` that sign-out at `cutoff` must not touch: issued then or later, and not
-- revoked by itself.
abbrev pub IssuedAfter : String → ℕ → Revoked → Query → Type 0
IssuedAfter user cutoff s q =
    (q.user ≡ user)
    × (lookup q.jti s.jtis ≡ none)
    × ((at : ℕ) × (q.issued ≡ some at) × (cutoff ≤ at))

-- A token of `user` that sign-out must end: issued before, or at an unknown time, and presented
-- while the cutoff is remembered.
abbrev pub IssuedBefore : String → ℕ → ℕ → Query → Type 0
IssuedBefore user cutoff until q =
    (q.user ≡ user) × (q.at < until) × (before_cutoff q.issued (some (cutoff, until)) ≡ true)

module _ (user : String) (until clock : ℕ) (cutoff : Option ℕ) (s : Revoked) where
  refused_after :
      (q : Query)
      → IssuedAfter user (moment cutoff clock) s q
      → refused (revoke_user user until cutoff clock s) q ≡ false
  unfolding refused revoke_user
  refused_after q (same, clean, (at, issued, late)) =
      ground
        (arith, lookup-insert q.user user (moment cutoff clock, until) s.users, eq_iff user q.user)

  refused_before :
      (q : Query)
      → IssuedBefore user (moment cutoff clock) until q
      → refused (revoke_user user until cutoff clock s) q ≡ true
  unfolding refused revoke_user
  refused_before q (same, early, old) =
      ground
        (arith, lookup-insert q.user user (moment cutoff clock, until) s.users, eq_iff user q.user)

  map_after :
      (qs : List Query)
      → All (IssuedAfter user (moment cutoff clock) s) qs
      → map (refused (revoke_user user until cutoff clock s)) qs ≡ map (λ _. false) qs
  map_after [] h = refl
  map_after (q ∷ qs) h = cc (refused_after q h.0, map_after qs h.1)

  map_before :
      (qs : List Query)
      → All (IssuedBefore user (moment cutoff clock) until) qs
      → map (refused (revoke_user user until cutoff clock s)) qs ≡ map (λ _. true) qs
  map_before [] h = refl
  map_before (q ∷ qs) h = cc (refused_before q h.0, map_before qs h.1)

  -- After a sign-out of a user, every presentation of a token of that user that was issued at the
  -- cutoff or later, and is not revoked by itself, is accepted.
  pub sign_in_after_sign_out :
      (qs : List Query)
      → Ordered 0 qs
      → All (IssuedAfter user (moment cutoff clock) s) qs
      → answers qs (revoke_user user until cutoff clock s) ≡ map (λ _. false) qs
  sign_in_after_sign_out qs o h = answers-eq-refused qs _ o ∙ map_after qs h

  -- After a sign-out of a user, every presentation of a token of that user that was issued before
  -- the cutoff, or at an unknown time, is refused while the cutoff is remembered.
  pub sign_out_everywhere :
      (qs : List Query)
      → Ordered 0 qs
      → All (IssuedBefore user (moment cutoff clock) until) qs
      → answers qs (revoke_user user until cutoff clock s) ≡ map (λ _. true) qs
  sign_out_everywhere qs o h = answers-eq-refused qs _ o ∙ map_before qs h
