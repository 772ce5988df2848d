-- ===== src/Limits/Replay/Once.antt =====
-- A value is accepted once while it is remembered, and again when it is not.
use envelock.Prelude.{
  ℕ, suc, ◌+◌, ◌≤◌, ◌<◌, ◌≡◌, refl, String, true, Option, some, List, [], ◌∷◌, leb, arith,
  if◌then◌else◌, All, str_eq, eq_iff, not, Bool-cases, inl, inr,
}
use envelock.Prelude.Dict.{Dict, lookup, purge, is_some, lookup-purge, lookup-insert, unless}
use envelock.Limits.Replay.{lifetime, check_and_record}

-- A call of the guard: the value, the clock, and the caller's lifetime.
pub record Use : Type 0 where
  pub key : String
  pub at : ℕ
  pub ttl : Option ℕ

-- How often `key` is accepted over a run of calls, on this value and on others.
unfoldable pub accepts : ℕ → String → List Use → Dict ℕ → ℕ
accepts default key [] seen = 0
accepts default key (u ∷ us) seen =
    let (ok, seen') = check_and_record default u.key u.at u.ttl seen in
    let rest = accepts default key us seen' in
    if str_eq u.key key then (if ok then suc rest else rest) else rest

module _ (default : ℕ) where
  -- The answer is read off the remembered expiry alone.
  accepted_iff :
      (key : String) (now : ℕ) (ttl : Option ℕ) (seen : Dict ℕ)
      → (check_and_record default key now ttl seen).0
        ≡ not (is_some (unless (λ e. leb e now) (lookup key seen)))
  unfolding check_and_record
  accepted_iff key now ttl seen = ground (arith, lookup-purge key (λ e. leb e now) seen)

  -- While a value is remembered, every call keeps its expiry.
  kept :
      (key other : String) (now e : ℕ) (ttl : Option ℕ) (seen : Dict ℕ)
      → lookup key seen ≡ some e
      → now < e
      → lookup key (check_and_record default other now ttl seen).1 ≡ some e
  unfolding check_and_record
  kept key other now e ttl seen h lt = ground (
    arith,
    lookup-purge key (λ x. leb x now) seen,
    lookup-insert key other (now + lifetime default ttl) (purge (λ x. leb x now) seen),
    eq_iff other key,
  )

  accepts-remembered :
      (key : String) (e : ℕ) (us : List Use) (seen : Dict ℕ)
      → lookup key seen ≡ some e
      → All (λ u. u.at < e) us
      → accepts default key us seen ≡ 0
  unfolding accepts
  accepts-remembered key e [] seen h lt = refl
  accepts-remembered key e (u ∷ us) seen h lt =
      let later =
        accepts-remembered key e us (check_and_record default u.key u.at u.ttl seen).1
          (kept key u.key u.at e u.ttl seen h lt.0) lt.1 in
      ground (arith, later, accepted_iff u.key u.at u.ttl seen, eq_iff u.key key)

  stored :
      (key : String) (now : ℕ) (ttl : Option ℕ) (seen : Dict ℕ)
      → (check_and_record default key now ttl seen).0 ≡ true
      → lookup key (check_and_record default key now ttl seen).1 ≡ some (now + lifetime default ttl)
  unfolding check_and_record
  stored key now ttl seen ok = ground (
    arith,
    lookup-insert key key (now + lifetime default ttl) (purge (λ x. leb x now) seen),
    eq_iff key key,
  )

  -- A call in the interval from `t`, as long as `span`. If it is a call on `key`, it remembers for at least
  -- `span`; a call on another value may remember for any time.
  abbrev pub Within : String → ℕ → ℕ → Use → Type 0
  Within key t span u =
      (t ≤ u.at) × (u.at < t + span) × (str_eq u.key key ≡ true → span ≤ lifetime default u.ttl)

  All-later :
      (key : String) (t span e : ℕ) (us : List Use)
      → t + span ≤ e
      → All (Within key t span) us
      → All (λ u. u.at < e) us
  All-later key t span e [] h w = tt
  All-later key t span e (u ∷ us) h w = (omega arith, All-later key t span e us h w.1)

  -- Whatever was remembered before, in any interval no longer than the lifetimes that its own calls ask for a
  -- value is accepted at most once, with any calls on other values in between, however shortly those are
  -- remembered.
  pub accepts_at_most_once :
      (key : String) (t span : ℕ) (us : List Use) (seen : Dict ℕ)
      → All (Within key t span) us
      → accepts default key us seen ≤ 1
  unfolding accepts
  accepts_at_most_once key t span [] seen w = omega arith
  accepts_at_most_once key t span (u ∷ us) seen w =
      let e = u.at + lifetime default u.ttl in
      let later =
        accepts_at_most_once key t span us (check_and_record default u.key u.at u.ttl seen).1 w.1 in
      elim (Bool-cases (str_eq u.key key)) [
        | inl k ↦
            let long = w.0.2 k in
            ground (
              arith,
              k,
              eq_iff u.key key,
              stored u.key u.at u.ttl seen,
              accepts-remembered key e us (check_and_record default u.key u.at u.ttl seen).1,
              All-later key t span e us (omega (arith, long, w.0.0)) w.1,
              later,
            )
        | inr k ↦ ground (arith, k, later)
      ]

  -- After a value is accepted, a later call on it is accepted exactly from its expiry on.
  pub accepted_again :
      (key : String) (now later : ℕ) (ttl ttl' : Option ℕ) (seen : Dict ℕ)
      → (check_and_record default key now ttl seen).0 ≡ true
      → (check_and_record default key later ttl' (check_and_record default key now ttl seen).1).0
        ≡ leb (now + lifetime default ttl) later
  accepted_again key now later ttl ttl' seen ok = ground (
    arith,
    accepted_iff key later ttl' (check_and_record default key now ttl seen).1,
    stored key now ttl seen ok,
  )
