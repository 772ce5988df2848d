-- ===== src/Limits/Revocations.antt =====
-- `class TokenRevocations`: single tokens revoked by `jti`, and users revoked from a cutoff.
pub mod View
pub mod Single
use envelock.Prelude.{ℕ, String, Bool, true, false, Option, none, some, leb, ltb, if◌then◌else◌}
use envelock.Prelude.Dict.{Dict, lookup, insert, purge, is_some}

-- `_revoked_jti`, and `_revoked_users` with its pairs of cutoff and time to forget.
pub record Revoked : Type 0 where
  pub jtis : Dict ℕ
  pub users : Dict (ℕ × ℕ)

-- `revoke_jti`
unfoldable pub revoke_jti : String → ℕ → Revoked → Revoked
revoke_jti jti expires_at s = record s { jtis = insert jti expires_at s.jtis }

abbrev pub moment : Option ℕ → ℕ → ℕ
moment none clock = clock
moment (some cutoff) clock = cutoff

-- `revoke_user`; `clock` is `time.time()`
unfoldable pub revoke_user : String → ℕ → Option ℕ → ℕ → Revoked → Revoked
revoke_user user_id until cutoff clock s = record s {
  users = insert user_id (moment cutoff clock, until) s.users;
}

-- What is forgotten at `current`.
unfoldable pub forget : ℕ → Revoked → Revoked
forget current s = record {
  jtis = purge (λ expires. leb expires current) s.jtis;
  users = purge (λ entry. leb entry.1 current) s.users;
}

-- `issued_at is None or issued_at < cutoff`, for the user's entry
abbrev pub before_cutoff : Option ℕ → Option (ℕ × ℕ) → Bool
before_cutoff issued_at none = false
before_cutoff none (some entry) = true
before_cutoff (some at) (some (cutoff, forget_after)) = ltb at cutoff

-- `is_revoked`, which first forgets what has expired
unfoldable pub is_revoked : String → String → ℕ → Option ℕ → Revoked → Bool × Revoked
unfolding forget
is_revoked jti user_id current issued_at s =
    let live = forget current s in
    (
      if is_some (lookup jti live.jtis)
          then true
          else before_cutoff issued_at (lookup user_id live.users),
      live,
    )

-- `consume_jti`
unfoldable pub consume_jti : String → ℕ → Revoked → Bool × Revoked
consume_jti jti expires_at s =
    if is_some (lookup jti s.jtis)
    then (false, s)
    else (true, record s { jtis = insert jti expires_at s.jtis })
