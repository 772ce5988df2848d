-- ===== src/Limits/Revocations/Single.antt =====
-- A refresh token is used once: of all the attempts to consume one `jti`, one wins.
use envelock.Prelude.{
  ℕ, suc, ◌≤◌, ◌<◌, ◌≡◌, refl, String, Bool, true, false, Option, some, List, [], ◌∷◌, leb, arith,
  if◌then◌else◌, All, str_eq, eq_iff, inl, inr, Bool-cases,
}
use envelock.Prelude.Dict.{lookup, lookup-purge, lookup-insert}
use envelock.Limits.Revocations.{Revoked, revoke_jti, revoke_user, forget, is_revoked, consume_jti}
use envelock.Limits.Revocations.View.{Query}

-- What the server does with the store, in the order in which the lock serves the callers.
pub data Op : Type 0 where
  present : Query → Op
  revoke consume : String → ℕ → Op
  sign_out : (user : String) (until : ℕ) (cutoff : Option ℕ) (clock : ℕ) → Op

-- The store that one operation leaves.
pub after : Op → Revoked → Revoked
after (present q) s = (is_revoked q.jti q.user q.at q.issued s).1
after (revoke jti e) s = revoke_jti jti e s
after (consume jti e) s = (consume_jti jti e s).1
after (sign_out user until cutoff clock) s = revoke_user user until cutoff clock s

-- Whether an operation consumes `jti` and is told that it is the first.
pub won : String → Op → Revoked → Bool
won jti (consume j e) s = if str_eq j jti then (consume_jti j e s).0 else false
won jti op s = false

unfoldable pub wins : String → List Op → Revoked → ℕ
wins jti [] s = 0
wins jti (op ∷ ops) s =
    let rest = wins jti ops (after op s) in if won jti op s then suc rest else rest

module _ (jti : String) (horizon : ℕ) where
  -- Before `horizon` no clock is read later, and `jti` is revoked until then at least.
  abbrev pub Before : Op → Type 0
  Before (present q) = q.at < horizon
  Before (revoke j e) = j ≡ jti → horizon ≤ e
  Before (consume j e) = j ≡ jti → horizon ≤ e
  Before (sign_out user until cutoff clock) = Unit

  Held : Revoked → Type 0
  Held s = (e : ℕ) × (lookup jti s.jtis ≡ some e) × (horizon ≤ e)

  after-Held : (op : Op) (s : Revoked) → Before op → Held s → Held (after op s)
  unfolding after Held is_revoked forget revoke_jti revoke_user consume_jti
  after-Held (present q) s b (e, h, le) =
      (e, ground (arith, lookup-purge jti (λ x. leb x q.at) s.jtis), le)
  after-Held (revoke j x) s b (e, h, le) = elim (Bool-cases (str_eq j jti)) [
    | inl same ↦ (x, ground (arith, lookup-insert jti j x s.jtis), b ((eq_iff j jti).0 same))
    | inr other ↦ (e, ground (arith, lookup-insert jti j x s.jtis), le)
  ]
  after-Held (consume j x) s b (e, h, le) =
      (e, ground (arith, eq_iff j jti, lookup-insert jti j x s.jtis), le)
  after-Held (sign_out user until cutoff clock) s b held = held

  -- Once revoked, the token is never won.
  won-Held : (op : Op) (s : Revoked) → Held s → won jti op s ≡ false
  unfolding won Held consume_jti
  won-Held (consume j x) s (e, h, le) = ground (arith, eq_iff j jti)
  won-Held (present q) s held = refl
  won-Held (revoke j x) s held = refl
  won-Held (sign_out user until cutoff clock) s held = refl

  wins-Held : (ops : List Op) (s : Revoked) → All Before ops → Held s → wins jti ops s ≡ 0
  unfolding wins
  wins-Held [] s b held = refl
  wins-Held (op ∷ ops) s b held =
      rw (won-Held op s held) (wins-Held ops (after op s) b.1 (after-Held op s b.0 held))

  -- The winner leaves the token revoked.
  won-then-Held : (op : Op) (s : Revoked) → Before op → won jti op s ≡ true → Held (after op s)
  unfolding won after Held consume_jti
  won-then-Held (consume j x) s b w = (
    x,
    ground (arith, eq_iff j jti, lookup-insert jti j x s.jtis),
    b (ground (arith, eq_iff j jti)),
  )
  won-then-Held (present q) s b w = absurd (cc)
  won-then-Held (revoke j x) s b w = absurd (cc)
  won-then-Held (sign_out user until cutoff clock) s b w = absurd (cc)

  -- Of all the attempts to consume one `jti`, in any order with sign-outs, presentations and
  -- other revocations, at most one wins, as long as no clock passes the expiry that goes with it.
  pub wins_at_most_once : (ops : List Op) (s : Revoked) → All Before ops → wins jti ops s ≤ 1
  unfolding wins
  wins_at_most_once [] s b = omega arith
  wins_at_most_once (op ∷ ops) s b = elim (Bool-cases (won jti op s)) [
    | inl first ↦
        rw first (omega (arith, wins-Held ops (after op s) b.1 (won-then-Held op s b.0 first)))
    | inr other ↦ rw other (wins_at_most_once ops (after op s) b.1)
  ]
