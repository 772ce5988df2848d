-- ===== src/Limits/RateLimiter/Retry.antt =====
-- The answer to a refused request: how long to wait, and that waiting is enough.
use envelock.Prelude.{
  ℕ, ◌+◌, ◌-◌, ◌*◌, ◌/◌, ◌≤◌, ◌<◌, ◌≡◌, ◌≢◌, refl, sym, ap, ◌∙◌, String, true, false, none, some,
  List, [], ◌∷◌, length, length-append, All, leb, arith, Bool-cases, inl, inr,
}
use envelock.Prelude.Dict.{Dict, lookup, lookup-insert_ne}
use envelock.Limits.{Rule, second, rules, rule_for, or_default}
use envelock.Limits.RateLimiter.{span, drop_expired, refuse, admit, hit_key, check}
use envelock.Limits.RateLimiter.Window.{was_admitted, admit-full, admit-room}

-- Dropping the expired hits twice drops no more than dropping them at the later time.
length-drop_expired : (w now : ℕ) (hits : List ℕ) → length (drop_expired w now hits) ≤ length hits
unfolding drop_expired
length-drop_expired w now [] = omega arith
length-drop_expired w now (h ∷ hits) = ground (arith, length-drop_expired w now hits)

-- The oldest hit that is kept has not expired.
drop_expired-head :
    (w now : ℕ) (hits : List ℕ) {h : ℕ} {rest : List ℕ}
    → drop_expired w now hits ≡ h ∷ rest
    → now ≤ h + w
unfolding drop_expired
drop_expired-head w now [] e = cc
drop_expired-head w now (x ∷ hits) {h} {rest} e =
    ground (arith, drop_expired-head w now hits {h = h} {rest = rest})

-- The hits of one key never outnumber the limit.
pub length-admit :
    (r : Rule) (now : ℕ) (hits : List ℕ)
    → length hits ≤ r.limit
    → length (admit r now hits).1 ≤ r.limit
unfolding admit
length-admit r now hits b = ground (
  arith,
  length-drop_expired (span r) now hits,
  length-append (drop_expired (span r) now hits) (now ∷ []),
)

-- While the oldest hit is live, nothing is dropped.
drop_expired-live :
    (w now h : ℕ) (rest : List ℕ) → now ≤ h + w → drop_expired w now (h ∷ rest) ≡ h ∷ rest
unfolding drop_expired
drop_expired-live w now h rest le = ground arith

-- Once the oldest hit has expired, at least one place is free.
drop_expired-expired :
    (w now h : ℕ) (rest : List ℕ)
    → h + w < now
    → length (drop_expired w now (h ∷ rest)) ≤ length rest
unfolding drop_expired
drop_expired-expired w now h rest lt = ground (arith, length-drop_expired w now rest)

module _ (r : Rule) where
  admitted_when_short :
      (now : ℕ) (hits : List ℕ)
      → length (drop_expired (span r) now hits) < r.limit
      → was_admitted (admit r now hits).0 ≡ true
  unfolding admit
  admitted_when_short now hits short = ground arith

  refused_when_full :
      (now : ℕ) (hits : List ℕ)
      → r.limit ≤ length (drop_expired (span r) now hits)
      → was_admitted (admit r now hits).0 ≡ false
  unfolding admit refuse
  refused_when_full now hits full = ground arith

  refuse_parts :
      (now n : ℕ) (live : List ℕ)
      → refuse r now live ≡ some (false, n)
      → (h : ℕ) × (rest : List ℕ) × (live ≡ h ∷ rest) × (n ≡ (h + span r - now) / second + 1)
  unfolding refuse
  refuse_parts now n [] e = absurd (cc)
  refuse_parts now n (h ∷ rest) e = (h, rest, refl, ground arith)

  -- A refusal, taken apart.
  refused_parts :
      (now n : ℕ) (hits live : List ℕ)
      → admit r now hits ≡ (some (false, n), live)
      → (live ≡ drop_expired (span r) now hits)
        × (r.limit ≤ length live)
        × (refuse r now live ≡ some (false, n))
  refused_parts now n hits live e =
      let kept = drop_expired (span r) now hits in
      elim (Bool-cases (leb r.limit (length kept))) [
        | inl full ↦
            let e' = rw (admit-full r now hits full) at e in
            let same : kept ≡ live = ap (λ p. p.1) e' in (sym same, ground arith, ground arith)
        | inr room ↦ absurd (cc (admit-room r now hits room))
      ]

  -- The head of the hits that a refusal leaves decides, and its answer rounds the wait up.
  refused_then :
      (now n later h : ℕ) (rest : List ℕ)
      → length (h ∷ rest) ≤ r.limit
      → r.limit ≤ length (h ∷ rest)
      → now ≤ h + span r
      → n ≡ (h + span r - now) / second + 1
      → ((now + n * second ≤ later) → was_admitted (admit r later (h ∷ rest)).0 ≡ true)
        × ((later + second ≤ now + n * second) → was_admitted (admit r later (h ∷ rest)).0 ≡ false)
  refused_then now n later h rest b full here e = (
    λ wait.
        admitted_when_short later (h ∷ rest)
          (omega (arith, drop_expired-expired (span r) later h rest (omega arith))),
    λ early.
        refused_when_full later (h ∷ rest)
          (rw (drop_expired-live (span r) later h rest (omega arith)) full),
  )

module _ (r : Rule) (now n later : ℕ) (hits live : List ℕ) (bounded : length hits ≤ r.limit)
    (refused : admit r now hits ≡ (some (false, n), live)) where
  at_the_head :
      ((now + n * second ≤ later) → was_admitted (admit r later live).0 ≡ true)
      × ((later + second ≤ now + n * second) → was_admitted (admit r later live).0 ≡ false)
  at_the_head =
      let (kept, full, answer) = refused_parts r now n hits live refused in
      let (h, rest, shape, wait) = refuse_parts r now n live answer in
      let small : length live ≤ r.limit =
        rw kept (omega (arith, length-drop_expired (span r) now hits)) in
      rw shape (
        refused_then r now n later h rest (rw shape at small) (rw shape at full)
          (drop_expired-head (span r) now hits (sym kept ∙ shape)) wait)

  -- A client that was refused with `n` seconds to wait, on a key whose hits are within the limit,
  -- is let through `n` seconds later or after, if the key has seen no other request.
  pub retry_after_sufficient : now + n * second ≤ later → was_admitted (admit r later live).0 ≡ true
  retry_after_sufficient = at_the_head.0

  -- A client that was refused with `n` seconds to wait, on a key whose hits are within the limit,
  -- is refused again at any time up to `n - 1` seconds later.
  pub retry_after_tight :
      later + second ≤ now + n * second → was_admitted (admit r later live).0 ≡ false
  retry_after_tight = at_the_head.1

admit-ne-none : (r : Rule) (now : ℕ) (hits : List ℕ) → 0 < r.limit → (admit r now hits).0 ≢ none
unfolding admit refuse
admit-ne-none r now hits h = ground arith

limit_of_lookup :
    (bucket : String) (d : Dict Rule)
    → All (λ e. 0 < e.1.limit) d
    → 0 < (or_default (lookup bucket d)).limit
unfolding lookup
limit_of_lookup bucket [] h = omega arith
limit_of_lookup bucket (e ∷ d) h = ground (arith, limit_of_lookup bucket d h.1)

pub rule_for-positive : (bucket : String) → 0 < (rule_for bucket).limit
unfolding rule_for
rule_for-positive bucket = limit_of_lookup bucket rules (omega arith)

-- `check` answers every request, on a bucket with a rule of its own or without, and never reads
-- the head of an empty deque.
pub check_total :
    (bucket identity : String) (now : ℕ) (store : Dict (List ℕ))
    → (check bucket identity now store).0 ≢ none
unfolding check
check_total bucket identity now store =
    admit-ne-none (rule_for bucket) now _ (rule_for-positive bucket)

-- Requests on one key leave the hits of every other key as they were.
pub check_isolated :
    (bucket identity other : String) (now : ℕ) (store : Dict (List ℕ))
    → other ≢ hit_key bucket identity
    → lookup other (check bucket identity now store).1 ≡ lookup other store
unfolding check
check_isolated bucket identity other now store ne =
    lookup-insert_ne other (hit_key bucket identity) _ store ne
