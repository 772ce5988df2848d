-- ===== src/Limits/RateLimiter/Window.antt =====
-- The sliding window never lets more than `limit` requests through, whatever the traffic.
use envelock.Prelude.{
  ℕ, ◌+◌, ◌≤◌, ◌<◌, ◌≡◌, Bool, true, false, ◌&&◌, Option, none, some, List, [], ◌∷◌, ◌++◌, refl,
  length, count_if, count_if-append, All, arith, leb, ltb, if◌then◌else◌, inl, inr, Bool-cases,
}
use envelock.Limits.{Rule}
use envelock.Limits.RateLimiter.{span, drop_expired, refuse, admit}

abbrev pub was_admitted : Option (Bool × ℕ) → Bool
was_admitted none = false
was_admitted (some (ok, retry)) = ok

-- The times, in order, at which a run of requests on one key is let through.
unfoldable pub admitted_from : Rule → List ℕ → List ℕ → List ℕ
admitted_from r hits [] = []
admitted_from r hits (t ∷ ts) =
    let rest = admitted_from r (admit r t hits).1 ts in
    if was_admitted (admit r t hits).0 then t ∷ rest else rest

-- A clock that does not run backwards.
abbrev pub Monotone : ℕ → List ℕ → Type 0
Monotone low [] = Unit
Monotone low (t ∷ ts) = (low ≤ t) × Monotone t ts

abbrev pub in_window : ℕ → ℕ → ℕ → Bool
in_window start w t = leb start t && leb t (start + w)

abbrev Old : ℕ → ℕ → List ℕ → Type 0
Old w now = All (λ a. a + w < now)

-- What `drop_expired` takes away.
dropped : ℕ → ℕ → List ℕ → List ℕ
dropped w now [] = []
dropped w now (h ∷ hits) = let rest = dropped w now hits in if ltb (h + w) now then h ∷ rest else []

dropped-Old : (w now : ℕ) (hits : List ℕ) → Old w now (dropped w now hits)
unfolding dropped
dropped-Old w now [] = tt
dropped-Old w now (h ∷ hits) = ground (arith, dropped-Old w now hits)

count-dropped :
    (p : ℕ → Bool) (w now : ℕ) (hits : List ℕ)
    → count_if p hits ≡ count_if p (dropped w now hits) + count_if p (drop_expired w now hits)
unfolding dropped drop_expired
count-dropped p w now [] = omega arith
count-dropped p w now (h ∷ hits) = ground (arith, count-dropped p w now hits)

count-le-length : (p : ℕ → Bool) (xs : List ℕ) → count_if p xs ≤ length xs
count-le-length p [] = omega arith
count-le-length p (x ∷ xs) = ground (arith, count-le-length p xs)

Old-append : (w now : ℕ) (xs ys : List ℕ) → Old w now xs → Old w now ys → Old w now (xs ++ ys)
Old-append w now [] ys h k = k
Old-append w now (x ∷ xs) ys h k = (h.0, Old-append w now xs ys h.1 k)

Old-later : (w now later : ℕ) (xs : List ℕ) → now ≤ later → Old w now xs → Old w later xs
Old-later w now later [] h k = tt
Old-later w now later (x ∷ xs) h k = (omega arith, Old-later w now later xs h k.1)

-- A window that holds `now` holds nothing that has expired.
count-Old :
    (start w now : ℕ) (xs : List ℕ)
    → in_window start w now ≡ true
    → Old w now xs
    → count_if (in_window start w) xs ≡ 0
count-Old start w now [] h k = refl
count-Old start w now (x ∷ xs) h k = ground (arith, count-Old start w now xs h k.1)

pub admit-full :
    (r : Rule) (now : ℕ) (hits : List ℕ)
    → leb r.limit (length (drop_expired (span r) now hits)) ≡ true
    → admit r now hits
      ≡ (refuse r now (drop_expired (span r) now hits), drop_expired (span r) now hits)
unfolding admit
admit-full r now hits full = rw full

pub admit-room :
    (r : Rule) (now : ℕ) (hits : List ℕ)
    → leb r.limit (length (drop_expired (span r) now hits)) ≡ false
    → admit r now hits ≡ (some (true, 0), drop_expired (span r) now hits ++ now ∷ [])
unfolding admit
admit-room r now hits room = rw room

refuse-refuses : (r : Rule) (now : ℕ) (hits : List ℕ) → was_admitted (refuse r now hits) ≡ false
unfolding refuse
refuse-refuses r now [] = refl
refuse-refuses r now (h ∷ hits) = refl

module _ (r : Rule) (start : ℕ) where
  -- How many of the hits fall in the window of the rule that begins at `start`.
  abbrev inside : List ℕ → ℕ
  inside = count_if (in_window start (span r))

  -- A hit that is let through keeps the window within the limit.
  inside-admit :
      (now : ℕ) (old live : List ℕ)
      → Old (span r) now old
      → inside old + inside live ≤ r.limit
      → length live < r.limit
      → inside old + inside (live ++ now ∷ []) ≤ r.limit
  inside-admit now old live h b room =
      rw (count_if-append (in_window start (span r)) live (now ∷ []))
        (elim (Bool-cases (in_window start (span r) now)) [
          | inl here ↦ ground (
            arith,
            count-Old start (span r) now old here h,
            count-le-length (in_window start (span r)) live,
          )
          | inr away ↦ ground arith
        ])

  admitted_from-inside :
      (now : ℕ) (old hits ts : List ℕ)
      → Old (span r) now old
      → inside old + inside hits ≤ r.limit
      → Monotone now ts
      → inside old + inside hits + inside (admitted_from r hits ts) ≤ r.limit
  unfolding admitted_from
  admitted_from-inside now old hits [] h b m = omega arith
  admitted_from-inside now old hits (t ∷ ts) h b m =
      let live = drop_expired (span r) t hits in
      let gone = old ++ dropped (span r) t hits in
      let gone_old : Old (span r) t gone =
        Old-append (span r) t old _ (Old-later (span r) now t old m.0 h)
          (dropped-Old (span r) t hits) in
      let split = count-dropped (in_window start (span r)) (span r) t hits in
      let joined = count_if-append (in_window start (span r)) old (dropped (span r) t hits) in
      elim (Bool-cases (leb r.limit (length live))) [
        | inl full ↦
            rw (admit-full r t hits full, refuse-refuses r t live)
              (omega (
                arith,
                admitted_from-inside t gone live ts gone_old (omega (arith, split, joined)) m.1,
                split,
                joined,
              ))
        | inr room ↦ rw (admit-room r t hits room) (
            ground (
              arith,
              admitted_from-inside t gone (live ++ t ∷ []) ts gone_old
                  (inside-admit t gone live gone_old (omega (arith, split, joined)) (ground arith))
                  m.1,
              count_if-append (in_window start (span r)) live (t ∷ []),
              split,
              joined,
            ))
      ]

-- Over any run of requests on one key, by a clock that does not run backwards, at most `limit`
-- of them are let through in any window of the rule's length, both of its ends included.
pub admitted_window_bound :
    (r : Rule) (ts : List ℕ) (start : ℕ)
    → Monotone 0 ts
    → count_if (in_window start (span r)) (admitted_from r [] ts) ≤ r.limit
admitted_window_bound r ts start m =
    omega (arith, admitted_from-inside r start 0 [] [] ts tt (omega arith) m)
