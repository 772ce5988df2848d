-- ===== src/Limits/RateLimiter.antt =====
-- `class RateLimiter`: the in-process sliding window, one deque of hit times to a key.
pub mod Window
pub mod Retry
use Prim.Native.String
use envelock.Prelude.{
  ℕ, ◌+◌, ◌-◌, ◌*◌, ◌/◌, String, Bool, true, false, Option, none, some, List, [], ◌∷◌, ◌++◌, length,
  ltb, leb, if◌then◌else◌,
}
use envelock.Prelude.Dict.{Dict, lookup, insert}
use envelock.Limits.{Rule, second, rule_for}

-- The window of a rule, in ticks.
abbrev pub span : Rule → ℕ
span r = r.window * second

-- `while hits and hits[0] < cutoff: hits.popleft()`, with `cutoff = current - window`.
unfoldable pub drop_expired : ℕ → ℕ → List ℕ → List ℕ
drop_expired w current [] = []
drop_expired w current (h ∷ hits) =
    let rest = drop_expired w current hits in if ltb (h + w) current then rest else h ∷ hits

-- `(False, int(hits[0] + rule.window - current) + 1)`; `none` is the IndexError on an empty deque.
unfoldable pub refuse : Rule → ℕ → List ℕ → Option (Bool × ℕ)
refuse r current [] = none
refuse r current (h ∷ hits) = some (false, (h + span r - current) / second + 1)

-- The body of `check` under the lock, on the hits of one key: the result, and the hits left.
unfoldable pub admit : Rule → ℕ → List ℕ → Option (Bool × ℕ) × List ℕ
admit r current hits =
    let live = drop_expired (span r) current hits in
    if leb r.limit (length live)
    then (refuse r current live, live)
    else (some (true, 0), live ++ current ∷ [])

-- `f"{bucket}:{identity}"`
unfoldable pub hit_key : String → String → String
hit_key bucket identity = String.◌++◌ bucket (String.◌++◌ ":" identity)

abbrev pub hits_of : Option (List ℕ) → List ℕ
hits_of none = []
hits_of (some hits) = hits

-- `RateLimiter.check`; the `defaultdict` makes the entry on the first access.
unfoldable pub check : String → String → ℕ → Dict (List ℕ) → Option (Bool × ℕ) × Dict (List ℕ)
check bucket identity current store =
    let key = hit_key bucket identity in
    let (answer, hits) = admit (rule_for bucket) current (hits_of (lookup key store)) in
    (answer, insert key hits store)
