-- ===== src/Billing/Features.antt =====
-- Which detections and automations a plan includes: server/src/envelock/billing/features.py.
use Prim.Native.Char.{code}
use envelock.Prelude.{
  ℕ, ◌-◌, String, Bool, false, ◌&&◌, Option, none, some, List, [], ◌∷◌, str_eq, leb, ◌==◌, any,
  if◌then◌else◌,
}
use envelock.Billing.Entitlement.{Tenant, effective_plan}

-- `_PLAN_FAMILIES.get(plan)`, a family by the code of its letter
unfoldable pub plan_families : String → Option (List ℕ)
plan_families plan =
    if str_eq plan "guard"
    then some (b'D' ∷ [])
    else if str_eq plan "solo"
    then some (b'A' ∷ b'B' ∷ b'D' ∷ [])
    else if str_eq plan "essential"
    then some (b'A' ∷ b'B' ∷ b'D' ∷ [])
    else if str_eq plan "complete"
    then some (b'A' ∷ b'B' ∷ b'C' ∷ b'D' ∷ [])
    else none

-- `upper` on the letters that a family can be; no other character's upper case is one of A to D.
unfoldable pub upper : ℕ → ℕ
upper c = if leb b'a' c && leb c b'z' then c - 32 else c

-- `service[:1].upper()`; `none` is the empty text
unfoldable pub family_of : String → Option ℕ
family_of String.[] = none
family_of (String.◌∷◌ c s) = some (upper (code c))

abbrev in_families : Option ℕ → Option (List ℕ) → Bool
in_families family none = false
in_families none (some families) = false
in_families (some f) (some families) = any (λ g. f == g) families

-- `detection_included`
unfoldable pub detection_included : String → String → Bool
unfolding upper family_of plan_families
detection_included service plan = in_families (family_of service) (plan_families plan)

-- `_plan_of`
unfoldable pub plan_of : Option Tenant → ℕ → String
plan_of none now = "guard"
plan_of (some tenant) now = effective_plan tenant now

-- `is_complete`, and with it `ai_on_links` and `auto_remediation`
unfoldable pub is_complete : Option Tenant → ℕ → Bool
unfolding plan_of
is_complete tenant now = str_eq (plan_of tenant now) "complete"
