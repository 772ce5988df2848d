-- ===== src/Detections/Registry.antt =====
-- The registry of detections: server/src/envelock/detections/base.py. A detection is a pure function
-- of its context; what it reads of the context is a parameter.
pub mod Coverage
use envelock.Prelude.{
  ℕ, String, Bool, true, false, not, ◌&&◌, Option, none, some, List, [], ◌∷◌, ◌++◌, str_eq, elem,
  sort_texts, keep, map, if◌then◌else◌,
}
use envelock.Prelude.Dict.{Dict, insert}
use envelock.Core.Capabilities.{Capability, covers}
use envelock.Billing.Features.{detection_included}
use envelock.Risk.{FindingResult}
use envelock.Domains.{is_platform_domain}

-- `Detection`, on contexts of type `C`
pub record Detection (C : Type 0) : Type 0 where
  pub service : String
  pub requires : List Capability
  pub evaluate : C → List FindingResult

abbrev pub Registry : Type 0 → Type 0
Registry C = Dict (Detection C)

-- `AuthResult` of core/enums.py
pub data AuthResult : Type 0 where
  pass fail softfail neutral no_result temperror permerror : AuthResult

-- What `is_platform_notice` reads of a `MailEvent`.
pub record Mail : Type 0 where
  pub provider_dmarc : AuthResult
  pub sender_domain : String

-- The fields of `DetectionContext` that the framework reads: the rest is in `view`.
pub record DetectionContext (C : Type 0) : Type 0 where
  pub capabilities : List Capability
  pub plan : Option String
  pub mail : Option Mail
  pub view : C

abbrev pub is_pass : AuthResult → Bool
is_pass pass = true
is_pass _ = false

-- `is_platform_notice`; `registrable` is the lookup in the public suffix list
unfoldable pub is_platform_notice : (registrable : String → String) → Option Mail → Bool
is_platform_notice registrable none = false
is_platform_notice registrable (some mail) =
    is_pass mail.provider_dmarc && is_platform_domain registrable mail.sender_domain

-- `plan is None or detection_included(service, plan)`
unfoldable pub plan_includes : Option String → String → Bool
plan_includes none service = true
plan_includes (some plan) service = detection_included service plan

-- `_COUNTERPARTY_SERVICES`
abbrev pub counterparty_services : List String
counterparty_services = "A7" ∷ "B9" ∷ []

-- The services that `run_all` skips.
abbrev pub skipped : Bool → List String
skipped true = counterparty_services
skipped false = []

module _ {C : Type 0} where
  -- `register`
  unfoldable pub register : Detection C → Registry C → Registry C
  register detection registry = insert detection.service detection registry

  abbrev pub detections : Registry C → List (Detection C)
  detections registry = map (λ e. e.1) registry

  -- `active_for`
  unfoldable pub active_for : Registry C → List Capability → Option String → List (Detection C)
  active_for registry capabilities plan =
      keep (λ d. covers capabilities d.requires && plan_includes plan d.service)
        (detections registry)

  -- `inactive_for`
  unfoldable pub inactive_for : Registry C → List Capability → List String
  inactive_for registry capabilities = sort_texts (
      map (λ d. d.service) (keep (λ d. not (covers capabilities d.requires)) (detections registry)))

  -- `plan_locked_detections`
  unfoldable pub plan_locked_detections : Registry C → List Capability → String → List String
  plan_locked_detections registry capabilities plan = sort_texts (
      map (λ d. d.service)
        (keep (λ d. covers capabilities d.requires && not (detection_included d.service plan))
          (detections registry)))

  -- The loop of `run_all` over the active detections.
  unfoldable pub run_loop : List String → C → List (Detection C) → List FindingResult
  run_loop skip view [] = []
  run_loop skip view (d ∷ ds) =
      if not (elem d.service skip)
      then d.evaluate view ++ run_loop skip view ds
      else run_loop skip view ds

  -- `run_all`
  unfoldable pub run_all :
      (registrable : String → String) → Registry C → DetectionContext C → List FindingResult
  run_all registrable registry ctx =
      run_loop (skipped (is_platform_notice registrable ctx.mail)) ctx.view
        (active_for registry ctx.capabilities ctx.plan)
