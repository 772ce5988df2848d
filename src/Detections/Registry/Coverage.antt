-- ===== src/Detections/Registry/Coverage.antt =====
-- No detection is dropped in silence: each is active, or named in one of the two lists.
use envelock.Prelude.{
  ◌≡◌, refl, String, Bool, true, false, not, ◌&&◌, ◌||◌, none, some, List, [], ◌∷◌, ◌++◌, keep, map,
  arith, if◌then◌else◌, elem, Bool-cases, All, inl, inr, times, times-sort_texts, ℕ, ◌+◌, ◌∙◌,
  str_eq, eq_iff, subst,
}
use envelock.Prelude.Dict.{lookup, insert, is_some, IsDict, insert-IsDict, lookup-insert}
use envelock.Core.Capabilities.{Capability, covers}
use envelock.Billing.Features.{detection_included}
use envelock.Risk.{FindingResult}
use envelock.Detections.Registry.{
  Detection, Registry, detections, plan_includes, active_for, inactive_for, plan_locked_detections,
  register, run_loop, run_all, DetectionContext, is_platform_notice, counterparty_services,
}

-- A finding that a platform notice does not silence.
abbrev pub judged : FindingResult → Bool
judged f = not (elem f.service counterparty_services)

keep-judged-append :
    (xs ys : List FindingResult) → keep judged (xs ++ ys) ≡ keep judged xs ++ keep judged ys
keep-judged-append [] ys = refl
keep-judged-append (x ∷ xs) ys = ground (arith, keep-judged-append xs ys)

keep-judged-All :
    (b : Bool) (s : String)
    → elem s counterparty_services ≡ not b
    → (fs : List FindingResult) → All (λ f. f.service ≡ s) fs
    → keep judged fs ≡ (if b then fs else [])
keep-judged-All true s h [] hs = refl
keep-judged-All false s h [] hs = refl
keep-judged-All true s h (f ∷ fs) (e, es) = ground (arith, h, e, keep-judged-All true s h fs es)
keep-judged-All false s h (f ∷ fs) (e, es) = ground (arith, h, e, keep-judged-All false s h fs es)

abbrev one_if : Bool → ℕ
one_if b = if b then 1 else 0

or_none_found : (b : Bool) → one_if (b || false) ≡ one_if b
or_none_found b = ground arith

module _ {C : Type 0} where
  abbrev pub services : List (Detection C) → List String
  services ds = map (λ d. d.service) ds

  -- Three tests of which exactly one holds of each detection share the services out.
  share_out :
      (p q r : Detection C → Bool) (s : String) (ds : List (Detection C))
      → ((d : Detection C) → one_if (p d) + one_if (q d) + one_if (r d) ≡ 1)
      → times s (services (keep p ds))
          + times s (services (keep q ds))
          + times s (services (keep r ds))
        ≡ times s (services ds)
  share_out p q r s [] h = omega arith
  share_out p q r s (d ∷ ds) h = ground (arith, h d, share_out p q r s ds h)

  -- The registry after the detections have been registered one by one, as the modules are imported.
  unfoldable pub register_all : List (Detection C) → Registry C → Registry C
  register_all [] registry = registry
  register_all (d ∷ ds) registry = register_all ds (register d registry)

  -- Each detection stands under its own service.
  abbrev IsKeyed : Registry C → Type 0
  IsKeyed registry = All (λ e. e.0 ≡ e.1.service) registry

  insert-IsKeyed :
      (k : String) (d : Detection C) (registry : Registry C)
      → k ≡ d.service
      → IsKeyed registry
      → IsKeyed (insert k d registry)
  unfolding insert
  insert-IsKeyed k d [] e h = (e, tt)
  insert-IsKeyed k d ((j, w) ∷ rest) e (h, hs) = elim (Bool-cases (str_eq j k)) [
    | inl b ↦ rw b (e, hs)
    | inr b ↦ rw b (h, insert-IsKeyed k d rest e hs)
  ]

  times-services :
      (s : String) (registry : Registry C)
      → IsKeyed registry
      → IsDict registry
      → times s (services (detections registry)) ≡ one_if (is_some (lookup s registry))
  unfolding lookup
  times-services s [] h k = refl
  times-services s ((j, w) ∷ rest) (h, hs) (k, ks) =
      let later = times-services s rest hs ks in
      elim (Bool-cases (str_eq j s)) [
        | inl e ↦
            let absent : lookup s rest ≡ none =
              subst (λ x. lookup x rest ≡ none) ((eq_iff j s).0 e) k in
            ground (arith, e, absent, later, eq_iff j s, eq_iff s w.service, h)
        | inr e ↦ ground (arith, e, later, eq_iff j s, eq_iff s w.service, h)
      ]

  times-register_all :
      (s : String) (ds : List (Detection C)) (registry : Registry C)
      → IsKeyed registry
      → IsDict registry
      → times s (services (detections (register_all ds registry)))
        ≡ one_if (elem s (services ds) || is_some (lookup s registry))
  unfolding register_all register
  times-register_all s [] registry h k = times-services s registry h k
  times-register_all s (d ∷ ds) registry h k =
      times-register_all s ds (insert d.service d registry)
        (insert-IsKeyed d.service d registry refl h) (insert-IsDict d.service d registry k)
      ∙ ground (arith, lookup-insert s d.service d registry, eq_iff s d.service, eq_iff d.service s)

  -- Each service that was registered, however often, is named exactly once for a connection and a plan: as
  -- active, as one that the connection cannot support, or as one that the plan does not include; a service that
  -- was not registered is named nowhere.
  pub coverage_complete :
      (ds : List (Detection C)) (caps : List Capability) (plan s : String)
      → let registry = register_all ds [] in
        times s (services (active_for registry caps (some plan)))
          + times s (inactive_for registry caps)
          + times s (plan_locked_detections registry caps plan)
        ≡ (if elem s (services ds) then 1 else 0)
  unfolding active_for inactive_for plan_locked_detections plan_includes lookup
  coverage_complete ds caps plan s =
      let registry = register_all ds [] in
      rw
        (
          times-sort_texts s (
              map (λ d. d.service)
                (keep (λ d. not (covers caps d.requires)) (detections registry))),
          times-sort_texts s (
              map (λ d. d.service)
                (keep (λ d. covers caps d.requires && not (detection_included d.service plan))
                  (detections registry))),
        )
        (share_out (λ d. covers caps d.requires && detection_included d.service plan)
            (λ d. not (covers caps d.requires))
            (λ d. covers caps d.requires && not (detection_included d.service plan)) s
            (detections registry) (λ d. ground arith)
          ∙ times-register_all s ds [] tt tt
          ∙ or_none_found (elem s (services ds)))

  -- Every finding of a detection carries the detection's own service.
  abbrev pub Labelled : List (Detection C) → Type 0
  Labelled ds = All (λ d. (c : C) → All (λ f. f.service ≡ d.service) (d.evaluate c)) ds

  keep-run_loop :
      (view : C) (ds : List (Detection C))
      → Labelled ds
      → run_loop counterparty_services view ds ≡ keep judged (run_loop [] view ds)
  unfolding run_loop
  keep-run_loop view [] hs = refl
  keep-run_loop view (d ∷ ds) (e, es) =
      let rest = keep-run_loop view ds es in
      let split = keep-judged-append (d.evaluate view) (run_loop [] view ds) in
      let own =
        keep-judged-All (not (elem d.service counterparty_services)) d.service (ground arith)
          (d.evaluate view) (e view) in
      grind (arith, rest, split, own)

Labelled-keep :
    {C : Type 0} (p : Detection C → Bool) (ds : List (Detection C))
    → Labelled ds
    → Labelled (keep p ds)
Labelled-keep p [] hs = hs
Labelled-keep {C = C} p (d ∷ ds) (e, es) = elim (Bool-cases (p d)) [
  | inl h ↦ rw h (e, Labelled-keep p ds es)
  | inr h ↦ rw h (Labelled-keep p ds es)
]

-- On a platform notice, `run_all` answers exactly the findings it would answer without the notice,
-- less those of the services A7 and B9, when each finding carries the service of its detection.
pub platform_notice_silences :
    {C : Type 0} (registrable : String → String) (registry : Registry C) (ctx : DetectionContext C)
    → Labelled (detections registry)
    → is_platform_notice registrable ctx.mail ≡ true
    → run_all registrable registry ctx
      ≡ keep judged (run_loop [] ctx.view (active_for registry ctx.capabilities ctx.plan))
unfolding run_all active_for
platform_notice_silences registrable registry ctx hs h = rw h (
    keep-run_loop ctx.view
      (keep (λ d. covers ctx.capabilities d.requires && plan_includes ctx.plan d.service)
        (detections registry))
      (Labelled-keep (λ d. covers ctx.capabilities d.requires && plan_includes ctx.plan d.service)
        (detections registry) hs))
