-- ===== src/Platform/Graph/History.antt =====
-- The graph as a function of the reports made: `report` of class CounterpartyGraph,
-- server/src/envelock/platform/graph.py.
use envelock.Prelude.{
  ℕ, ◌≤◌, String, Bool, true, false, not, ◌&&◌, ◌||◌, Option, none, some, List, [], ◌∷◌, any, elem,
  leb, ◌+◌, str_eq, if◌then◌else◌, length, length-append, ◌≡◌, ◌≢◌, refl, ap, arith, Bool-cases,
  inl, inr, eq_iff,
}
use envelock.Prelude.Dict.{lookup, lookup-insert}
use envelock.Platform.Graph.{
  Verdict, fraudulent, legitimate, GraphEntry, Graph, empty, is_fraudulent, actionable, key_of,
  members, add_member, overrule, judge, Report, report,
}

module _ (registrable : String → String) where
  -- The graph after a history of reports, the latest first.
  unfoldable pub replay : List Report → Graph
  replay [] = empty
  replay (r ∷ older) = (report registrable r (replay older)).1

  -- The report is about the domain with this key.
  unfoldable pub is_about : String → Report → Bool
  is_about d r = str_eq (key_of registrable r.domain) d

  -- The tenants that reported a domain, each once.
  unfoldable pub tenants_of : String → List Report → List String
  tenants_of d [] = []
  tenants_of d (r ∷ older) =
      let rest = tenants_of d older in if is_about d r then add_member r.tenant_id rest else rest

  -- Some report says that the domain is fraudulent.
  unfoldable pub accused : String → List Report → Bool
  accused d hs = any (λ r. is_about d r && is_fraudulent r.verdict) hs

-- The option of a look-up, mapped.
abbrev pub map_option {ℓ} : {A B : Type ℓ} → (A → B) → Option A → Option B
map_option f none = none
map_option f (some a) = some (f a)

abbrev pub summary : Option GraphEntry → Option (ℕ × Bool)
summary none = none
summary (some e) = some (e.confirmations, is_fraudulent e.verdict)

abbrev acts : ℕ × Bool → Bool
acts (n, bad) = bad && leb 2 n

actionable_summary : (o : Option GraphEntry) → map_option actionable o ≡ map_option acts (summary o)
unfolding actionable
actionable_summary none = refl
actionable_summary (some e) = refl

length-add_member :
    (x : String) (xs : List String)
    → length (add_member x xs) ≡ length xs + (if elem x xs then 0 else 1)
unfolding add_member
length-add_member x xs = ground (arith, length-append xs (x ∷ []))

overrule_lem : (v w : Verdict) → is_fraudulent (overrule v w) ≡ (is_fraudulent v || is_fraudulent w)
unfolding overrule
overrule_lem v w = elim (Bool-cases (is_fraudulent v)) [ inl h ↦ rw h h | inr h ↦ rw h refl ]

module _ (registrable : String → String) where
  pub unreported :
      (d : String) (hs : List Report)
      → any (is_about registrable d) hs ≡ false
      → (tenants_of registrable d hs ≡ []) × (accused registrable d hs ≡ false)
  unfolding tenants_of accused
  unreported d [] h = (refl, refl)
  unreported d (r ∷ older) h = ground (arith, unreported d older)

  pub replay-tenants_of :
      (d : String) (hs : List Report)
      → members (lookup d (replay registrable hs).reporters) ≡ tenants_of registrable d hs
  unfolding replay tenants_of report is_about lookup
  replay-tenants_of d [] = refl
  replay-tenants_of d (r ∷ older) =
      let reg = key_of registrable r.domain in
      let g = replay registrable older in
      rw
        (lookup-insert d reg (add_member r.tenant_id (members (lookup reg g.reporters)))
          g.reporters)
        (ground (arith, eq_iff reg d, replay-tenants_of d older))

  judge_summary :
      (d : String) (r : Report) (older : List Report) (known : Option GraphEntry) (new : Bool)
      → is_about registrable d r ≡ true
      → summary known ≡ (
          if any (is_about registrable d) older
          then some (length (tenants_of registrable d older), accused registrable d older)
          else none)
      → new ≡ not (elem r.tenant_id (tenants_of registrable d older))
      → summary (some (judge d r.verdict new r.technique r.now known))
        ≡ some (length (tenants_of registrable d (r ∷ older)), accused registrable d (r ∷ older))
  unfolding judge tenants_of accused
  judge_summary d r older none new h s n =
      ground (arith, h, s, unreported d older, length-add_member r.tenant_id [])
  judge_summary d r older (some e) new h s n = ground (
    arith,
    h,
    s,
    n,
    overrule_lem r.verdict e.verdict,
    length-add_member r.tenant_id (tenants_of registrable d older),
  )

  passed_over :
      (d : String) (r : Report) (older : List Report)
      → is_about registrable d r ≡ false
      → (tenants_of registrable d (r ∷ older) ≡ tenants_of registrable d older)
        × (accused registrable d (r ∷ older) ≡ accused registrable d older)
  unfolding tenants_of accused
  passed_over d r older h = ground (arith, h)

  -- What a report leaves of the entry of a domain.
  lookup-report :
      (d : String) (r : Report) (g : Graph)
      → lookup d (report registrable r g).1.entries ≡ (
          if is_about registrable d r
          then some (
              judge d r.verdict
                (not (elem r.tenant_id (members (lookup d g.reporters))))
                r.technique
                r.now
                (lookup d g.entries))
          else lookup d g.entries)
  unfolding report is_about
  lookup-report d r g =
      let reg = key_of registrable r.domain in
      rw (lookup-insert d reg _ g.entries) (ground (arith, eq_iff reg d))

  -- After any history of reports, an entry stands for a domain exactly if it was reported; its count of
  -- confirmations is the number of the tenants that reported it, with whatever verdict, each counted once; and
  -- its verdict is fraudulent exactly if some report said so.
  pub entry_of_history :
      (d : String) (hs : List Report)
      → summary (lookup d (replay registrable hs).entries) ≡ (
          if any (is_about registrable d) hs
          then some (length (tenants_of registrable d hs), accused registrable d hs)
          else none)
  unfolding replay lookup
  entry_of_history d [] = refl
  entry_of_history d (r ∷ older) =
      let g = replay registrable older in
      let new = not (elem r.tenant_id (members (lookup d g.reporters))) in
      rw (lookup-report d r g) (elim (Bool-cases (is_about registrable d r)) [
        | inl h ↦
            let known = lookup d g.entries in
            let past = ap (λ x. not (elem r.tenant_id x)) (replay-tenants_of d older) in
            rw h (judge_summary d r older known new h (entry_of_history d older) past)
        | inr h ↦ ground (arith, h, entry_of_history d older, passed_over d r older h)
      ])

  -- A domain that the graph acts on was reported by at least two tenants, and by one of them as fraudulent.
  pub actionable_needs_two :
      (d : String) (hs : List Report) (e : GraphEntry)
      → lookup d (replay registrable hs).entries ≡ some e
      → actionable e ≡ true
      → (2 ≤ length (tenants_of registrable d hs)) × (accused registrable d hs ≡ true)
  unfolding actionable
  actionable_needs_two d hs e h a = ground (arith, ap summary h, entry_of_history d hs)

  -- When one tenant's report of fraud is answered by another tenant's report that the domain is legitimate,
  -- the graph acts on the domain, which it did not before the answer.
  pub dissent_confirms :
      (d : String) (first second : Report)
      → is_about registrable d first ≡ true
      → is_about registrable d second ≡ true
      → first.verdict ≡ fraudulent
      → second.verdict ≡ legitimate
      → first.tenant_id ≢ second.tenant_id
      → (map_option actionable (lookup d (replay registrable (first ∷ [])).entries) ≡ some false)
        × (map_option actionable (lookup d (replay registrable (second ∷ first ∷ [])).entries)
            ≡ some true)
  unfolding tenants_of accused add_member
  dissent_confirms d first second h1 h2 f l n = ground (
    arith,
    h1,
    h2,
    f,
    l,
    actionable_summary (lookup d (replay registrable (first ∷ [])).entries),
    actionable_summary (lookup d (replay registrable (second ∷ first ∷ [])).entries),
    entry_of_history d (first ∷ []),
    entry_of_history d (second ∷ first ∷ []),
    eq_iff first.tenant_id second.tenant_id,
    eq_iff second.tenant_id first.tenant_id,
  )
