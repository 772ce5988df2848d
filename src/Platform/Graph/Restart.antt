-- ===== src/Platform/Graph/Restart.antt =====
-- What a restart recalls of the shared graph: `report` of server/src/envelock/platform/graph.py, with
-- `persist_report` and `hydrate` of server/src/envelock/platform/graph_store.py.
use envelock.Prelude.{
  ℕ, String, Bool, not, Option, none, some, List, [], ◌∷◌, elem, str_eq, if◌then◌else◌,
  elem-sort_texts, ◌≡◌, refl, sym, ap, ◌∙◌, arith, eq_iff, Bool-cases, inl, inr, subst, str_eq_refl,
}
use envelock.Prelude.Dict.{Dict, lookup, insert, lookup-insert, IsDict, insert-IsDict}
use envelock.Platform.Graph.{
  Verdict, GraphEntry, Graph, empty, key_of, members, add_member, judge, Report, report, load,
  reporters_of,
}
use envelock.Platform.Graph.History.{
  map_option, replay, entry_of_history, replay-tenants_of, unreported,
}
use envelock.Platform.Graph.Store.{
  GraphVerdict, first_of, row_of, persist_report, entry_of, load_rows, hydrate,
}

-- Each row stands under its own domain.
abbrev IsKeyed : Dict GraphVerdict → Type 0
IsKeyed [] = Unit
IsKeyed ((d, row) ∷ rows) = (row.registrable_domain ≡ d) × IsKeyed rows

insert-IsKeyed :
    (d : String) (row : GraphVerdict) (rows : Dict GraphVerdict)
    → row.registrable_domain ≡ d
    → IsKeyed rows
    → IsKeyed (insert d row rows)
unfolding insert
insert-IsKeyed d row [] h k = (h, tt)
insert-IsKeyed d row ((j, old) ∷ rows) h (k, ks) = elim (Bool-cases (str_eq j d)) [
  | inl e ↦ rw e (h, ks)
  | inr e ↦ rw e (k, insert-IsKeyed d row rows h ks)
]

abbrev entry_or : Option GraphEntry → Option GraphVerdict → Option GraphEntry
entry_or e none = e
entry_or e (some row) = some (entry_of row)

abbrev reporters_or : Option (List String) → Option GraphVerdict → Option (List String)
reporters_or rs none = rs
reporters_or rs (some row) = some row.reporter_tenant_ids

load_rows-lookup :
    (d : String) (rows : Dict GraphVerdict) (g : Graph)
    → IsDict rows
    → IsKeyed rows
    → (lookup d (load_rows rows g).entries ≡ entry_or (lookup d g.entries) (lookup d rows))
      × (lookup d (load_rows rows g).reporters
          ≡ reporters_or (lookup d g.reporters) (lookup d rows))
unfolding load_rows load lookup entry_of
load_rows-lookup d [] g u k = (refl, refl)
load_rows-lookup d ((j, row) ∷ rows) g (u, us) (k, ks) =
    let rest = load_rows-lookup d rows (load (entry_of row) row.reporter_tenant_ids g) us ks in
    ground (
      arith,
      rest,
      u,
      k,
      eq_iff j d,
      lookup-insert d row.registrable_domain (entry_of row) g.entries,
      lookup-insert d row.registrable_domain row.reporter_tenant_ids g.reporters,
    )

-- The row of an entry that was written when it was first reported.
abbrev fresh_row : Option GraphEntry → List String → Option GraphVerdict
fresh_row none rs = none
fresh_row (some e) rs = some (row_of e rs none)

-- The table holds what the graph holds.
abbrev InStep : Graph → Dict GraphVerdict → Type 0
InStep g rows =
    (d : String) → lookup d rows ≡ fresh_row (lookup d g.entries) (members (lookup d g.reporters))

pub lookup-persist_report :
    (d : String) (e : GraphEntry) (rs : List String) (rows : Dict GraphVerdict)
    → lookup d (persist_report e rs rows) ≡ (
        if str_eq e.registrable_domain d
        then some (row_of e rs (lookup e.registrable_domain rows))
        else lookup d rows)
unfolding persist_report
lookup-persist_report d e rs rows = lookup-insert d e.registrable_domain _ rows

-- What an entry says, less its sets.
abbrev pub facts : GraphEntry → Verdict × ℕ × ℕ × ℕ
facts e = (e.verdict, e.confirmations, e.first_reported, e.last_reported)

abbrev pub techniques_of : Option GraphEntry → List String
techniques_of none = []
techniques_of (some e) = e.techniques

-- What the write of an entry leaves, for the domain `d`, of the graph `g` and the rows.
abbrev Written : (d reg : String) → GraphEntry → List String → Graph → Dict GraphVerdict → Type 0
Written d reg e rs g rows =
    lookup d (persist_report e (members (lookup reg (insert reg rs g.reporters))) rows)
    ≡ fresh_row (lookup d (insert reg e g.entries)) (members (lookup d (insert reg rs g.reporters)))

written :
    (d : String) (e : GraphEntry) (rs : List String) (g : Graph) (rows : Dict GraphVerdict)
    → let reg = e.registrable_domain in
      row_of e rs (lookup reg rows) ≡ row_of e rs none
      → lookup d rows ≡ fresh_row (lookup d g.entries) (members (lookup d g.reporters))
      → Written d reg e rs g rows
written d e rs g rows same h =
    let reg = e.registrable_domain in
    rw
      (
        lookup-persist_report d e (members (lookup reg (insert reg rs g.reporters))) rows,
        lookup-insert d reg e g.entries,
        lookup-insert d reg rs g.reporters,
        lookup-insert reg reg rs g.reporters,
        str_eq_refl reg,
      )
      (elim (Bool-cases (str_eq reg d)) [ inl t ↦ rw t (ap some same) | inr t ↦ rw t h ])

module _ (registrable : String → String) where
  -- A report, and the write of its entry: the calls of `report_lookalike` and of `resolve`.
  unfoldable pub serve : Report → Graph × Dict GraphVerdict → Graph × Dict GraphVerdict
  serve r (g, rows) =
      let answer = report registrable r g in
      (answer.1, persist_report answer.0 (reporters_of registrable r.domain answer.1) rows)

  -- The graph and the table after a history of reports, the latest first.
  unfoldable pub serve_all : List Report → Graph × Dict GraphVerdict
  serve_all [] = (empty, [])
  serve_all (r ∷ older) = serve r (serve_all older)

  pub judge-domain :
      (reg : String) (v : Verdict) (new : Bool) (t : Option String) (now : ℕ)
      (o : Option GraphEntry)
      → (judge reg v new t now o).registrable_domain ≡ reg
  unfolding judge
  judge-domain reg v new t now none = refl
  judge-domain reg v new t now (some e) = refl

  rewritten :
      (reg : String) (v : Verdict) (new : Bool) (t : Option String) (now : ℕ)
      (o : Option GraphEntry)
      → (old rs : List String)
      → row_of (judge reg v new t now o) rs (fresh_row o old)
        ≡ row_of (judge reg v new t now o) rs none
  unfolding judge row_of first_of
  rewritten reg v new t now none old rs = refl
  rewritten reg v new t now (some e) old rs = refl

  serve-InStep :
      (r : Report) (g : Graph) (rows : Dict GraphVerdict)
      → InStep g rows
      → let s = serve r (g, rows) in InStep s.0 s.1
  unfolding serve report reporters_of
  serve-InStep r g rows h d =
      let reg = key_of registrable r.domain in
      let seen_by = members (lookup reg g.reporters) in
      let rs = add_member r.tenant_id seen_by in
      let new = not (elem r.tenant_id seen_by) in
      let known = lookup reg g.entries in
      let e = judge reg r.verdict new r.technique r.now known in
      let at = judge-domain reg r.verdict new r.technique r.now known in
      let same =
        subst (λ o. row_of e rs o ≡ row_of e rs none) (sym (h reg))
          (rewritten reg r.verdict new r.technique r.now known seen_by rs) in
      subst (λ x. row_of e rs (lookup x rows) ≡ row_of e rs none → Written d x e rs g rows) at
        (λ k. written d e rs g rows k (h d)) same

  serve_all-InStep : (hs : List Report) → let s = serve_all hs in InStep s.0 s.1
  unfolding serve_all lookup
  serve_all-InStep [] d = refl
  serve_all-InStep (r ∷ older) d =
      let s = serve_all older in serve-InStep r s.0 s.1 (serve_all-InStep older) d

  serve_all-IsTable : (hs : List Report) → let s = serve_all hs in IsDict s.1 × IsKeyed s.1
  unfolding serve_all serve persist_report row_of
  serve_all-IsTable [] = (tt, tt)
  serve_all-IsTable (r ∷ older) =
      let s = serve_all older in
      let (u, k) = serve_all-IsTable older in
      (insert-IsDict _ _ s.1 u, insert-IsKeyed _ _ s.1 refl k)

  serve_all-replay : (hs : List Report) → (serve_all hs).0 ≡ replay registrable hs
  unfolding serve_all serve replay
  serve_all-replay [] = refl
  serve_all-replay (r ∷ older) = ap (λ g. (report registrable r g).1) (serve_all-replay older)

  -- Nobody reported a domain without an entry.
  unlisted :
      (d : String) (hs : List Report)
      → lookup d (serve_all hs).0.entries ≡ none
      → members (lookup d (serve_all hs).0.reporters) ≡ []
  unlisted d hs h =
      let same = serve_all-replay hs in
      let counted = entry_of_history registrable d hs in
      let gone = subst (λ g. lookup d g.entries ≡ none) same h in
      subst (λ g. members (lookup d g.reporters) ≡ []) (sym same)
        (ground
          (arith, gone, counted, replay-tenants_of registrable d hs, unreported registrable d hs))

  recalled :
      (d x : String) (e : Option GraphEntry) (rs : Option (List String)) (g : Graph)
      → (e ≡ none → members rs ≡ [])
      → lookup d g.entries ≡ entry_or none (fresh_row e (members rs))
      → lookup d g.reporters ≡ reporters_or none (fresh_row e (members rs))
      → (map_option facts (lookup d g.entries) ≡ map_option facts e)
        × (elem x (techniques_of (lookup d g.entries)) ≡ elem x (techniques_of e))
        × (elem x (members (lookup d g.reporters)) ≡ elem x (members rs))
  unfolding entry_of row_of first_of
  recalled d x none rs g lone he hr = ground (arith, lone refl, he, hr)
  recalled d x (some e) rs g lone he hr =
      rw (he, hr) (refl, elem-sort_texts x e.techniques, elem-sort_texts x (members rs))

  -- After any history of reports, each written to the table, a restart recalls for every domain the verdict,
  -- the count of confirmations, the times, and the same sets of techniques and of reporting tenants.
  pub restart_recalls :
      (d x : String) (hs : List Report)
      → let s = serve_all hs in
        let g = (hydrate s.1).1 in
        (map_option facts (lookup d g.entries) ≡ map_option facts (lookup d s.0.entries))
        × (elem x (techniques_of (lookup d g.entries))
            ≡ elem x (techniques_of (lookup d s.0.entries)))
        × (elem x (members (lookup d g.reporters)) ≡ elem x (members (lookup d s.0.reporters)))
  unfolding hydrate lookup
  restart_recalls d x hs =
      let s = serve_all hs in
      let (u, k) = serve_all-IsTable hs in
      let (he, hr) = load_rows-lookup d s.1 empty u k in
      let step = serve_all-InStep hs d in
      recalled d x (lookup d s.0.entries) (lookup d s.0.reporters) (load_rows s.1 empty)
        (unlisted d hs) (he ∙ ap (entry_or none) step) (hr ∙ ap (reporters_or none) step)
