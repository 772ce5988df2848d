-- ===== src/Platform/Graph/Instances.antt =====
-- Two processes that share the table of server/src/envelock/platform/graph_store.py, each with a graph of
-- its own in memory.
use envelock.Prelude.{
  ℕ, String, true, not, none, some, List, [], ◌∷◌, elem, ◌≡◌, refl, sym, subst, sort_texts,
  insert_text, str_eq_refl, eq_iff,
}
use envelock.Prelude.Dict.{Dict, lookup, insert, lookup-insert}
use envelock.Platform.Graph.{
  Graph, key_of, members, add_member, judge, Report, report, reporters_of,
}
use envelock.Platform.Graph.History.{map_option, is_about}
use envelock.Platform.Graph.Store.{GraphVerdict, row_of, persist_report}
use envelock.Platform.Graph.Restart.{serve, lookup-persist_report}

abbrev pub counted : GraphVerdict → ℕ × List String
counted row = (row.confirmations, row.reporter_tenant_ids)

-- The write of a domain that the graph did not list.
first_written :
    (d reg : String) (r : Report) (g : Graph) (rows : Dict GraphVerdict)
    → reg ≡ d
    → lookup reg g.entries ≡ none
    → lookup reg g.reporters ≡ none
    → let seen_by = members (lookup reg g.reporters) in
      let new = not (elem r.tenant_id seen_by) in
      let entry = judge reg r.verdict new r.technique r.now (lookup reg g.entries) in
      let after = insert reg (add_member r.tenant_id seen_by) g.reporters in
      map_option counted (lookup d (persist_report entry (members (lookup reg after)) rows))
      ≡ some (1, r.tenant_id ∷ [])
unfolding judge row_of add_member sort_texts insert_text
first_written d reg r g rows same e m =
    rw
      (
        lookup-persist_report d _ _ rows,
        e,
        m,
        lookup-insert reg reg (r.tenant_id ∷ []) g.reporters,
        str_eq_refl reg,
        (eq_iff reg d).1 same,
      )
      refl

module _ (registrable : String → String) where
  -- When a process that has not heard of a domain reports it, the row of the domain counts one
  -- confirmation and names that process's reporter alone, whatever another process wrote there before.
  pub other_process_forgotten :
      (d : String) (r : Report) (g : Graph) (rows : Dict GraphVerdict)
      → is_about registrable d r ≡ true
      → lookup d g.entries ≡ none
      → lookup d g.reporters ≡ none
      → map_option counted (lookup d (serve registrable r (g, rows)).1) ≡ some (1, r.tenant_id ∷ [])
  unfolding is_about serve report reporters_of judge row_of add_member
  other_process_forgotten d r g rows h e m =
      let reg = key_of registrable r.domain in
      let same = (eq_iff reg d).0 h in
      first_written d reg r g rows same (subst (λ x. lookup x g.entries ≡ none) (sym same) e)
        (subst (λ x. lookup x g.reporters ≡ none) (sym same) m)
