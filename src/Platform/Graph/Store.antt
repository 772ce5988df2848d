-- ===== src/Platform/Graph/Store.antt =====
-- The durable table behind the shared graph: server/src/envelock/platform/graph_store.py, with the table
-- `graph_verdicts` of server/src/envelock/models.py as a dictionary by its primary key.
use envelock.Prelude.{ℕ, String, Option, none, some, List, [], ◌∷◌, length, sort_texts}
use envelock.Prelude.Dict.{Dict, lookup, insert}
use envelock.Platform.Graph.{Verdict, GraphEntry, Graph, empty, load}

-- `GraphVerdict`
pub record GraphVerdict : Type 0 where
  pub registrable_domain : String
  pub verdict : Verdict
  pub confirmations : ℕ
  pub first_reported : ℕ
  pub last_reported : ℕ
  pub techniques : List String
  pub reporter_tenant_ids : List String

-- `row is None`: the time of the first report is written once.
unfoldable pub first_of : ℕ → Option GraphVerdict → ℕ
first_of first none = first
first_of first (some row) = row.first_reported

-- The row that `persist_report` leaves.
unfoldable pub row_of : GraphEntry → List String → Option GraphVerdict → GraphVerdict
row_of entry reporters row = record {
  registrable_domain = entry.registrable_domain;
  verdict = entry.verdict;
  confirmations = entry.confirmations;
  first_reported = first_of entry.first_reported row;
  last_reported = entry.last_reported;
  techniques = sort_texts entry.techniques;
  reporter_tenant_ids = sort_texts reporters;
}

-- `persist_report`
unfoldable pub persist_report :
    GraphEntry → (reporters : List String) → Dict GraphVerdict → Dict GraphVerdict
persist_report entry reporters rows =
    let reg = entry.registrable_domain in insert reg (row_of entry reporters (lookup reg rows)) rows

-- The entry that `hydrate` makes of a row.
unfoldable pub entry_of : GraphVerdict → GraphEntry
entry_of row = record {
  registrable_domain = row.registrable_domain;
  verdict = row.verdict;
  confirmations = row.confirmations;
  first_reported = row.first_reported;
  last_reported = row.last_reported;
  techniques = row.techniques;
}

-- The loop of `hydrate`.
unfoldable pub load_rows : Dict GraphVerdict → Graph → Graph
load_rows [] g = g
load_rows ((d, row) ∷ rows) g = load_rows rows (load (entry_of row) row.reporter_tenant_ids g)

-- `hydrate`: the count it answers, and the graph
unfoldable pub hydrate : Dict GraphVerdict → ℕ × Graph
hydrate rows = (length rows, load_rows rows empty)
