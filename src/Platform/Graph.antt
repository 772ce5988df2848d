-- ===== src/Platform/Graph.antt =====
-- The graph of counterparties that the tenants share: class CounterpartyGraph of
-- server/src/envelock/platform/graph.py. A set is a list without repetitions, a tenant is the text of its id,
-- a time is a number; `registrable_domain`, which asks the public suffix list, is a parameter.
pub mod History
pub mod Store
pub mod Restart
pub mod Instances
pub mod Accounts
pub mod Sharing
pub mod Profile
mod Tests
use envelock.Prelude.{
  ℕ, ◌+◌, String, Bool, true, false, not, ◌&&◌, ◌||◌, Option, none, some, List, [], ◌∷◌, ◌++◌, map,
  elem, str_eq, if◌then◌else◌, leb, length, count_if, keep,
}
use envelock.Prelude.Dict.{Dict, lookup, insert}

pub data Verdict : Type 0 where
  fraudulent suspicious legitimate : Verdict

pub record GraphEntry : Type 0 where
  pub registrable_domain : String
  pub verdict : Verdict
  pub confirmations : ℕ
  pub first_reported : ℕ
  pub last_reported : ℕ
  pub techniques : List String

-- `CounterpartyGraph`: its `_entries` and `_reporters`
pub record Graph : Type 0 where
  pub entries : Dict GraphEntry
  pub reporters : Dict (List String)

-- The graph of `__init__`, and what `clear` leaves.
abbrev pub empty : Graph
empty = record { entries = []; reporters = [] }

-- `verdict is Verdict.FRAUDULENT`
abbrev pub is_fraudulent : Verdict → Bool
is_fraudulent fraudulent = true
is_fraudulent _ = false

-- `GraphEntry.actionable`
unfoldable pub actionable : GraphEntry → Bool
actionable e = is_fraudulent e.verdict && leb 2 e.confirmations

-- `registrable_domain(domain) or domain`
unfoldable pub key_of : (String → String) → String → String
key_of registrable domain = let reg = registrable domain in if str_eq reg "" then domain else reg

-- `self._reporters.get(reg, set())`
abbrev pub members : Option (List String) → List String
members none = []
members (some xs) = xs

-- `xs.add(x)`
unfoldable pub add_member : String → List String → List String
add_member x xs = if elem x xs then xs else xs ++ (x ∷ [])

-- `{technique} if technique else set()`, added to a set
unfoldable pub with_technique : Option String → List String → List String
with_technique none xs = xs
with_technique (some t) xs = if str_eq t "" then xs else add_member t xs

-- `verdict if verdict is Verdict.FRAUDULENT else existing.verdict`
unfoldable pub overrule : Verdict → Verdict → Verdict
overrule verdict existing = if is_fraudulent verdict then verdict else existing

-- The entry that `report` builds.
unfoldable pub judge :
    (reg : String)
    → Verdict
    → (is_new_reporter : Bool) → (technique : Option String) → (now : ℕ) → Option GraphEntry
    → GraphEntry
judge reg verdict is_new technique now none = record {
  registrable_domain = reg;
  verdict = verdict;
  confirmations = 1;
  first_reported = now;
  last_reported = now;
  techniques = with_technique technique [];
}
judge reg verdict is_new technique now (some existing) = record {
  registrable_domain = reg;
  verdict = overrule verdict existing.verdict;
  confirmations = existing.confirmations + (if is_new then 1 else 0);
  first_reported = existing.first_reported;
  last_reported = now;
  techniques = with_technique technique existing.techniques;
}

-- The arguments of a call of `report`.
pub record Report : Type 0 where
  pub domain : String
  pub verdict : Verdict
  pub tenant_id : String
  pub technique : Option String
  pub now : ℕ

module _ (registrable : String → String) where
  -- `report`: the entry it answers, and the graph afterwards
  unfoldable pub report : Report → Graph → GraphEntry × Graph
  report r g =
      let reg = key_of registrable r.domain in
      let seen_by = members (lookup reg g.reporters) in
      let is_new = not (elem r.tenant_id seen_by) in
      let entry = judge reg r.verdict is_new r.technique r.now (lookup reg g.entries) in
      (
        entry,
        record {
          entries = insert reg entry g.entries;
          reporters = insert reg (add_member r.tenant_id seen_by) g.reporters;
        },
      )

  -- `lookup`
  unfoldable pub lookup_entry : String → Graph → Option GraphEntry
  lookup_entry domain g = lookup (key_of registrable domain) g.entries

  -- `reporters_of`
  unfoldable pub reporters_of : String → Graph → List String
  reporters_of domain g = members (lookup (key_of registrable domain) g.reporters)

-- `load`
unfoldable pub load : GraphEntry → List String → Graph → Graph
load entry reporters g = record {
  entries = insert entry.registrable_domain entry g.entries;
  reporters = insert entry.registrable_domain reporters g.reporters;
}

-- `known_bad`
unfoldable pub known_bad : Graph → List String
known_bad g = map (λ p. p.0) (keep (λ p. actionable p.1) g.entries)

pub record Stats : Type 0 where
  pub domains_judged : ℕ
  pub domains_confirmed_fraudulent : ℕ
  pub actionable_domains : ℕ
  pub confirmations : ℕ

unfoldable pub sum_confirmations : Dict GraphEntry → ℕ
sum_confirmations [] = 0
sum_confirmations ((d, e) ∷ rest) = e.confirmations + sum_confirmations rest

-- `public_stats`
unfoldable pub public_stats : Graph → Stats
public_stats g =
    let judged = keep (λ p. is_fraudulent p.1.verdict) g.entries in
    record {
      domains_judged = length g.entries;
      domains_confirmed_fraudulent = length judged;
      actionable_domains = count_if (λ p. actionable p.1) judged;
      confirmations = sum_confirmations judged;
    }
