-- ===== src/Detections/Attachments/Cache.antt =====
-- `class VerdictCache`: the shared verdicts by hash, the least recently used first.
pub mod Recall
use envelock.Prelude.{
  ℕ, ◌+◌, String, Bool, true, false, not, Option, none, some, List, [], ◌∷◌, ◌++◌, str_eq, ltb,
  length, if◌then◌else◌,
}
use envelock.Detections.Attachments.{Verdict, clean, suspicious, malicious, unknown}

-- An entry: its hash, its verdict and when it was stored.
pub record Entry : Type 0 where
  pub sha256 : String
  pub verdict : Verdict
  pub stored_at : ℕ

-- `_entries.get`
unfoldable pub entry_of : String → List Entry → Option Entry
entry_of sha [] = none
entry_of sha (e ∷ es) = if str_eq e.sha256 sha then some e else entry_of sha es

-- `del _entries[sha256]`
unfoldable pub delete : String → List Entry → List Entry
delete sha [] = []
delete sha (e ∷ es) = if str_eq e.sha256 sha then delete sha es else e ∷ delete sha es

-- `move_to_end`, of the entry that was found
abbrev pub move_to_end : Entry → List Entry → List Entry
move_to_end e es = delete e.sha256 es ++ (e ∷ [])

abbrev pub is_malicious : Verdict → Bool
is_malicious malicious = true
is_malicious _ = false

-- `get` once the entry is known
unfoldable pub recall : (ttl now : ℕ) → Option Entry → List Entry → Option Verdict × List Entry
recall ttl now none es = (none, es)
recall ttl now (some e) es =
    if is_malicious e.verdict
    then (some e.verdict, move_to_end e es)
    else if ltb (e.stored_at + ttl) now
    then (none, delete e.sha256 es)
    else (some e.verdict, move_to_end e es)

-- `get`
unfoldable pub get : (ttl now : ℕ) (sha : String) → List Entry → Option Verdict × List Entry
get ttl now sha es = recall ttl now (entry_of sha es) es

-- The eviction loop of `put`.
unfoldable pub evict : (limit : ℕ) → List Entry → List Entry
evict limit [] = []
evict limit (e ∷ es) =
    let rest = evict limit es in if ltb limit (length (e ∷ es)) then rest else e ∷ es

-- `put`
unfoldable pub put : (limit now : ℕ) (sha : String) → Verdict → List Entry → List Entry
put limit now sha verdict es =
    evict limit (move_to_end (record { sha256 = sha; verdict = verdict; stored_at = now }) es)
