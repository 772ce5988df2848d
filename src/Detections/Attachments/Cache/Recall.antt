-- ===== src/Detections/Attachments/Cache/Recall.antt =====
-- What the cache remembers: its size, what a look-up after a store answers, and how long.
use envelock.Prelude.{
  ℕ, ◌≡◌, refl, ◌≤◌, ◌<◌, ◌+◌, String, Bool, false, not, ◌||◌, none, some, List, [], ◌∷◌, ◌++◌,
  str_eq, str_eq_refl, ltb, length, if◌then◌else◌, arith, Bool-cases, inl, inr, subst, sym,
}
use envelock.Detections.Attachments.{Verdict}
use envelock.Detections.Attachments.Cache.{
  Entry, entry_of, delete, move_to_end, is_malicious, recall, get, evict, put,
}

length-evict : (limit : ℕ) (es : List Entry) → length (evict limit es) ≤ limit
unfolding evict
length-evict limit [] = omega arith
length-evict limit (e ∷ es) = ground (arith, length-evict limit es)

-- The cache never holds more than its limit.
pub length-put :
    (limit now : ℕ) (sha : String) (v : Verdict) (es : List Entry)
    → length (put limit now sha v es) ≤ limit
unfolding put
length-put limit now sha v es =
    length-evict limit (move_to_end (record { sha256 = sha; verdict = v; stored_at = now }) es)

entry-delete : (sha : String) (es : List Entry) → entry_of sha (delete sha es) ≡ none
unfolding entry_of delete
entry-delete sha [] = refl
entry-delete sha (e ∷ es) = ground (arith, entry-delete sha es)

entry-append :
    (last : Entry) (es : List Entry)
    → entry_of last.sha256 es ≡ none
    → entry_of last.sha256 (es ++ (last ∷ [])) ≡ some last
unfolding entry_of
entry-append last [] n = rw (str_eq_refl last.sha256) refl
entry-append last (e ∷ es) n = elim (Bool-cases (str_eq e.sha256 last.sha256)) [
  | inl h ↦ ground (arith, h, n)
  | inr h ↦ rw h (entry-append last es (ground (arith, h, n)))
]

later :
    (last e : Entry) (es : List Entry)
    → entry_of last.sha256 (e ∷ es) ≡ none
    → entry_of last.sha256 es ≡ none
unfolding entry_of
later last e es n = ground (arith, n)

-- The last entry stays through the eviction, and is found when no other has its hash.
entry-evict :
    (limit : ℕ) (last : Entry) (es : List Entry)
    → 0 < limit
    → entry_of last.sha256 es ≡ none
    → entry_of last.sha256 (evict limit (es ++ (last ∷ []))) ≡ some last
unfolding evict
entry-evict limit last [] h n =
    let kept : ltb limit 1 ≡ false = ground (arith, h) in rw kept (entry-append last [] n)
entry-evict limit last (e ∷ es) h n =
    elim (Bool-cases (ltb limit (length (e ∷ es ++ (last ∷ []))))) [
      | inl k ↦ rw k (entry-evict limit last es h (later last e es n))
      | inr k ↦ rw k (entry-append last (e ∷ es) n)
    ]

abbrev remembered : (ttl now later : ℕ) → Verdict → Bool
remembered ttl now later v = is_malicious v || not (ltb (now + ttl) later)

recall_lem :
    (ttl later : ℕ) (e : Entry) (es : List Entry)
    → (recall ttl later (some e) es).0
      ≡ (if remembered ttl e.stored_at later e.verdict then some e.verdict else none)
unfolding recall
recall_lem ttl later e es = elim (Bool-cases (is_malicious e.verdict)) [
  | inl h ↦ ground (arith, h)
  | inr h ↦ ground (arith, h)
]

-- After a verdict is stored in a cache with room for one at least, a look-up of its hash answers it: a
-- malicious one at any time, another one until its lifetime has passed, and nothing from then on.
pub get-put :
    (limit ttl now later : ℕ) (sha : String) (v : Verdict) (es : List Entry)
    → 0 < limit
    → (get ttl later sha (put limit now sha v es)).0
      ≡ (if is_malicious v || not (ltb (now + ttl) later) then some v else none)
unfolding get put
get-put limit ttl now later sha v es h =
    let stored : Entry = record { sha256 = sha; verdict = v; stored_at = now } in
    let found = entry-evict limit stored (delete sha es) h (entry-delete sha es) in
    subst
      (λ x.
        (recall ttl later x (put limit now sha v es)).0
        ≡ (if remembered ttl now later v then some v else none))
      (sym found) (recall_lem ttl later stored (put limit now sha v es))
