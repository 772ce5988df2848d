-- ===== src/Platform/Graph/Sharing.antt =====
-- What a report of fraud accounts leaves for every tenant: `report` and `lookup` of
-- server/src/envelock/platform/fraud_accounts.py.
use envelock.Prelude.{
  ℕ, ◌≤◌, String, Bool, true, false, not, ◌||◌, Option, none, some, List, [], ◌∷◌, ◌++◌, elem,
  str_eq, if◌then◌else◌, length, keep, All, ◌≡◌, ◌≢◌, refl, sym, ap, subst, ◌∙◌, arith, eq_iff,
  Bool-cases, inl, inr, str_eq_refl,
}
use envelock.Prelude.Dict.{
  Dict, lookup, insert, lookup-insert, lookup-insert_self, is_some, IsDict, insert-IsDict,
}
use envelock.Platform.Graph.Accounts.{
  Hashing, FraudAccount, Identifier, text_of, is_blank, corroborate, account_hash, hash_of, report,
  Known, known_of, collect, hashed, lookup_accounts,
}

-- The tenant is a reporter of the account.
unfoldable pub holds : String → Option FraudAccount → Bool
holds t none = false
holds t (some row) = elem t row.reporter_tenant_ids

elem-append : (x : String) (xs ys : List String) → elem x (xs ++ ys) ≡ (elem x xs || elem x ys)
elem-append x [] ys = refl
elem-append x (y ∷ xs) ys = ground (arith, elem-append x xs ys)

-- A report adds its tenant to the reporters, and removes none.
corroborate-holds :
    (t u : String) (now : ℕ) (scheme : String) (o : Option FraudAccount)
    → holds t (some (corroborate now u scheme o).0) ≡ (str_eq t u || holds t o)
unfolding holds corroborate
corroborate-holds t u now scheme none = ground arith
corroborate-holds t u now scheme (some row) =
    ground (arith, elem-append t row.reporter_tenant_ids (u ∷ []), eq_iff t u)

-- An account is left as it was exactly if the tenant is among its reporters.
corroborate-changed :
    (now : ℕ) (u scheme : String) (o : Option FraudAccount)
    → (corroborate now u scheme o).1 ≡ not (holds u o)
unfolding holds corroborate
corroborate-changed now u scheme none = refl
corroborate-changed now u scheme (some row) = ground arith

module _ (h : Hashing) where
  holds-report :
      (t k : String) (now : ℕ) (u : String) (items : List Identifier) (rows : Dict FraudAccount)
      → holds t (lookup k rows) ≡ true
      → holds t (lookup k (report h now u items rows).1) ≡ true
  unfolding report
  holds-report t k now u [] rows old = old
  holds-report t k now u (item ∷ items) rows old =
      let key = hash_of h item in
      let scheme = text_of item.scheme in
      let row = (corroborate now u scheme (lookup key rows)).0 in
      ground (
        arith,
        old,
        eq_iff key k,
        holds-report t k now u items rows,
        holds-report t k now u items (insert key row rows),
        lookup-insert k key row rows,
        corroborate-holds t u now scheme (lookup key rows),
      )

  -- The item names no account, or the tenant is among the reporters of its account.
  abbrev IsReported : String → Dict FraudAccount → Identifier → Type 0
  IsReported t rows item = (is_blank item || holds t (lookup (hash_of h item) rows)) ≡ true

  -- The table that the report of one more item is made to.
  after_one : (now : ℕ) (u : String) (item : Identifier) → Dict FraudAccount → Dict FraudAccount
  after_one now u item rows =
      let key = hash_of h item in
      let (row, changed) = corroborate now u (text_of item.scheme) (lookup key rows) in
      if is_blank item then rows else if changed then insert key row rows else rows

  report-table :
      (now : ℕ) (u : String) (item : Identifier) (items : List Identifier)
      (rows : Dict FraudAccount)
      → (report h now u (item ∷ items) rows).1
        ≡ (report h now u items (after_one now u item rows)).1
  unfolding report after_one
  report-table now u item items rows = ground arith

  after_one-IsReported :
      (now : ℕ) (u : String) (item : Identifier) (rows : Dict FraudAccount)
      → IsReported u (after_one now u item rows) item
  unfolding after_one
  after_one-IsReported now u item rows =
      let key = hash_of h item in
      let scheme = text_of item.scheme in
      let row = (corroborate now u scheme (lookup key rows)).0 in
      ground (
        arith,
        lookup-insert_self key row rows,
        corroborate-holds u u now scheme (lookup key rows),
        corroborate-changed now u scheme (lookup key rows),
        str_eq_refl u,
      )

  IsReported-kept :
      (now : ℕ) (u : String) (item : Identifier) (items : List Identifier)
      → (rows : Dict FraudAccount) → IsReported u rows item
      → IsReported u (report h now u items rows).1 item
  IsReported-kept now u item items rows a =
      ground (arith, a, holds-report u (hash_of h item) now u items rows)

  report-IsReported :
      (now : ℕ) (u : String) (items : List Identifier) (rows : Dict FraudAccount)
      → All (IsReported u (report h now u items rows).1) items
  report-IsReported now u [] rows = tt
  report-IsReported now u (item ∷ items) rows =
      let next = after_one now u item rows in
      subst (λ x. All (IsReported u x) (item ∷ items)) (sym (report-table now u item items rows))
        (
          IsReported-kept now u item items next (after_one-IsReported now u item rows),
          report-IsReported now u items next,
        )

  settled :
      (now : ℕ) (u : String) (items : List Identifier) (rows : Dict FraudAccount)
      → All (IsReported u rows) items
      → report h now u items rows ≡ (0, rows)
  unfolding report
  settled now u [] rows a = refl
  settled now u (item ∷ items) rows (a, as_) =
      let key = hash_of h item in
      ground (
        arith,
        a,
        settled now u items rows as_,
        corroborate-changed now u (text_of item.scheme) (lookup key rows),
      )

  -- Reporting the same accounts again, at any later time, changes nothing and counts nothing.
  pub report_idempotent :
      (now later : ℕ) (u : String) (items : List Identifier) (rows : Dict FraudAccount)
      → let rows' = (report h now u items rows).1 in report h later u items rows' ≡ (0, rows')
  report_idempotent now later u items rows =
      settled later u items _ (report-IsReported now u items rows)

  report_nil :
      (now : ℕ) (u : String) (rows : Dict FraudAccount) → report h now u [] rows ≡ (0, rows)
  unfolding report
  report_nil now u rows = refl

  after_one-IsDict :
      (now : ℕ) (u : String) (item : Identifier) (rows : Dict FraudAccount)
      → IsDict rows
      → IsDict (after_one now u item rows)
  unfolding after_one
  after_one-IsDict now u item rows d =
      let key = hash_of h item in
      let (row, changed) = corroborate now u (text_of item.scheme) (lookup key rows) in
      elim (Bool-cases (is_blank item)) [
        | inl b ↦ rw b d
        | inr b ↦ elim (Bool-cases changed) [
          | inl c ↦ rw (b, c) (insert-IsDict key row rows d)
          | inr c ↦ rw (b, c) d
        ]
      ]

  report-IsDict :
      (now : ℕ) (u : String) (items : List Identifier) (rows : Dict FraudAccount)
      → IsDict rows
      → IsDict (report h now u items rows).1
  report-IsDict now u [] rows d = subst IsDict (sym (ap (λ x. x.1) (report_nil now u rows))) d
  report-IsDict now u (item ∷ items) rows d =
      subst IsDict (sym (report-table now u item items rows))
        (report-IsDict now u items _ (after_one-IsDict now u item rows d))

-- The number of the other tenants that a look-up answers.
abbrev pub others_of : Option Known → ℕ
others_of none = 0
others_of (some k) = k.other_tenants

abbrev known_row : String → String → Option FraudAccount → Option Known → Option Known
known_row u s none out = out
known_row u s (some row) out = some (known_of u s row)

-- The dictionary `by_hash` of one account.
abbrev one_hash : (key scheme ident : String) → Dict (String × String)
one_hash key scheme ident = (key, (scheme, ident)) ∷ []

str_eq_sym : (a b : String) {c : Bool} → str_eq a b ≡ c → str_eq b a ≡ c
str_eq_sym a b e = ground (arith, e, eq_iff a b, eq_iff b a)

lookup-collect :
    (u key s ident : String) (rows : Dict FraudAccount) (out : Dict Known)
    → IsDict rows
    → let by_hash = one_hash key s ident in
      lookup ident (collect u by_hash (keep (λ p. is_some (lookup p.0 by_hash)) rows) out)
      ≡ known_row u s (lookup key rows) (lookup ident out)
unfolding collect lookup
lookup-collect u key s ident [] out d = refl
lookup-collect u key s ident ((j, row) ∷ rows) out (new, d) =
    let by_hash = one_hash key s ident in
    elim (Bool-cases (str_eq key j)) [
      | inl e ↦
          let out' = insert ident (known_of u s row) out in
          let alone = subst (λ x. lookup x rows ≡ none) (sym ((eq_iff key j).0 e)) new in
          rw (e, e, str_eq_sym key j e)
            (lookup-collect u key s ident rows out' d
              ∙ (ap (λ o. known_row u s o (lookup ident out')) alone
                  ∙ lookup-insert_self ident (known_of u s row) out))
      | inr e ↦ rw (e, str_eq_sym key j e) (lookup-collect u key s ident rows out d)
    ]

counted_others :
    (t u : String) (ts : List String)
    → t ≢ u
    → elem t ts ≡ true
    → 1 ≤ length (keep (λ x. not (str_eq x u)) ts)
counted_others t u [] n i = ground arith
counted_others t u (x ∷ ts) n i =
    ground (arith, i, n, counted_others t u ts n, eq_iff t x, eq_iff x u)

another_reporter :
    (t u s : String) (o : Option FraudAccount) (out : Option Known)
    → t ≢ u
    → holds t o ≡ true
    → 1 ≤ others_of (known_row u s o out)
unfolding known_of holds
another_reporter t u s none out n i = ground arith
another_reporter t u s (some row) out n i = counted_others t u row.reporter_tenant_ids n i

-- The account that a customer reported as fraud is answered to every other customer that meets it, with at
-- least one other tenant behind it.
pub fraud_shared :
    (h : Hashing) (now : ℕ) (t u : String) (item : Identifier) (items : List Identifier)
    → (rows : Dict FraudAccount) → IsDict rows
    → is_blank item ≡ false
    → t ≢ u
    → let scheme = text_of item.scheme in
      let ident = text_of item.identifier in
      1
      ≤ others_of (
          lookup ident
            (lookup_accounts h u ((scheme, ident) ∷ []) (report h now t (item ∷ items) rows).1))
unfolding lookup_accounts hashed insert hash_of lookup
fraud_shared h now t u item items rows d b n =
    let scheme = text_of item.scheme in
    let ident = text_of item.identifier in
    let rows' = (report h now t (item ∷ items) rows).1 in
    let key = account_hash h scheme ident in
    let there = (report-IsReported h now t (item ∷ items) rows).0 in
    rw (lookup-collect u key scheme ident rows' [] (report-IsDict h now t (item ∷ items) rows d))
      (another_reporter t u scheme (lookup key rows') none n (ground (arith, there, b)))
