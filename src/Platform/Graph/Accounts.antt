-- ===== src/Platform/Graph/Accounts.antt =====
-- The register of fraud accounts: server/src/envelock/platform/fraud_accounts.py, with the table
-- `fraud_accounts` as a dictionary by its primary key. The operations of Python on texts and the keyed hash
-- are parameters.
use envelock.Prelude.{
  ℕ, ◌+◌, String, Bool, true, false, not, ◌||◌, Option, none, some, List, [], ◌∷◌, ◌++◌, elem,
  str_eq, if◌then◌else◌, length, keep,
}
use envelock.Prelude.Dict.{Dict, lookup, insert, is_some}

-- `"".join(identifier.split())`, `upper`, `lower`, and the digest of `hmac` under the server's key of an
-- account of a scheme
pub record Hashing : Type 0 where
  pub without_spaces : String → String
  pub upper : String → String
  pub lower : String → String
  pub digest : (scheme identifier : String) → String

-- `FraudAccount`, less its hash, which is the key
pub record FraudAccount : Type 0 where
  pub scheme : String
  pub confirmations : ℕ
  pub first_reported : ℕ
  pub last_reported : ℕ
  pub reporter_tenant_ids : List String

-- One of the `identifiers` of `report`; a field that is missing or empty is `none` or the empty text.
pub record Identifier : Type 0 where
  pub scheme : Option String
  pub identifier : Option String

abbrev pub text_of : Option String → String
text_of none = ""
text_of (some s) = s

-- `not scheme or not ident`
unfoldable pub is_blank : Identifier → Bool
is_blank item = str_eq (text_of item.scheme) "" || str_eq (text_of item.identifier) ""

-- What `report` does with the row of one account: the row it leaves, and whether it changed.
unfoldable pub corroborate :
    (now : ℕ) (tenant_id scheme : String) → Option FraudAccount → FraudAccount × Bool
corroborate now tenant_id scheme none = (
  record {
    scheme = scheme;
    confirmations = 1;
    first_reported = now;
    last_reported = now;
    reporter_tenant_ids = tenant_id ∷ [];
  },
  true,
)
corroborate now tenant_id scheme (some row) =
    if elem tenant_id row.reporter_tenant_ids then (row, false) else (
      record row {
        reporter_tenant_ids = row.reporter_tenant_ids ++ (tenant_id ∷ []);
        confirmations = length (row.reporter_tenant_ids ++ (tenant_id ∷ []));
        last_reported = now;
      },
      true,
    )

-- What `lookup` answers of an account.
pub record Known : Type 0 where
  pub scheme : String
  pub other_tenants : ℕ
  pub own : Bool

-- `len(reporters - {tenant})` and `tenant in reporters`
unfoldable pub known_of : (tenant_id scheme : String) → FraudAccount → Known
known_of tenant_id scheme row = record {
  scheme = scheme;
  other_tenants = length (keep (λ t. not (str_eq t tenant_id)) row.reporter_tenant_ids);
  own = elem tenant_id row.reporter_tenant_ids;
}

-- `by_hash[row.account_hash]`
abbrev pair_or_blank : Option (String × String) → String × String
pair_or_blank none = ("", "")
pair_or_blank (some pair) = pair

-- The loop of `lookup` over the rows that the query answers.
unfoldable pub collect :
    (tenant_id : String) (by_hash : Dict (String × String))
    → Dict FraudAccount
    → Dict Known
    → Dict Known
collect tenant_id by_hash [] out = out
collect tenant_id by_hash ((key, row) ∷ rows) out =
    let (scheme, ident) = pair_or_blank (lookup key by_hash) in
    collect tenant_id by_hash rows (insert ident (known_of tenant_id scheme row) out)

module _ (h : Hashing) where
  -- `account_hash`
  unfoldable pub account_hash : (scheme identifier : String) → String
  account_hash scheme identifier = h.digest (h.lower scheme) (h.upper (h.without_spaces identifier))

  unfoldable pub hash_of : Identifier → String
  hash_of item = account_hash (text_of item.scheme) (text_of item.identifier)

  -- The loop of `report`: the count of changes, and the table.
  unfoldable pub report :
      (now : ℕ) (tenant_id : String) → List Identifier → Dict FraudAccount → ℕ × Dict FraudAccount
  report now tenant_id [] rows = (0, rows)
  report now tenant_id (item ∷ items) rows =
      let key = hash_of item in
      let (row, changed) = corroborate now tenant_id (text_of item.scheme) (lookup key rows) in
      let skipped = report now tenant_id items rows in
      let rest = report now tenant_id items (insert key row rows) in
      if is_blank item then skipped else if changed then (rest.0 + 1, rest.1) else skipped

  -- The dictionary `by_hash`.
  unfoldable pub hashed : List (String × String) → Dict (String × String) → Dict (String × String)
  hashed [] by_hash = by_hash
  hashed ((scheme, ident) ∷ rest) by_hash =
      hashed rest (insert (account_hash scheme ident) (scheme, ident) by_hash)

  -- `lookup`, with the query as the rows whose key is in `by_hash`
  unfoldable pub lookup_accounts :
      (tenant_id : String) → List (String × String) → Dict FraudAccount → Dict Known
  lookup_accounts tenant_id identifiers rows =
      let by_hash = hashed identifiers [] in
      collect tenant_id by_hash (keep (λ p. is_some (lookup p.0 by_hash)) rows) []
