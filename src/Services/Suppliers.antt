-- ===== src/Services/Suppliers.antt =====
-- The suppliers of a tenant: server/src/envelock/services/suppliers.py, with the canonical form of an
-- identifier from server/src/envelock/util/payments.py. Python's operations on texts are parameters. The tables
-- hold the rows of one tenant; a supplier stands under its registrable domain.
pub mod Idempotent
pub mod Again
mod Tests
use envelock.Prelude.{
  ℕ, suc, ◌+◌, String, Bool, true, false, not, ◌&&◌, ◌||◌, Option, none, some, List, [], ◌∷◌, ◌++◌,
  ◌==◌, str_eq, if◌then◌else◌, any, elem,
}
use envelock.Prelude.Dict.{Dict, lookup, insert, is_some}

-- The members of `SCHEMES`
pub data Scheme : Type 0 where
  iban account swift sortcode ach crypto : Scheme

-- `SCHEMES`
abbrev pub schemes : List Scheme
schemes = iban ∷ account ∷ swift ∷ sortcode ∷ ach ∷ crypto ∷ []

-- The position of a scheme, by which two are compared.
abbrev pub ordinal : Scheme → ℕ
ordinal iban = 0
ordinal account = 1
ordinal swift = 2
ordinal sortcode = 3
ordinal ach = 4
ordinal crypto = 5

-- `v.strip()`, `re.sub(r"\s", "", v)`, `re.sub(r"[\s-]", "", v)`, `v.upper()`, `v.lower()` and
-- `v.startswith("0x")`
pub record Python : Type 0 where
  pub strip : String → String
  pub without_spaces : String → String
  pub without_spaces_or_dashes : String → String
  pub upper : String → String
  pub lower : String → String
  pub starts_0x : String → Bool

-- `_normalise`
unfoldable pub normalise : Python → String → String
normalise py value = py.upper (py.without_spaces_or_dashes value)

abbrev is_crypto : Scheme → Bool
is_crypto crypto = true
is_crypto _ = false

-- `normalise_identifier`
unfoldable pub normalise_identifier : Python → Scheme → String → String
normalise_identifier py scheme value =
    let v = py.strip value in
    let stripped = py.without_spaces v in
    if is_crypto scheme
    then if py.starts_0x (py.lower stripped) then py.lower stripped else stripped
    else normalise py v

-- One of `rows`, with the value of each scheme
pub record SupplierRow : Type 0 where
  pub domain : String
  pub name : Option String
  pub phone : Option String
  pub value_of : Scheme → Option String
  pub bank_name : Option String

pub record Counterparty : Type 0 where
  pub first_seen_at : ℕ
  pub last_seen_at : ℕ
  pub message_count : ℕ
  pub display_name : Option String
  pub verified_phone : Option String

pub record BankRecord : Type 0 where
  pub supplier : String
  pub scheme : Scheme
  pub identifier : String
  pub bank_name : Option String
  pub first_seen_at : ℕ
  pub verified_at : Option ℕ
  pub verified_by : Option ℕ

pub record Tables : Type 0 where
  pub counterparties : Dict Counterparty
  pub bank_records : List BankRecord

-- What the call answers.
pub record Counts : Type 0 where
  pub suppliers_created : ℕ
  pub suppliers_matched : ℕ
  pub bank_records_created : ℕ
  pub bank_records_already_present : ℕ

-- `value or None`
unfoldable pub or_none : Option String → Option String
or_none none = none
or_none (some s) = if str_eq s "" then none else some s

-- A text that is given for one that is not.
unfoldable pub is_open : (new current : Option String) → Bool
is_open new current = is_some (or_none new) && not (is_some (or_none current))

-- `if new: current = current or new`
unfoldable pub fill : (new current : Option String) → Option String
fill new current = if is_open new current then new else current

abbrev text_of : Option String → String
text_of none = ""
text_of (some s) = s

-- The query for an existing record.
unfoldable pub is_recorded : (supplier : String) → Scheme → String → List BankRecord → Bool
is_recorded supplier scheme value records =
    any
      (λ r.
        str_eq r.supplier supplier
        && (ordinal r.scheme == ordinal scheme)
        && str_eq r.identifier value)
      records

unfoldable pub new_counterparty : (now : ℕ) → Counterparty
new_counterparty now = record {
  first_seen_at = now;
  last_seen_at = now;
  message_count = 0;
  display_name = none;
  verified_phone = none;
}

unfoldable pub filled : SupplierRow → Counterparty → Counterparty
filled row c = record c {
  display_name = fill row.name c.display_name;
  verified_phone = fill row.phone c.verified_phone;
}

abbrev pub found_or_new : (now : ℕ) → Option Counterparty → Counterparty
found_or_new now none = new_counterparty now
found_or_new now (some c) = c

-- The canonical value that a row gives for a scheme.
unfoldable pub value_for : Python → SupplierRow → Scheme → String
value_for py row scheme = normalise_identifier py scheme (text_of (row.value_of scheme))

-- The tables and the counts so far.
pub record Progress : Type 0 where
  pub tables : Tables
  pub counts : Counts
  pub seen : List String

module _ (py : Python) (now : ℕ) (actor_id : Option ℕ) where
  unfoldable pub new_record : SupplierRow → Scheme → BankRecord
  new_record row scheme = record {
    supplier = row.domain;
    scheme = scheme;
    identifier = value_for py row scheme;
    bank_name = or_none row.bank_name;
    first_seen_at = now;
    verified_at = some now;
    verified_by = actor_id;
  }

  -- The bank records after the loop over the schemes.
  unfoldable pub add_records : SupplierRow → List Scheme → List BankRecord → List BankRecord
  add_records row [] records = records
  add_records row (scheme ∷ rest) records =
      let value = value_for py row scheme in
      if str_eq value "" || is_recorded row.domain scheme value records
      then add_records row rest records
      else add_records row rest (records ++ (new_record row scheme ∷ []))

  -- The counts of that loop: the records created, and those present already.
  unfoldable pub count_records : SupplierRow → List Scheme → List BankRecord → ℕ × ℕ
  count_records row [] records = (0, 0)
  count_records row (scheme ∷ rest) records =
      let value = value_for py row scheme in
      let (created, present) = count_records row rest records in
      let (made, old) = count_records row rest (records ++ (new_record row scheme ∷ [])) in
      if str_eq value ""
      then (created, present)
      else if is_recorded row.domain scheme value records
      then (created, suc present)
      else (suc made, old)

  -- The counterparties after a row.
  unfoldable pub add_supplier : SupplierRow → Dict Counterparty → Dict Counterparty
  add_supplier row suppliers =
      insert row.domain (filled row (found_or_new now (lookup row.domain suppliers))) suppliers

  -- The body of the loop over the rows.
  unfoldable pub apply_row : SupplierRow → Progress → Progress
  apply_row row p =
      let known = is_some (lookup row.domain p.tables.counterparties) in
      let (created, present) = count_records row schemes p.tables.bank_records in
      record {
        tables = record {
          counterparties = add_supplier row p.tables.counterparties;
          bank_records = add_records row schemes p.tables.bank_records;
        };
        counts = record {
          suppliers_created = p.counts.suppliers_created + (if known then 0 else 1);
          suppliers_matched =
              p.counts.suppliers_matched + (if known && not (elem row.domain p.seen) then 1 else 0);
          bank_records_created = p.counts.bank_records_created + created;
          bank_records_already_present = p.counts.bank_records_already_present + present;
        };
        seen = row.domain ∷ p.seen;
      }

  unfoldable pub apply_loop : List SupplierRow → Progress → Progress
  apply_loop [] p = p
  apply_loop (row ∷ rows) p = apply_loop rows (apply_row row p)

  -- `apply_supplier_rows`
  unfoldable pub apply_supplier_rows : List SupplierRow → Tables → Counts × Tables
  apply_supplier_rows rows tables =
      let done = apply_loop rows (record {
        tables = tables;
        counts = record {
          suppliers_created = 0;
          suppliers_matched = 0;
          bank_records_created = 0;
          bank_records_already_present = 0;
        };
        seen = [];
      }) in
      (done.counts, done.tables)
