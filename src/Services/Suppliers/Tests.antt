-- ===== src/Services/Suppliers/Tests.antt =====
-- The import of suppliers at a concrete input.
use envelock.Prelude.{String, Option, none, some, List, [], ◌∷◌, ◌≡◌, false}
use envelock.Services.Suppliers.{Python, Scheme, iban, SupplierRow, Tables, apply_supplier_rows}
use envelock.Services.Suppliers.Again.{second_import_idle}

-- Texts that are canonical already.
abbrev canonical : Python
canonical = record {
  strip = λ s. s;
  without_spaces = λ s. s;
  without_spaces_or_dashes = λ s. s;
  upper = λ s. s;
  lower = λ s. s;
  starts_0x = λ s. false;
}

abbrev only_iban : String → Scheme → Option String
only_iban value iban = some value
only_iban value _ = none

-- Two rows of the same supplier, with two accounts.
abbrev rows : List SupplierRow
rows =
    record {
      domain = "acme.example";
      name = some "Acme";
      phone = none;
      value_of = only_iban "GB29NWBK60161331926819";
      bank_name = some "";
    }
    ∷ record {
      domain = "acme.example";
      name = some "Acme Ltd";
      phone = some "+44";
      value_of = only_iban "DE89370400440532013000";
      bank_name = none;
    }
    ∷ []

abbrev none_yet : Tables
none_yet = record { counterparties = []; bank_records = [] }

second_import_idle_example :
    (let first = apply_supplier_rows canonical 10 (some 1) rows none_yet in
      let again = apply_supplier_rows canonical 20 none rows first.1 in
      (again.1 ≡ first.1) × (again.0.suppliers_created ≡ 0) × (again.0.bank_records_created ≡ 0))
second_import_idle_example = second_import_idle canonical rows none_yet 10 20 (some 1) none
