-- ===== src/Services/Suppliers/Again.antt =====
-- Importing the same suppliers again: the loop over the rows, `apply_supplier_rows` of
-- server/src/envelock/services/suppliers.py.
use envelock.Prelude.{
  ℕ, ◌+◌, true, false, Option, some, List, [], ◌∷◌, str_eq, ◌≡◌, refl, ◌∙◌, sym, ap, subst, arith,
  All, All-mono, Bool-cases, inl, inr, eq_iff,
}
use envelock.Prelude.Dict.{Dict, lookup, lookup-insert, lookup-insert_self}
use envelock.Services.Suppliers.{
  Python, schemes, SupplierRow, Counterparty, Tables, Progress, is_open, filled, found_or_new,
  add_supplier, apply_row, apply_loop, apply_supplier_rows,
}
use envelock.Services.Suppliers.Idempotent.{
  is_open-fill_self, is_open-fill, fill-closed, insert-same, AllSettled, is_settled-keep,
  add_records-settles, add_records-settled,
}

-- The supplier is there, with nothing that the row could still fill in.
unfoldable pub IsFiled : SupplierRow → Dict Counterparty → Type 0
IsFiled row suppliers =
    (c : Counterparty) × (lookup row.domain suppliers ≡ some c)
    × (is_open row.name c.display_name ≡ false)
    × (is_open row.phone c.verified_phone ≡ false)

plus_zero : (n : ℕ) → n + 0 ≡ n
plus_zero n = omega arith

abbrev pair : ℕ → ℕ → ℕ × ℕ
pair a b = (a, b)

pair_of : (a b c d : ℕ) → a ≡ c → b ≡ d → pair a b ≡ pair c d
pair_of a b c d h k = rw (h, k) refl

module _ (py : Python) (now : ℕ) (actor_id : Option ℕ) where
  add_supplier-IsFiled :
      (row : SupplierRow) (suppliers : Dict Counterparty)
      → IsFiled row (add_supplier py now actor_id row suppliers)
  unfolding IsFiled add_supplier filled
  add_supplier-IsFiled row suppliers = (
    _,
    lookup-insert_self row.domain _ suppliers,
    is_open-fill_self row.name _,
    is_open-fill_self row.phone _,
  )

  add_supplier-keeps :
      (old row : SupplierRow) (suppliers : Dict Counterparty)
      → IsFiled old suppliers
      → IsFiled old (add_supplier py now actor_id row suppliers)
  unfolding IsFiled add_supplier filled
  add_supplier-keeps old row suppliers (c, found, name, phone) =
      elim (Bool-cases (str_eq row.domain old.domain)) [
        | inl e ↦ (
          filled row c,
          lookup-insert old.domain row.domain _ suppliers
              ∙ rw e
                  (ap some (ap (λ o. filled row (found_or_new now o)) (same_supplier e ∙ found))),
          is_open-fill old.name row.name c.display_name name,
          is_open-fill old.phone row.phone c.verified_phone phone,
        )
        | inr e ↦ (c, lookup-insert old.domain row.domain _ suppliers ∙ rw e found, name, phone)
      ]
    where
      same_supplier :
          str_eq row.domain old.domain ≡ true
          → lookup row.domain suppliers ≡ lookup old.domain suppliers
      same_supplier e = ap (λ d. lookup d suppliers) ((eq_iff row.domain old.domain).0 e)

  add_supplier-filed :
      (row : SupplierRow) (suppliers : Dict Counterparty)
      → IsFiled row suppliers
      → add_supplier py now actor_id row suppliers ≡ suppliers
  unfolding IsFiled add_supplier filled
  add_supplier-filed row suppliers (c, found, name, phone) =
      rw
        (
          found,
          fill-closed row.name c.display_name name,
          fill-closed row.phone c.verified_phone phone,
        )
        (insert-same row.domain c suppliers found)

  -- A second import of the row would find everything there.
  abbrev IsImported : SupplierRow → Tables → Type 0
  IsImported row t = IsFiled row t.counterparties × AllSettled py row schemes t.bank_records

  apply_row-IsImported :
      (row : SupplierRow) (p : Progress) → IsImported row (apply_row py now actor_id row p).tables
  unfolding apply_row
  apply_row-IsImported row p = (
    add_supplier-IsFiled row p.tables.counterparties,
    add_records-settles py now actor_id row schemes p.tables.bank_records,
  )

  apply_row-keeps :
      (old row : SupplierRow) (p : Progress)
      → IsImported old p.tables
      → IsImported old (apply_row py now actor_id row p).tables
  unfolding apply_row
  apply_row-keeps old row p (filed, settled) = (
    add_supplier-keeps old row p.tables.counterparties filed,
    All-mono _ _ (is_settled-keep py now actor_id old row schemes p.tables.bank_records) schemes
        settled,
  )

  apply_loop-keeps :
      (old : SupplierRow) (rows : List SupplierRow)
      → (p : Progress) → IsImported old p.tables
      → IsImported old (apply_loop py now actor_id rows p).tables
  unfolding apply_loop
  apply_loop-keeps old [] p h = h
  apply_loop-keeps old (row ∷ rows) p h =
      apply_loop-keeps old rows (apply_row py now actor_id row p) (apply_row-keeps old row p h)

  apply_loop-imports :
      (rows : List SupplierRow)
      → (p : Progress) → All (λ r. IsImported r (apply_loop py now actor_id rows p).tables) rows
  unfolding apply_loop
  apply_loop-imports [] p = tt
  apply_loop-imports (row ∷ rows) p = (
    apply_loop-keeps row rows (apply_row py now actor_id row p) (apply_row-IsImported row p),
    apply_loop-imports rows (apply_row py now actor_id row p),
  )

  -- What a progress has created: suppliers, and bank records.
  abbrev created : Progress → ℕ × ℕ
  created p = (p.counts.suppliers_created, p.counts.bank_records_created)

  apply_row-imported :
      (row : SupplierRow) (p : Progress)
      → IsImported row p.tables
      → ((apply_row py now actor_id row p).tables ≡ p.tables)
        × (created (apply_row py now actor_id row p) ≡ created p)
  unfolding apply_row IsFiled
  apply_row-imported row p (filed, settled) =
      let (same, none_made) =
        add_records-settled py now actor_id row schemes p.tables.bank_records settled in
      (
        rw (same, add_supplier-filed row p.tables.counterparties filed) refl,
        rw (filed.1, none_made) (pair_of _ _ _ _ (plus_zero _) (plus_zero _)),
      )

  apply_loop-imported :
      (rows : List SupplierRow) (t : Tables)
      → All (λ r. IsImported r t) rows
      → (p : Progress) → p.tables ≡ t
      → ((apply_loop py now actor_id rows p).tables ≡ t)
        × (created (apply_loop py now actor_id rows p) ≡ created p)
  unfolding apply_loop
  apply_loop-imported [] t h p e = (e, refl)
  apply_loop-imported (row ∷ rows) t (h, hs) p e =
      let (same, none_made) = apply_row-imported row p (subst (IsImported row) (sym e) h) in
      let (last, none_later) =
        apply_loop-imported rows t hs (apply_row py now actor_id row p) (same ∙ e) in
      (last, none_later ∙ none_made)

-- An import of the same suppliers again, at a later time and by anyone, changes no table, and counts no
-- supplier and no bank record as created.
pub second_import_idle :
    (py : Python) (rows : List SupplierRow) (tables : Tables) (now later : ℕ)
    (actor_id other_id : Option ℕ)
    → (let first = apply_supplier_rows py now actor_id rows tables in
        let again = apply_supplier_rows py later other_id rows first.1 in
        (again.1 ≡ first.1) × (again.0.suppliers_created ≡ 0) × (again.0.bank_records_created ≡ 0))
unfolding apply_supplier_rows
second_import_idle py rows tables now later actor_id other_id =
    let (same, none_made) =
      apply_loop-imported py later other_id rows _ (apply_loop-imports py now actor_id rows _) _
        refl in
    (same, ap (λ c. c.0) none_made, ap (λ c. c.1) none_made)
