-- ===== src/Services/Suppliers/Idempotent.antt =====
-- Importing the same suppliers again: `apply_supplier_rows` of server/src/envelock/services/suppliers.py.
use envelock.Prelude.{
  ℕ, String, Bool, true, false, ◌&&◌, ◌||◌, Option, some, List, [], ◌∷◌, ◌++◌, ◌==◌, str_eq, ◌≡◌,
  refl, ◌∙◌, sym, ap, subst, arith, All, Bool-cases, inl, inr, ==_iff, eq_iff, any-append_left,
  any-append_last,
}
use envelock.Prelude.Dict.{Dict, lookup, insert, is_some}
use envelock.Services.Suppliers.{
  Python, Scheme, ordinal, SupplierRow, BankRecord, or_none, is_open, fill, is_recorded, value_for,
  new_record, add_records, count_records,
}

pub is_open-fill_self : (n c : Option String) → is_open n (fill n c) ≡ false
unfolding is_open fill
is_open-fill_self n c = elim (Bool-cases (is_some (or_none n))) [
  | inl h ↦ elim (Bool-cases (is_some (or_none c))) [
    | inl k ↦ rw (h, k) (ground (arith, k))
    | inr k ↦ rw (h, k) (ground (arith, h))
  ]
  | inr h ↦ rw h refl
]

pub is_open-fill : (n m c : Option String) → is_open n c ≡ false → is_open n (fill m c) ≡ false
unfolding is_open fill
is_open-fill n m c h = elim (Bool-cases (is_open m c)) [
  | inl k ↦ rw k (ground (arith, k))
  | inr k ↦ rw k h
]

pub fill-closed : (n c : Option String) → is_open n c ≡ false → fill n c ≡ c
unfolding fill
fill-closed n c h = rw h refl

pub insert-same {ℓ} :
    {V : Type ℓ} (k : String) (v : V) (d : Dict V) → lookup k d ≡ some v → insert k v d ≡ d
unfolding lookup insert
insert-same k v [] h = ground (arith, h)
insert-same k v ((j, w) ∷ d) h = ground (arith, h, eq_iff j k, insert-same k v d)

is_recorded-append :
    (d : String) (s : Scheme) (v : String) (xs ys : List BankRecord)
    → is_recorded d s v xs ≡ true
    → is_recorded d s v (xs ++ ys) ≡ true
unfolding is_recorded
is_recorded-append d s v xs ys h = any-append_left _ xs ys h

is_recorded-last :
    (d : String) (s : Scheme) (v : String) (xs : List BankRecord) (r : BankRecord)
    → r.supplier ≡ d
    → r.scheme ≡ s
    → r.identifier ≡ v
    → is_recorded d s v (xs ++ (r ∷ [])) ≡ true
unfolding is_recorded
is_recorded-last d s v xs r h k l = any-append_last _ xs r (same r h k l)
  where
    same :
        (r : BankRecord)
        → r.supplier ≡ d
        → r.scheme ≡ s
        → r.identifier ≡ v
        → str_eq r.supplier d && (ordinal r.scheme == ordinal s) && str_eq r.identifier v ≡ true
    same r h k l =
        rw
          (
            (eq_iff r.supplier d).1 h,
            (==_iff (ordinal r.scheme) (ordinal s)).1 (ap ordinal k),
            (eq_iff r.identifier v).1 l,
          )
          refl

module _ (py : Python) where
  -- The row gives no identifier of the scheme, or the tables have it.
  abbrev pub is_settled : SupplierRow → List BankRecord → Scheme → Bool
  is_settled row records scheme =
      str_eq (value_for py row scheme) ""
      || is_recorded row.domain scheme (value_for py row scheme) records

  add_records-keep :
      (now : ℕ) (actor_id : Option ℕ) (row : SupplierRow) (ss : List Scheme) (d : String)
      (s : Scheme) (v : String)
      → (records : List BankRecord) → is_recorded d s v records ≡ true
      → is_recorded d s v (add_records py now actor_id row ss records) ≡ true
  unfolding add_records
  add_records-keep now actor_id row [] d s v records h = h
  add_records-keep now actor_id row (x ∷ ss) d s v records h =
      elim (Bool-cases (is_settled row records x)) [
        | inl e ↦ rw e (add_records-keep now actor_id row ss d s v records h)
        | inr e ↦
            rw e
              (add_records-keep now actor_id row ss d s v _ (is_recorded-append d s v records _ h))
      ]

  or_mono : (a b c : Bool) → (b ≡ true → c ≡ true) → a || b ≡ true → a || c ≡ true
  or_mono a b c h k = ground (arith, h, k)

  or_right : (a b : Bool) → b ≡ true → a || b ≡ true
  or_right a b h = ground (arith, h)

  pub is_settled-keep :
      (now : ℕ) (actor_id : Option ℕ) (old row : SupplierRow) (ss : List Scheme)
      (records : List BankRecord) (s : Scheme)
      → is_settled old records s ≡ true
      → is_settled old (add_records py now actor_id row ss records) s ≡ true
  is_settled-keep now actor_id old row ss records s =
      or_mono _ _ _ (add_records-keep now actor_id row ss old.domain s (value_for py old s) records)

  recorded :
      (now : ℕ) (actor_id : Option ℕ) (row : SupplierRow) (x : Scheme) (records : List BankRecord)
      → is_recorded row.domain x
          (value_for py row x)
          (records ++ (new_record py now actor_id row x ∷ []))
        ≡ true
  unfolding new_record
  recorded now actor_id row x records =
      is_recorded-last row.domain x (value_for py row x) records _ refl refl refl

  step_settled :
      (now : ℕ) (actor_id : Option ℕ) (row : SupplierRow) (x : Scheme) (ss : List Scheme)
      (records : List BankRecord)
      → is_settled row records x ≡ true
      → add_records py now actor_id row (x ∷ ss) records
        ≡ add_records py now actor_id row ss records
  unfolding add_records
  step_settled now actor_id row x ss records e = rw e refl

  step_new :
      (now : ℕ) (actor_id : Option ℕ) (row : SupplierRow) (x : Scheme) (ss : List Scheme)
      (records : List BankRecord)
      → is_settled row records x ≡ false
      → add_records py now actor_id row (x ∷ ss) records
        ≡ add_records py now actor_id row ss (records ++ (new_record py now actor_id row x ∷ []))
  unfolding add_records
  step_new now actor_id row x ss records e = rw e refl

  abbrev pub AllSettled : SupplierRow → List Scheme → List BankRecord → Type 0
  AllSettled row ss records = All (λ s. is_settled row records s ≡ true) ss

  -- After the loop over the schemes each of them is settled.
  pub add_records-settles :
      (now : ℕ) (actor_id : Option ℕ) (row : SupplierRow) (ss : List Scheme)
      → (records : List BankRecord) → AllSettled row ss (add_records py now actor_id row ss records)
  add_records-settles now actor_id row [] records = tt
  add_records-settles now actor_id row (x ∷ ss) records =
      elim (Bool-cases (is_settled row records x)) [
        | inl e ↦
            subst (AllSettled row (x ∷ ss)) (sym (step_settled now actor_id row x ss records e)) (
              is_settled-keep now actor_id row row ss records x e,
              add_records-settles now actor_id row ss records,
            )
        | inr e ↦ subst (AllSettled row (x ∷ ss)) (sym (step_new now actor_id row x ss records e)) (
          is_settled-keep now actor_id row row ss _ x
              (or_right _ _ (recorded now actor_id row x records)),
          add_records-settles now actor_id row ss _,
        )
      ]

  -- Where each scheme is settled, the loop adds nothing.
  pub add_records-settled :
      (now : ℕ) (actor_id : Option ℕ) (row : SupplierRow) (ss : List Scheme)
      (records : List BankRecord)
      → All (λ s. is_settled row records s ≡ true) ss
      → (add_records py now actor_id row ss records ≡ records)
        × ((count_records py now actor_id row ss records).0 ≡ 0)
  unfolding add_records count_records
  add_records-settled now actor_id row [] records h = (refl, refl)
  add_records-settled now actor_id row (x ∷ ss) records (h, hs) =
      let (same, none_made) = add_records-settled now actor_id row ss records hs in
      (step_settled now actor_id row x ss records h ∙ same, ground (arith, h, none_made))
