-- ===== src/Governance/Retention/Sweep.antt =====
-- Deletions of alerts with the rows that point at them, and how two of them add up.
use envelock.Prelude.{
  ℕ, zero, suc, ◌<◌, Bool, true, false, not, ◌&&◌, ◌||◌, Option, none, some, List, [], ◌∷◌, ◌==◌,
  take, is_empty, keep, any, count_if, ◌≡◌, refl, ◌∙◌, sym, ap, arith, Bool-cases, inl, inr, subst,
  ==_iff, keep-keep, keep-congr, keep-every, any-keep-not, any-count_if,
}
use envelock.Governance.Retention.{
  Tables, Dated, Child, has_id, refers, expired, is_older, without, mentioned, delete_children,
  delete_alerts,
}

abbrev pub without_alerts : List ℕ → List Dated → List Dated
without_alerts ids rows = keep (λ a. not (has_id ids a.id)) rows

-- The tables less the alerts with these ids and all that points at them.
unfoldable pub swept : List ℕ → Tables → Tables
swept ids db = record (delete_children ids db) { alerts = without_alerts ids db.alerts }

pub delete_alerts-clean :
    (ids : List ℕ) (db : Tables) → delete_alerts ids (delete_children ids db) ≡ some (swept ids db)
unfolding delete_alerts delete_children swept without mentioned
delete_alerts-clean ids db =
    rw
      (
        any-keep-not (λ c. refers ids c.alert_id) db.deliveries,
        any-keep-not (λ c. refers ids c.alert_id) db.findings,
        any-keep-not (λ c. refers ids c.alert_id) db.verifications,
        any-keep-not (λ c. refers ids c.alert_id) db.llm_verdicts,
      )
      refl

has_id-take : (n : ℕ) (ids : List ℕ) (i : ℕ) → has_id (take n ids) i ≡ true → has_id ids i ≡ true
unfolding has_id
has_id-take zero ids i h = ground (arith, h)
has_id-take (suc n) [] i h = h
has_id-take (suc n) (j ∷ ids) i h = ground (arith, h, has_id-take n ids i)

has_id-nil : (i : ℕ) → has_id [] i ≡ false
unfolding has_id
has_id-nil i = refl

has_id-cons : (j : ℕ) (ids : List ℕ) (i : ℕ) → has_id (j ∷ ids) i ≡ (j == i) || has_id ids i
unfolding has_id
has_id-cons j ids i = refl

same_id : (ids : List ℕ) (i j : ℕ) → (j == i) ≡ true → has_id ids j ≡ true → has_id ids i ≡ true
same_id ids i j e h = subst (λ k. has_id ids k ≡ true) ((==_iff j i).0 e) h

or_and : (a b c : Bool) → (a ≡ true → c ≡ true) → b && not c ≡ (a || b) && not c
or_and a b c h = ground (arith, h)

or_keep : (a b c : Bool) → (a ≡ true → c ≡ false) → a || (b && not c) ≡ (a || b) && not c
or_keep a b c h = ground (arith, h)

expired-older :
    (cut : ℕ) (row : Dated) (rows : List Dated)
    → is_older cut row ≡ true
    → expired cut (row ∷ rows) ≡ row.id ∷ expired cut rows
unfolding expired
expired-older cut row rows h = rw h refl

expired-recent :
    (cut : ℕ) (row : Dated) (rows : List Dated)
    → is_older cut row ≡ false
    → expired cut (row ∷ rows) ≡ expired cut rows
unfolding expired
expired-recent cut row rows h = rw h refl

-- What is before the cutoff after a deletion was before it, and was not deleted.
has_id-expired :
    (cut : ℕ) (ids : List ℕ) (rows : List Dated) (i : ℕ)
    → has_id (expired cut (without_alerts ids rows)) i
      ≡ has_id (expired cut rows) i && not (has_id ids i)
unfolding expired
has_id-expired cut ids [] i = rw (has_id-nil i) refl
has_id-expired cut ids (row ∷ rows) i = elim (Bool-cases (has_id ids row.id)) [
  | inl h ↦ elim (Bool-cases (is_older cut row)) [
    | inl o ↦
        rw (h, o, has_id-cons row.id (expired cut rows) i, has_id-expired cut ids rows i)
          (or_and _ _ _ (λ e. same_id ids i row.id e h))
    | inr o ↦ rw (h, o) (has_id-expired cut ids rows i)
  ]
  | inr h ↦ elim (Bool-cases (is_older cut row)) [
    | inl o ↦
        rw
          (
            h,
            expired-older cut row (without_alerts ids rows) o,
            o,
            has_id-cons row.id (expired cut rows) i,
            has_id-cons row.id (expired cut (without_alerts ids rows)) i,
            has_id-expired cut ids rows i,
          )
          (or_keep _ _ _ (λ e. ap (has_id ids) (sym ((==_iff row.id i).0 e)) ∙ h))
    | inr o ↦ rw (h, o) (has_id-expired cut ids rows i)
  ]
]

split : (a b : Bool) → (b ≡ true → a ≡ true) → not b && not (a && not b) ≡ not a
split a b h = ground (arith, h)

-- The ids that one round leaves aside are those of the next rounds.
pub expired-split :
    (cut n : ℕ) (rows : List Dated) (i : ℕ)
    → (let batch = take n (expired cut rows) in
        not (has_id batch i) && not (has_id (expired cut (without_alerts batch rows)) i)
        ≡ not (has_id (expired cut rows) i))
expired-split cut n rows i =
    ap (λ b. not (has_id (take n (expired cut rows)) i) && not b)
      (has_id-expired cut (take n (expired cut rows)) rows i)
    ∙ split _ _ (has_id-take n (expired cut rows) i)

refers_split :
    (a b c : List ℕ) (o : Option ℕ)
    → ((i : ℕ) → not (has_id a i) && not (has_id b i) ≡ not (has_id c i))
    → not (refers a o) && not (refers b o) ≡ not (refers c o)
unfolding refers
refers_split a b c none h = refl
refers_split a b c (some i) h = h i

without-without :
    (a b c : List ℕ) (children : List Child)
    → ((i : ℕ) → not (has_id a i) && not (has_id b i) ≡ not (has_id c i))
    → without b (without a children) ≡ without c children
unfolding without
without-without a b c children h =
    keep-keep _ _ children ∙ keep-congr _ _ children (λ x. refers_split a b c x.alert_id h)

-- Two deletions leave what the deletion of all the ids leaves.
pub swept-swept :
    (a b c : List ℕ) (db : Tables)
    → ((i : ℕ) → not (has_id a i) && not (has_id b i) ≡ not (has_id c i))
    → swept b (swept a db) ≡ swept c db
unfolding swept delete_children
swept-swept a b c db h =
    rw
      (
        without-without a b c db.deliveries h,
        without-without a b c db.findings h,
        without-without a b c db.verifications h,
        without-without a b c db.llm_verdicts h,
        keep-keep (λ x. not (has_id b x.id)) (λ x. not (has_id a x.id)) db.alerts
            ∙ keep-congr _ (λ x. not (has_id c x.id)) db.alerts (λ x. h x.id),
      )
      refl

refers-nil : (o : Option ℕ) → not (refers [] o) ≡ true
unfolding refers has_id
refers-nil none = refl
refers-nil (some i) = refl

without-nil : (children : List Child) → without [] children ≡ children
unfolding without
without-nil children = keep-every _ children (λ c. refers-nil c.alert_id)

-- The deletion of nothing.
pub swept-nil : (db : Tables) → swept [] db ≡ db
unfolding swept delete_children has_id
swept-nil db =
    rw
      (
        without-nil db.deliveries,
        without-nil db.findings,
        without-nil db.verifications,
        without-nil db.llm_verdicts,
        keep-every (λ x. not (has_id [] x.id)) db.alerts (λ x. refl),
      )
      refl

any-expired :
    (cut : ℕ) (p : ℕ → Bool) (rows : List Dated)
    → any p (expired cut rows) ≡ true
    → any (λ a. p a.id) rows ≡ true
unfolding expired
any-expired cut p [] h = h
any-expired cut p (row ∷ rows) h = elim (Bool-cases (is_older cut row)) [
  | inl o ↦ ground (arith, h, o, any-expired cut p rows)
  | inr o ↦ ground (arith, h, o, any-expired cut p rows)
]

has_first :
    (n : ℕ) (ids : List ℕ)
    → is_empty (take (suc n) ids) ≡ false
    → any (has_id (take (suc n) ids)) ids ≡ true
unfolding has_id
has_first n [] h = ground (arith, h)
has_first n (i ∷ ids) h = ground (arith, h)

-- A round deletes an alert.
pub round_deletes :
    (cut n : ℕ) (rows : List Dated)
    → is_empty (take (suc n) (expired cut rows)) ≡ false
    → 0 < count_if (λ a. has_id (take (suc n) (expired cut rows)) a.id) rows
round_deletes cut n rows h =
    any-count_if _ rows (any-expired cut _ rows (has_first n (expired cut rows) h))
