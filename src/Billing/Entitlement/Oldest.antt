-- ===== src/Billing/Entitlement/Oldest.antt =====
-- The mailboxes that stay protected: how many, and which.
use mathlib.Core.List.{Perm}
use mathlib.Core.List.Perm
use envelock.Prelude.{
  ℕ, zero, suc, ◌+◌, ◌+◌, ◌<◌, ◌||◌, ◌⊎◌, ◌↔◌, ◌≡◌, refl, ap, ◌∙◌, min, String, true, false, List,
  [], ◌∷◌, ◌++◌, length, length-take, take, All, arith, if◌then◌else◌, inl, inr, Bool-cases, str_eq,
  eq_iff, elem,
}
use envelock.Billing.Pricing.{included_mailbox_seats}
use envelock.Billing.Entitlement.{
  Tenant, Mailbox, mailbox_entitled, effective_plan, mailbox_capacity, not_after, insert_mailbox,
  sort_mailboxes, entitled_mailboxes, suspended, trial_active,
}

length-insert_mailbox :
    (m : Mailbox) (ms : List Mailbox) → length (insert_mailbox m ms) ≡ suc (length ms)
unfolding insert_mailbox
length-insert_mailbox m [] = refl
length-insert_mailbox m (n ∷ ns) = ground (arith, length-insert_mailbox m ns)

length-sort_mailboxes : (ms : List Mailbox) → length (sort_mailboxes ms) ≡ length ms
unfolding sort_mailboxes
length-sort_mailboxes [] = refl
length-sort_mailboxes (m ∷ ms) =
    length-insert_mailbox m (sort_mailboxes ms) ∙ ap suc (length-sort_mailboxes ms)

insert_mailbox-perm : (m : Mailbox) (ms : List Mailbox) → Perm (insert_mailbox m ms) (m ∷ ms)
unfolding insert_mailbox
insert_mailbox-perm m [] = Perm.refl (m ∷ [])
insert_mailbox-perm m (n ∷ ns) = elim (Bool-cases (not_after m n)) [
  | inl h ↦ rw h (Perm.refl (m ∷ n ∷ ns))
  | inr h ↦ rw h (Perm.trans (Perm.cons n (insert_mailbox-perm m ns)) (Perm.swap m n ns))
]

sort_mailboxes-perm : (ms : List Mailbox) → Perm (sort_mailboxes ms) ms
unfolding sort_mailboxes
sort_mailboxes-perm [] = Perm.refl []
sort_mailboxes-perm (m ∷ ms) =
    Perm.trans (insert_mailbox-perm m (sort_mailboxes ms)) (Perm.cons m (sort_mailboxes-perm ms))

-- Every mailbox of the second list is at least as young as every one of the first.
abbrev pub AllAfter : List Mailbox → List Mailbox → Type 0
AllAfter xs ys = All (λ x. All (λ y. not_after x y ≡ true) ys) xs

abbrev pub Sorted : List Mailbox → Type 0
Sorted [] = Unit
Sorted (m ∷ ms) = All (λ n. not_after m n ≡ true) ms × Sorted ms

not_after_trans :
    (a b c : Mailbox) → not_after a b ≡ true → not_after b c ≡ true → not_after a c ≡ true
unfolding not_after
not_after_trans a b c h k = ground arith

not_after_total : (a b : Mailbox) → not_after a b ≡ false → not_after b a ≡ true
unfolding not_after
not_after_total a b h = ground arith

All-trans :
    (m n : Mailbox) (ms : List Mailbox)
    → not_after m n ≡ true
    → All (λ x. not_after n x ≡ true) ms
    → All (λ x. not_after m x ≡ true) ms
All-trans m n [] h a = tt
All-trans m n (x ∷ ms) h a = (not_after_trans m n x h a.0, All-trans m n ms h a.1)

All-insert_mailbox :
    (a m : Mailbox) (ms : List Mailbox)
    → not_after a m ≡ true
    → All (λ n. not_after a n ≡ true) ms
    → All (λ n. not_after a n ≡ true) (insert_mailbox m ms)
unfolding insert_mailbox
All-insert_mailbox a m [] h k = (h, tt)
All-insert_mailbox a m (n ∷ ns) h k = elim (Bool-cases (not_after m n)) [
  | inl before ↦ rw before (h, k)
  | inr after ↦ rw after (k.0, All-insert_mailbox a m ns h k.1)
]

insert_mailbox-Sorted : (m : Mailbox) (ms : List Mailbox) → Sorted ms → Sorted (insert_mailbox m ms)
unfolding insert_mailbox
insert_mailbox-Sorted m [] s = (tt, tt)
insert_mailbox-Sorted m (n ∷ ns) s = elim (Bool-cases (not_after m n)) [
  | inl before ↦ rw before ((before, All-trans m n ns before s.0), s)
  | inr after ↦
      rw after
        (All-insert_mailbox n m ns (not_after_total m n after) s.0, insert_mailbox-Sorted m ns s.1)
]

sort_mailboxes-Sorted : (ms : List Mailbox) → Sorted (sort_mailboxes ms)
unfolding sort_mailboxes
sort_mailboxes-Sorted [] = tt
sort_mailboxes-Sorted (m ∷ ms) =
    insert_mailbox-Sorted m (sort_mailboxes ms) (sort_mailboxes-Sorted ms)

abbrev pub drop : ℕ → List Mailbox → List Mailbox
drop zero ms = ms
drop (suc n) [] = []
drop (suc n) (m ∷ ms) = drop n ms

take-append-drop : (n : ℕ) (ms : List Mailbox) → take n ms ++ drop n ms ≡ ms
take-append-drop zero ms = refl
take-append-drop (suc n) [] = refl
take-append-drop (suc n) (m ∷ ms) = rw (take-append-drop n ms)

All-drop : (P : Mailbox → Type 0) (n : ℕ) (ms : List Mailbox) → All P ms → All P (drop n ms)
All-drop P zero ms a = a
All-drop P (suc n) [] a = tt
All-drop P (suc n) (m ∷ ms) a = All-drop P n ms a.1

Sorted-split : (n : ℕ) (ms : List Mailbox) → Sorted ms → AllAfter (take n ms) (drop n ms)
Sorted-split zero ms s = tt
Sorted-split (suc n) [] s = tt
Sorted-split (suc n) (m ∷ ms) s =
    (All-drop (λ x. not_after m x ≡ true) n ms s.0, Sorted-split n ms s.1)

capacity_of_lapsed :
    (tenant : Tenant) (now : ℕ)
    → mailbox_entitled tenant now ≡ false
    → mailbox_capacity tenant now ≡ 0
unfolding mailbox_capacity effective_plan
capacity_of_lapsed tenant now e = rw e

paid_plan :
    (p : String)
    → elem p ("essential" ∷ "complete" ∷ "solo" ∷ []) ≡ true
    → (p ≡ "essential") ⊎ ((p ≡ "complete") ⊎ (p ≡ "solo"))
paid_plan p h = ground (arith, eq_iff p "essential", eq_iff p "complete", eq_iff p "solo")

seats_of_paid :
    (p : String) (n : ℕ)
    → (p ≡ "essential") ⊎ ((p ≡ "complete") ⊎ (p ≡ "solo"))
    → 0 < (if str_eq p "guard" then 0 else included_mailbox_seats p + n)
unfolding included_mailbox_seats
seats_of_paid p n (inl e) = rw e (omega arith)
seats_of_paid p n (inr (inl e)) = rw e (omega arith)
seats_of_paid p n (inr (inr e)) = rw e (omega arith)

plan_of_entitled :
    (tenant : Tenant) (now : ℕ)
    → mailbox_entitled tenant now ≡ true
    → elem tenant.plan ("essential" ∷ "complete" ∷ "solo" ∷ []) ≡ true
unfolding mailbox_entitled
plan_of_entitled tenant now e = ground arith

capacity_of_entitled :
    (tenant : Tenant) (now : ℕ)
    → mailbox_entitled tenant now ≡ true
    → 0 < mailbox_capacity tenant now
unfolding mailbox_capacity effective_plan
capacity_of_entitled tenant now e =
    rw e (seats_of_paid tenant.plan _ (paid_plan tenant.plan (plan_of_entitled tenant now e)))

entitled_when :
    (tenant : Tenant) (now : ℕ) (ms : List Mailbox)
    → entitled_mailboxes tenant now ms ≡ take (mailbox_capacity tenant now) (sort_mailboxes ms)
unfolding entitled_mailboxes
entitled_when tenant now ms = elim (Bool-cases (mailbox_entitled tenant now)) [
  | inl entitled ↦ rw entitled refl
  | inr lapsed ↦ rw (lapsed, capacity_of_lapsed tenant now lapsed) refl
]

-- The pollers protect as many mailboxes as the tenant has, or its capacity if that is less.
pub length-entitled_mailboxes :
    (tenant : Tenant) (now : ℕ) (ms : List Mailbox)
    → length (entitled_mailboxes tenant now ms) ≡ min (mailbox_capacity tenant now) (length ms)
length-entitled_mailboxes tenant now ms =
    ap length (entitled_when tenant now ms)
    ∙ length-take (mailbox_capacity tenant now) (sort_mailboxes ms)
    ∙ ap (min (mailbox_capacity tenant now)) (length-sort_mailboxes ms)

-- The protected mailboxes are the oldest: with the others they make up the tenant's mailboxes, and
-- each of them is no younger than each of the others.
pub entitled_are_oldest :
    (tenant : Tenant) (now : ℕ) (ms : List Mailbox)
    → (others : List Mailbox) × Perm (entitled_mailboxes tenant now ms ++ others) ms
      × AllAfter (entitled_mailboxes tenant now ms) others
entitled_are_oldest tenant now ms =
    let sorted = sort_mailboxes ms in
    let capacity = mailbox_capacity tenant now in
    (
      drop capacity sorted,
      rw (entitled_when tenant now ms, take-append-drop capacity sorted) (sort_mailboxes-perm ms),
      rw (entitled_when tenant now ms) (Sorted-split capacity sorted (sort_mailboxes-Sorted ms)),
    )

-- A tenant has capacity for mailboxes exactly when it is not suspended, is on a paid plan, and is
-- in its trial or has paid.
pub capacity_iff :
    (tenant : Tenant) (now : ℕ)
    → (0 < mailbox_capacity tenant now) ↔ (
        (suspended tenant.is_active ≡ false)
        × (elem tenant.plan ("essential" ∷ "complete" ∷ "solo" ∷ []) ≡ true)
        × ((trial_active tenant.trial_ends_at now || tenant.payment_method_ok) ≡ true))
unfolding mailbox_entitled
capacity_iff tenant now =
    ground (arith, capacity_of_lapsed tenant now, capacity_of_entitled tenant now)
