-- ===== src/Billing/Entitlement.antt =====
-- Who may protect how many mailboxes: server/src/envelock/billing/entitlement.py.
pub mod Oldest
use envelock.Prelude.{
  ℕ, ◌+◌, String, Bool, true, false, not, ◌&&◌, ◌||◌, Option, none, some, List, [], ◌∷◌, str_eq,
  ltb, leb, take, elem, if◌then◌else◌,
}
use envelock.Prelude.Int.{ℤ, pos_part}
use envelock.Billing.Pricing.{included_mailbox_seats}

-- The fields of `Tenant` that billing reads; the end of the trial is an instant in UTC.
pub record Tenant : Type 0 where
  pub is_active : Option Bool
  pub plan : String
  pub trial_ends_at : Option ℕ
  pub payment_method_ok : Bool
  pub extra_mailbox_seats : Option ℤ

-- `tenant.is_active is False`
abbrev pub suspended : Option Bool → Bool
suspended (some false) = true
suspended _ = false

-- `bool(ends and ends > now)`
abbrev pub trial_active : Option ℕ → ℕ → Bool
trial_active none now = false
trial_active (some ends) now = ltb now ends

-- `mailbox_entitled`
unfoldable pub mailbox_entitled : Tenant → ℕ → Bool
mailbox_entitled tenant now =
    if suspended tenant.is_active
    then false
    else if not (elem tenant.plan ("essential" ∷ "complete" ∷ "solo" ∷ []))
    then false
    else trial_active tenant.trial_ends_at now || tenant.payment_method_ok

-- `effective_plan`
unfoldable pub effective_plan : Tenant → ℕ → String
effective_plan tenant now = if mailbox_entitled tenant now then tenant.plan else "guard"

-- `max(0, tenant.extra_mailbox_seats or 0)`
abbrev pub extra_seats : Option ℤ → ℕ
extra_seats none = 0
extra_seats (some n) = pos_part n

-- `mailbox_capacity`
unfoldable pub mailbox_capacity : Tenant → ℕ → ℕ
mailbox_capacity tenant now =
    let plan = effective_plan tenant now in
    if str_eq plan "guard"
    then 0
    else included_mailbox_seats plan + extra_seats tenant.extra_mailbox_seats

-- A mailbox by its number, which orders as its hexadecimal digits do, and its time of creation.
pub record Mailbox : Type 0 where
  pub id : ℕ
  pub created_at : Option ℕ

-- `m.created_at or datetime.min`, on instants counted from `datetime.min`. The column is not null, so that the
-- default, which Python could not compare with a time that has a zone, is never taken of a stored row.
abbrev pub created : Mailbox → ℕ
created m = elim m.created_at [ none ↦ 0 | some t ↦ t ]

-- `(created, id) <= (created, id)`, on pairs
unfoldable pub not_after : Mailbox → Mailbox → Bool
not_after m n =
    if ltb (created m) (created n)
    then true
    else if ltb (created n) (created m)
    then false
    else leb m.id n.id

unfoldable pub insert_mailbox : Mailbox → List Mailbox → List Mailbox
insert_mailbox m [] = m ∷ []
insert_mailbox m (n ∷ ns) = if not_after m n then m ∷ n ∷ ns else n ∷ insert_mailbox m ns

-- `sorted(mailboxes, key=...)`
unfoldable pub sort_mailboxes : List Mailbox → List Mailbox
sort_mailboxes [] = []
sort_mailboxes (m ∷ ms) = insert_mailbox m (sort_mailboxes ms)

-- `entitled_mailboxes`
unfoldable pub entitled_mailboxes : Tenant → ℕ → List Mailbox → List Mailbox
entitled_mailboxes tenant now mailboxes =
    if not (mailbox_entitled tenant now)
    then []
    else take (mailbox_capacity tenant now) (sort_mailboxes mailboxes)
