-- ===== src/Governance/Export/Csv.antt =====
-- Cells of a CSV export: `csv_safe` of server/src/envelock/governance/export.py.
use envelock.Prelude.{
  ℕ, Bool, false, ◌&&◌, ◌||◌, [], ◌∷◌, ◌++◌, ◌==◌, if◌then◌else◌, All, is_empty, ◌≡◌, ◌≢◌, refl,
  arith, Bool-cases, inl, inr,
}
use envelock.Governance.Export.{Text, newline, carriage_return, replace}
use envelock.Governance.Export.Fields.{IsOneLine}

-- `s.replace("\r\n", " ")`
unfoldable pub replace_crlf : Text → Text
replace_crlf [] = []
replace_crlf (c ∷ []) = c ∷ []
replace_crlf (c ∷ (d ∷ s)) =
    let after = replace_crlf s in
    let rest = replace_crlf (d ∷ s) in
    if (c == carriage_return) && (d == newline) then b' ' ∷ after else c ∷ rest

-- `text.startswith(_FORMULA_PREFIXES)`
unfoldable pub starts_formula : Text → Bool
starts_formula [] = false
starts_formula (c ∷ s) =
    (c == b'=') || (c == b'+') || (c == b'-') || (c == b'@') || (c == 9) || (c == carriage_return)

-- `csv_safe`
unfoldable pub csv_safe : Text → Text
csv_safe value =
    let text =
      replace carriage_return (b' ' ∷ []) (replace newline (b' ' ∷ []) (replace_crlf value)) in
    if is_empty value then value else if starts_formula text then b'\'' ∷ text else text

-- The text does not have the character.
abbrev Lacks : ℕ → Text → Type 0
Lacks x = All (λ c. c ≢ x)

append-Lacks : (x : ℕ) (s t : Text) → Lacks x s → Lacks x t → Lacks x (s ++ t)
append-Lacks x [] t hs ht = ht
append-Lacks x (y ∷ s) t (h, hs) ht = (h, append-Lacks x s t hs ht)

replace-Lacks : (x c : ℕ) (by : Text) (s : Text) → Lacks x s → Lacks x by → Lacks x (replace c by s)
unfolding replace
replace-Lacks x c by [] hs hb = tt
replace-Lacks x c by (y ∷ s) (h, hs) hb = elim (Bool-cases (y == c)) [
  | inl e ↦ rw e (append-Lacks x by _ hb (replace-Lacks x c by s hs hb))
  | inr e ↦ rw e (h, replace-Lacks x c by s hs hb)
]

replace_self-Lacks : (c d : ℕ) (s : Text) → d ≢ c → Lacks c (replace c (d ∷ []) s)
unfolding replace
replace_self-Lacks c d [] n = tt
replace_self-Lacks c d (y ∷ s) n = elim (Bool-cases (y == c)) [
  | inl e ↦ rw e (n, replace_self-Lacks c d s n)
  | inr e ↦ rw e (ground (arith, e), replace_self-Lacks c d s n)
]

both-IsOneLine : (s : Text) → Lacks newline s → Lacks carriage_return s → IsOneLine s
both-IsOneLine [] hn hr = tt
both-IsOneLine (c ∷ s) (n, hn) (r, hr) = ((n, r), both-IsOneLine s hn hr)

-- The text of `csv_safe`.
flat : Text → Text
flat value = replace carriage_return (b' ' ∷ []) (replace newline (b' ' ∷ []) (replace_crlf value))

flat-IsOneLine : (value : Text) → IsOneLine (flat value)
unfolding flat
flat-IsOneLine value =
    let s = replace_crlf value in
    both-IsOneLine _
      (replace-Lacks newline carriage_return (b' ' ∷ []) _
        (replace_self-Lacks newline b' ' s (ground arith)) (ground arith, tt))
      (replace_self-Lacks carriage_return b' ' (replace newline (b' ' ∷ []) s) (ground arith))

-- A cell of an export does not start a formula, and is one line, whatever the alert says.
pub csv_cell_inert :
    (value : Text) → (starts_formula (csv_safe value) ≡ false) × IsOneLine (csv_safe value)
unfolding csv_safe starts_formula flat
csv_cell_inert [] = (refl, tt)
csv_cell_inert (c ∷ s) = elim (Bool-cases (starts_formula (flat (c ∷ s)))) [
  | inl e ↦ rw e (refl, (ground arith, flat-IsOneLine (c ∷ s)))
  | inr e ↦ rw e (e, flat-IsOneLine (c ∷ s))
]
