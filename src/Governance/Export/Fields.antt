-- ===== src/Governance/Export/Fields.antt =====
-- What an attacker's text can add to a line of `to_cef` of server/src/envelock/governance/export.py:
-- neither a field of the extension nor a second line.
use envelock.Prelude.{
  ℕ, suc, ◌≤◌, Bool, true, false, List, [], ◌∷◌, ◌++◌, ◌==◌, if◌then◌else◌, All, ◌≡◌, ◌≢◌, refl,
  subst, arith,
}
use mathlib.Core.List.{flat_map, append_assoc, append-nil}
use envelock.Governance.Export.{
  Text, newline, carriage_return, Python, cef_escape, AlertRecord, cef_severity, barred, pairs,
  cef_header, extensions, to_cef,
}
use envelock.Governance.Export.Cef.{hide, shown, mark_of, cef_escape-flat_map, HasDigits}

-- The equals signs that no backslash stands before. The last argument says that a backslash was just read.
unfoldable pub bare_equals : Text → (escaped : Bool) → ℕ
bare_equals [] escaped = 0
bare_equals (c ∷ s) true = bare_equals s false
bare_equals (c ∷ s) false =
    let escape = bare_equals s true in
    let rest = bare_equals s false in
    if c == b'\\' then escape else if c == b'=' then suc rest else rest

bare_equals-hide :
    (printable : ℕ → Bool) (c : ℕ) (rest : Text)
    → bare_equals (hide b'=' printable c ++ rest) false ≡ bare_equals rest false
unfolding bare_equals hide
bare_equals-hide printable c rest = ground arith

bare_equals-flat_map :
    (printable : ℕ → Bool) (s rest : Text)
    → bare_equals (flat_map (hide b'=' printable) s ++ rest) false ≡ bare_equals rest false
unfolding flat_map
bare_equals-flat_map printable [] rest = refl
bare_equals-flat_map printable (c ∷ s) rest =
    simp (append_assoc, bare_equals-hide, bare_equals-flat_map printable s rest)

bare_equals-escaped :
    (printable : ℕ → Bool) (s rest : Text)
    → bare_equals (cef_escape printable true s ++ rest) false ≡ bare_equals rest false
bare_equals-escaped printable s rest =
    rw (cef_escape-flat_map true printable s) (bare_equals-flat_map printable s rest)

bare_equals-last :
    (printable : ℕ → Bool) (s : Text) → bare_equals (cef_escape printable true s) false ≡ 0
unfolding bare_equals
bare_equals-last printable s =
    subst (λ t. bare_equals t false ≡ 0) (append-nil (cef_escape printable true s))
      (bare_equals-escaped printable s [])

-- The extension of a line has exactly its ten fields, whatever the alert says: an equals sign in a value is
-- escaped.
pub extension_pairs_exact :
    (py : Python) (alert : AlertRecord)
    → bare_equals (pairs py.printable (extensions py alert)) false ≡ 10
unfolding pairs extensions bare_equals
extension_pairs_exact py alert = simp (bare_equals-escaped, bare_equals-last)

-- The text has no end of a line.
abbrev pub IsOneLine : Text → Type 0
IsOneLine = All (λ c. (c ≢ newline) × (c ≢ carriage_return))

append-IsOneLine : (s t : Text) → IsOneLine s → IsOneLine t → IsOneLine (s ++ t)
append-IsOneLine [] t hs ht = ht
append-IsOneLine (c ∷ s) t (h, hs) ht = (h, append-IsOneLine s t hs ht)

hide-IsOneLine :
    (ext : Bool) (printable : ℕ → Bool) (c : ℕ) → IsOneLine (hide (mark_of ext) printable c)
unfolding hide shown
hide-IsOneLine true printable c = ground arith
hide-IsOneLine false printable c = ground arith

flat_map-IsOneLine :
    (ext : Bool) (printable : ℕ → Bool) (s : Text)
    → IsOneLine (flat_map (hide (mark_of ext) printable) s)
unfolding flat_map
flat_map-IsOneLine ext printable [] = tt
flat_map-IsOneLine ext printable (c ∷ s) =
    append-IsOneLine (hide (mark_of ext) printable c) (flat_map (hide (mark_of ext) printable) s)
      (hide-IsOneLine ext printable c) (flat_map-IsOneLine ext printable s)

cef_escape-IsOneLine :
    (ext : Bool) (printable : ℕ → Bool) (s : Text) → IsOneLine (cef_escape printable ext s)
cef_escape-IsOneLine ext printable s =
    rw (cef_escape-flat_map ext printable s) (flat_map-IsOneLine ext printable s)

barred-IsOneLine : (fields : List Text) → All IsOneLine fields → IsOneLine (barred fields)
unfolding barred
barred-IsOneLine [] h = tt
barred-IsOneLine (field ∷ fields) (h, hs) =
    append-IsOneLine field (b'|' ∷ barred fields) h (ground arith, barred-IsOneLine fields hs)

pairs-IsOneLine :
    (printable : ℕ → Bool) (ps : List (Text × Text))
    → All (λ p. IsOneLine p.0) ps
    → IsOneLine (pairs printable ps)
unfolding pairs
pairs-IsOneLine printable [] h = tt
pairs-IsOneLine printable ((k, v) ∷ []) (h, _) =
    append-IsOneLine k _ h (ground arith, cef_escape-IsOneLine true printable v)
pairs-IsOneLine printable ((k, v) ∷ (w ∷ rest)) (h, hs) = append-IsOneLine k _ h (
  ground arith,
  append-IsOneLine (cef_escape printable true v) _ (cef_escape-IsOneLine true printable v)
      (ground arith, pairs-IsOneLine printable (w ∷ rest) hs),
)

digits-IsOneLine : (s : Text) → All (λ c. (b'0' ≤ c) × (c ≤ b'9')) s → IsOneLine s
digits-IsOneLine [] h = tt
digits-IsOneLine (c ∷ s) (h, hs) = (ground (arith, h), digits-IsOneLine s hs)

-- A line of CEF has no end of a line in it, whatever the alert says: it cannot forge a second record. `str` of
-- a number is made of digits, and the version is one line.
pub to_cef-IsOneLine :
    (py : Python) (version : Text) (alert : AlertRecord)
    → HasDigits py
    → IsOneLine version
    → IsOneLine (to_cef py version alert)
unfolding to_cef cef_header extensions
to_cef-IsOneLine py version alert digits line =
    append-IsOneLine (barred (cef_header py version alert)) _
      (barred-IsOneLine (cef_header py version alert) (
        ground arith,
        (
          ground arith,
          (
            ground arith,
            (
              line,
              (
                cef_escape-IsOneLine false py.printable alert.service,
                (
                  cef_escape-IsOneLine false py.printable alert.title,
                  (digits-IsOneLine _ (digits (cef_severity alert.tier)), tt),
                ),
              ),
            ),
          ),
        ),
      ))
      (pairs-IsOneLine py.printable (extensions py alert) (ground arith))
