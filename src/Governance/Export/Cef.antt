-- ===== src/Governance/Export/Cef.antt =====
-- Reading a header back: a reader of CEF for `to_cef` of server/src/envelock/governance/export.py.
use envelock.Prelude.{
  ℕ, zero, suc, Bool, true, false, ◌||◌, List, [], ◌∷◌, ◌++◌, ◌==◌, ◌≤◌, if◌then◌else◌, length, All,
  ◌≡◌, ◌≢◌, refl, sym, ap, ◌∙◌, arith, Bool-cases, inl, inr,
}
use mathlib.Core.List.{flat_map, append_assoc}
use envelock.Governance.Export.{
  Text, codes, newline, carriage_return, Python, replace, visible, visible_text, cef_escape,
  AlertRecord, cef_severity, barred, pairs, cef_header, extensions, to_cef,
}

-- What a reader of CEF takes for one field: up to the first bar that no backslash stands before. The last
-- argument says that a backslash was just read.
unfoldable pub read_field : Text → (escaped : Bool) → Text × Text
read_field [] escaped = ([], [])
read_field (c ∷ s) true = let (field, rest) = read_field s false in (c ∷ field, rest)
read_field (c ∷ s) false =
    let escape = read_field s true in
    let (field, rest) = read_field s false in
    if c == b'\\' then escape else if c == b'|' then ([], s) else (c ∷ field, rest)

unfoldable pub read_fields : ℕ → Text → List Text × Text
read_fields zero s = ([], s)
read_fields (suc n) s =
    let (field, rest) = read_field s false in
    let (fields, last) = read_fields n rest in (field ∷ fields, last)

-- A character as an export shows it: unprintable ones, and the ends of lines, as a space.
unfoldable pub shown : (ℕ → Bool) → ℕ → ℕ
shown printable c =
    let v = visible printable c in if (v == newline) || (v == carriage_return) then b' ' else v

-- What the escape writes for one character of a header field.
unfoldable pub hide : (mark : ℕ) → (ℕ → Bool) → ℕ → Text
hide mark printable c =
    let v = shown printable c in if (v == b'\\') || (v == mark) then b'\\' ∷ v ∷ [] else v ∷ []

replace-append : (c : ℕ) (by s t : Text) → replace c by (s ++ t) ≡ replace c by s ++ replace c by t
unfolding replace
replace-append c by [] t = refl
replace-append c by (x ∷ s) t = elim (Bool-cases (x == c)) [
  | inl h ↦ rw h (ap (λ u. by ++ u) (replace-append c by s t) ∙ sym (append_assoc by _ _))
  | inr h ↦ rw h (ap (λ u. x ∷ u) (replace-append c by s t))
]

-- The replacements of `_cef_escape`, for the mark of a header or of an extension.
abbrev pub mark_of : (extension : Bool) → ℕ
mark_of true = b'='
mark_of false = b'|'

written : (mark : ℕ) → Text → Text
written mark s = replace carriage_return (b' ' ∷ []) (
    replace newline (b' ' ∷ [])
      (replace mark (b'\\' ∷ mark ∷ []) (replace b'\\' (b'\\' ∷ b'\\' ∷ []) s)))

written-append : (mark : ℕ) (s t : Text) → written mark (s ++ t) ≡ written mark s ++ written mark t
unfolding written
written-append mark s t = simp replace-append

written_one :
    (ext : Bool) (printable : ℕ → Bool) (c : ℕ)
    → written (mark_of ext) (visible printable c ∷ []) ≡ hide (mark_of ext) printable c
unfolding written hide shown replace
written_one true printable c = ground arith
written_one false printable c = ground arith

cef_escape-written :
    (ext : Bool) (printable : ℕ → Bool) (s : Text)
    → cef_escape printable ext s ≡ written (mark_of ext) (visible_text printable s)
unfolding cef_escape written
cef_escape-written true printable s = refl
cef_escape-written false printable s = refl

written_nil : (ext : Bool) → written (mark_of ext) [] ≡ []
unfolding written replace
written_nil ext = refl

escape-flat_map :
    (ext : Bool) (printable : ℕ → Bool) (s : Text)
    → written (mark_of ext) (visible_text printable s) ≡ flat_map (hide (mark_of ext) printable) s
unfolding flat_map visible_text
escape-flat_map ext printable [] = written_nil ext
escape-flat_map ext printable (c ∷ s) =
    written-append (mark_of ext) (visible printable c ∷ []) (visible_text printable s)
    ∙ (ap (λ u. u ++ written (mark_of ext) (visible_text printable s)) (written_one ext printable c)
        ∙ ap (λ u. hide (mark_of ext) printable c ++ u) (escape-flat_map ext printable s))

-- What `_cef_escape` writes, character by character.
pub cef_escape-flat_map :
    (ext : Bool) (printable : ℕ → Bool) (s : Text)
    → cef_escape printable ext s ≡ flat_map (hide (mark_of ext) printable) s
cef_escape-flat_map ext printable s =
    cef_escape-written ext printable s ∙ escape-flat_map ext printable s

read_field-hide :
    (printable : ℕ → Bool) (c : ℕ) (rest : Text)
    → read_field (hide b'|' printable c ++ rest) false
      ≡ (let (field, left) = read_field rest false in (shown printable c ∷ field, left))
unfolding read_field hide
read_field-hide printable c rest = ground arith

unfoldable pub shown_text : (ℕ → Bool) → Text → Text
shown_text printable [] = []
shown_text printable (c ∷ s) = shown printable c ∷ shown_text printable s

read_field-flat_map :
    (printable : ℕ → Bool) (s rest : Text)
    → read_field (flat_map (hide b'|' printable) s ++ (b'|' ∷ rest)) false
      ≡ (shown_text printable s, rest)
unfolding flat_map read_field shown_text
read_field-flat_map printable [] rest = refl
read_field-flat_map printable (c ∷ s) rest =
    simp (append_assoc, read_field-hide, read_field-flat_map printable s rest)

read_field-escaped :
    (printable : ℕ → Bool) (s rest : Text)
    → read_field (cef_escape printable false s ++ (b'|' ∷ rest)) false
      ≡ (shown_text printable s, rest)
read_field-escaped printable s rest =
    rw (cef_escape-flat_map false printable s) (read_field-flat_map printable s rest)

-- A text without a bar and without a backslash.
abbrev pub IsPlain : Text → Type 0
IsPlain = All (λ c. (c ≢ b'|') × (c ≢ b'\\'))

-- `str` of a whole number is made of digits.
abbrev pub HasDigits : Python → Type 0
HasDigits py = (n : ℕ) → All (λ c. (b'0' ≤ c) × (c ≤ b'9')) (py.str_of n)

digits-IsPlain : (s : Text) → All (λ c. (b'0' ≤ c) × (c ≤ b'9')) s → IsPlain s
digits-IsPlain [] h = tt
digits-IsPlain (c ∷ s) (h, hs) = (ground (arith, h), digits-IsPlain s hs)

read_field-plain : (s rest : Text) → IsPlain s → read_field (s ++ (b'|' ∷ rest)) false ≡ (s, rest)
unfolding read_field
read_field-plain [] rest h = refl
read_field-plain (c ∷ s) rest (h, hs) = ground (arith, h, read_field-plain s rest hs)

-- A reader of CEF takes the first text of the pair, and a bar, for the second.
IsRead : Text × Text → Type 0
IsRead p = (rest : Text) → read_field (p.0 ++ (b'|' ∷ rest)) false ≡ (p.1, rest)

abbrev firsts : List (Text × Text) → List Text
firsts [] = []
firsts (p ∷ ps) = p.0 ∷ firsts ps

abbrev seconds : List (Text × Text) → List Text
seconds [] = []
seconds (p ∷ ps) = p.1 ∷ seconds ps

read_fields-barred :
    (ps : List (Text × Text)) (rest : Text)
    → All IsRead ps
    → read_fields (length ps) (barred (firsts ps) ++ rest) ≡ (seconds ps, rest)
unfolding read_fields barred IsRead
read_fields-barred [] rest h = refl
read_fields-barred (p ∷ ps) rest (h, hs) = rw (append_assoc, h, read_fields-barred ps rest hs) refl

-- Reading the seven fields of a header of CEF back gives the product, its version, the service, the title and
-- the severity, with nothing but unprintable characters and ends of lines shown as spaces, whatever the
-- service and the title are; the extension follows untouched. `str` of a number is made of digits, and
-- the version has no bar and no backslash.
pub cef_header_recovered :
    (py : Python) (version : Text) (alert : AlertRecord)
    → HasDigits py
    → IsPlain version
    → read_fields 7 (to_cef py version alert) ≡ (
      codes "CEF:0"
          ∷ codes "Envelock"
          ∷ codes "Envelock"
          ∷ version
          ∷ shown_text py.printable alert.service
          ∷ shown_text py.printable alert.title
          ∷ py.str_of (cef_severity alert.tier)
          ∷ [],
      pairs py.printable (extensions py alert),
    )
unfolding to_cef cef_header IsRead
cef_header_recovered py version alert digits plain =
    let fixed : (s : Text) → IsPlain s → IsRead (s, s) = λ s p rest. read_field-plain s rest p in
    let escaped : (s : Text) → IsRead (cef_escape py.printable false s, shown_text py.printable s) =
      λ s rest. read_field-escaped py.printable s rest in
    let severity = py.str_of (cef_severity alert.tier) in
    read_fields-barred
      ((codes "CEF:0", codes "CEF:0")
        ∷ (codes "Envelock", codes "Envelock")
        ∷ (codes "Envelock", codes "Envelock")
        ∷ (version, version)
        ∷ (cef_escape py.printable false alert.service, shown_text py.printable alert.service)
        ∷ (cef_escape py.printable false alert.title, shown_text py.printable alert.title)
        ∷ (severity, severity)
        ∷ [])
      (pairs py.printable (extensions py alert))
      (
        fixed _ (ground arith),
        (
          fixed _ (ground arith),
          (
            fixed _ (ground arith),
            (
              fixed version plain,
              (
                escaped alert.service,
                (
                  escaped alert.title,
                  (fixed severity (digits-IsPlain severity (digits (cef_severity alert.tier))), tt),
                ),
              ),
            ),
          ),
        ),
      )
