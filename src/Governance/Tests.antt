-- ===== src/Governance/Tests.antt =====
-- The properties of the exports at concrete inputs.
use envelock.Prelude.{
  ℕ, zero, suc, if◌then◌else◌, ◌==◌, ◌≡◌, arith, true, false, [], ◌∷◌, ◌++◌, leb, ltb, ◌&&◌,
}
use envelock.Core.{critical}
use envelock.Governance.Export.{
  Python, AlertRecord, Text, codes, cef_severity, pairs, extensions, to_cef,
}
use envelock.Governance.Export.Cef.{read_fields, shown_text, cef_header_recovered}
use envelock.Governance.Export.Fields.{
  bare_equals, extension_pairs_exact, IsOneLine, to_cef-IsOneLine,
}
use envelock.Governance.Export.Csv.{csv_safe, starts_formula, csv_cell_inert}

-- ASCII characters are printable from the space on, and every number is printed as one digit.
abbrev ascii : Python
ascii = record { printable = λ c. leb 32 c && ltb c 127; str_of = λ n. codes "7" }

-- A title that tries to close its field and to open another line.
abbrev hostile : AlertRecord
hostile = record {
  id = codes "a1";
  tier = critical;
  service = codes "A1";
  title = codes "paid|10|msg=ok\\" ++ (10 ∷ codes "CEF:0|x");
  mailbox = codes "pay@acme.example";
  detail = codes "=cmd";
  raised_at = 7;
  state = codes "open";
}

cef_header_recovered_example : read_fields 7 (to_cef ascii (codes "1.0.0") hostile) ≡ (
  codes "CEF:0"
      ∷ codes "Envelock"
      ∷ codes "Envelock"
      ∷ codes "1.0.0"
      ∷ shown_text ascii.printable hostile.service
      ∷ shown_text ascii.printable hostile.title
      ∷ ascii.str_of (cef_severity hostile.tier)
      ∷ [],
  pairs ascii.printable (extensions ascii hostile),
)
cef_header_recovered_example =
    cef_header_recovered ascii (codes "1.0.0") hostile (λ n. ground arith) (ground arith)

extension_pairs_exact_example :
    bare_equals (pairs ascii.printable (extensions ascii hostile)) false ≡ 10
extension_pairs_exact_example = extension_pairs_exact ascii hostile

to_cef-IsOneLine_example : IsOneLine (to_cef ascii (codes "1.0.0") hostile)
to_cef-IsOneLine_example =
    to_cef-IsOneLine ascii (codes "1.0.0") hostile (λ n. ground arith) (ground arith)

csv_cell_inert_example :
    (starts_formula (csv_safe hostile.detail) ≡ false) × IsOneLine (csv_safe hostile.detail)
csv_cell_inert_example = csv_cell_inert hostile.detail

abbrev ones : ℕ → Text → Text
ones zero s = s
ones (suc n) s = b'1' ∷ ones n s

-- Numbers in unary.
abbrev unary : Python
unary = record { printable = λ c. true; str_of = λ n. ones n [] }

-- A hash that hides nothing: each character in unary.
abbrev spelt : Text → Text
spelt [] = []
spelt (c ∷ s) = ones c (b'0' ∷ spelt s)

abbrev keyless : Text → Text → Text
keyless secret message = spelt message

abbrev read : ℕ → Text → Text
read n [] = []
read n (c ∷ s) = if c == b'1' then read (suc n) s else n ∷ read 0 s

abbrev stamp : ℕ
stamp = 3
