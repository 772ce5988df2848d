-- ===== src/Governance/Export.antt =====
-- Exports to a customer's own systems: server/src/envelock/governance/export.py. A text is the list of its
-- code points. What Python says of a character, its print of a number, and the keyed hash are parameters.
pub mod Cef
pub mod Fields
pub mod Csv
pub mod Signature
use Prim.Native.Char.{code}
use Prim.Native.String
use envelock.Prelude.{
  ℕ, ◌+◌, ◌*◌, Bool, true, false, not, ◌&&◌, ◌||◌, Option, none, some, List, [], ◌∷◌, ◌++◌, ◌==◌,
  if◌then◌else◌, map, String,
}
use envelock.Core.{AlertTier, low, medium, high, critical}

abbrev pub Text : Type 0
Text = List ℕ

-- The code points of a literal.
abbrev pub codes : String → Text
codes String.[] = []
codes (String.◌∷◌ c s) = code c ∷ codes s

abbrev pub newline : ℕ
newline = 10

abbrev pub carriage_return : ℕ
carriage_return = 13

-- `str.isprintable` of one character, and `str` of a whole number
pub record Python : Type 0 where
  pub printable : ℕ → Bool
  pub str_of : ℕ → Text

-- `s.replace(c, by)` for a text `c` of one character
unfoldable pub replace : ℕ → Text → Text → Text
replace c by [] = []
replace c by (x ∷ s) = if x == c then by ++ replace c by s else x ∷ replace c by s

-- `c if c.isprintable() or c == " " else " "`
unfoldable pub visible : (ℕ → Bool) → ℕ → ℕ
visible printable c = if printable c || (c == b' ') then c else b' '

-- `"".join(...)` over the characters of a value
unfoldable pub visible_text : (ℕ → Bool) → Text → Text
visible_text printable [] = []
visible_text printable (c ∷ s) = visible printable c ∷ visible_text printable s

-- `_cef_escape`
unfoldable pub cef_escape : (ℕ → Bool) → (extension : Bool) → Text → Text
cef_escape printable extension value =
    let shown = visible_text printable value in
    let out = replace b'\\' (b'\\' ∷ b'\\' ∷ []) shown in
    let marked =
      if extension
      then replace b'=' (b'\\' ∷ b'=' ∷ []) out
      else replace b'|' (b'\\' ∷ b'|' ∷ []) out in
    replace carriage_return (b' ' ∷ []) (replace newline (b' ' ∷ []) marked)

-- `AlertRecord`, less what only the other formats read; `raised_at` is in milliseconds
pub record AlertRecord : Type 0 where
  pub id : Text
  pub tier : AlertTier
  pub service : Text
  pub title : Text
  pub mailbox : Text
  pub detail : Text
  pub raised_at : ℕ
  pub state : Text

-- `_CEF_SEVERITY`
abbrev pub cef_severity : AlertTier → ℕ
cef_severity low = 3
cef_severity medium = 5
cef_severity high = 8
cef_severity critical = 10

-- `_SYSLOG_SEVERITY`
abbrev pub syslog_severity : AlertTier → ℕ
syslog_severity low = 6
syslog_severity medium = 4
syslog_severity high = 3
syslog_severity critical = 2

-- `AlertTier.value`
abbrev pub tier_value : AlertTier → Text
tier_value low = codes "low"
tier_value medium = codes "medium"
tier_value high = codes "high"
tier_value critical = codes "critical"

-- `"|".join(fields)`, with the bar that `to_cef` writes after the last one
unfoldable pub barred : List Text → Text
barred [] = []
barred (field ∷ fields) = field ++ (b'|' ∷ barred fields)

-- `f"{k}={_cef_escape(str(v), extension=True)}"` for each item, joined by spaces
unfoldable pub pairs : (ℕ → Bool) → List (Text × Text) → Text
pairs printable [] = []
pairs printable ((k, v) ∷ []) = k ++ (b'=' ∷ cef_escape printable true v)
pairs printable ((k, v) ∷ (w ∷ rest)) =
    k ++ (b'=' ∷ (cef_escape printable true v ++ (b' ' ∷ pairs printable (w ∷ rest))))

-- The seven fields of the header.
unfoldable pub cef_header : Python → (product_version : Text) → AlertRecord → List Text
cef_header py product_version alert =
    codes "CEF:0"
    ∷ codes "Envelock"
    ∷ codes "Envelock"
    ∷ product_version
    ∷ cef_escape py.printable false alert.service
    ∷ cef_escape py.printable false alert.title
    ∷ py.str_of (cef_severity alert.tier)
    ∷ []

-- `extensions`
unfoldable pub extensions : Python → AlertRecord → List (Text × Text)
extensions py alert =
    (codes "externalId", alert.id)
    ∷ (codes "rt", py.str_of alert.raised_at)
    ∷ (codes "duser", alert.mailbox)
    ∷ (codes "cs1Label", codes "detection")
    ∷ (codes "cs1", alert.service)
    ∷ (codes "cs2Label", codes "tier")
    ∷ (codes "cs2", tier_value alert.tier)
    ∷ (codes "cs3Label", codes "state")
    ∷ (codes "cs3", alert.state)
    ∷ (codes "msg", alert.detail)
    ∷ []

-- `to_cef`
unfoldable pub to_cef : Python → (product_version : Text) → AlertRecord → Text
to_cef py product_version alert =
    barred (cef_header py product_version alert) ++ pairs py.printable (extensions py alert)

-- `to_syslog`, with the time stamp as a text
unfoldable pub to_syslog : Python → (stamp hostname : Text) → (facility : ℕ) → AlertRecord → Text
to_syslog py stamp hostname facility alert =
    codes "<"
    ++ (py.str_of (facility * 8 + syslog_severity alert.tier)
        ++ (codes ">1 "
            ++ (stamp
                ++ (codes " "
                    ++ (hostname
                        ++ (codes " envelock - "
                            ++ (alert.service
                                ++ (codes " - " ++ to_cef py (codes "1.0.0") alert))))))))
