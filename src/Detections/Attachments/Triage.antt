-- ===== src/Detections/Attachments/Triage.antt =====
-- Layers 1 to 3 of the attachment cascade: `static_triage` and `AttachmentCascade.analyse`.
use Prim.Native.Char.{code}
use Prim.Native.String
use envelock.Prelude.{
  ℕ, String, Bool, true, false, not, ◌&&◌, ◌||◌, Option, none, some, List, [], ◌∷◌, ◌++◌, ◌==◌,
  str_eq, any, keep, is_empty, take, if◌then◌else◌,
}
use envelock.Detections.Attachments.{
  Verdict, clean, suspicious, malicious, unknown, worse, StaticVerdict,
}

-- The bytes of a text of ASCII characters: `b"..."`
unfoldable pub bytes_of : String → List ℕ
bytes_of String.[] = []
bytes_of (String.◌∷◌ c s) = code c ∷ bytes_of s

-- `xs.startswith(ys)`
unfoldable pub starts_with : List ℕ → List ℕ → Bool
starts_with xs [] = true
starts_with [] (y ∷ ys) = false
starts_with (x ∷ xs) (y ∷ ys) = (x == y) && starts_with xs ys

-- `ys in xs`
unfoldable pub contains : List ℕ → List ℕ → Bool
contains [] ys = starts_with [] ys
contains (x ∷ xs) ys = starts_with (x ∷ xs) ys || contains xs ys

-- `s.endswith(t)`
unfoldable pub ends_with : String → String → Bool
ends_with String.[] t = str_eq String.[] t
ends_with (String.◌∷◌ c s) t = str_eq (String.◌∷◌ c s) t || ends_with s t

-- `_EXECUTABLE_MAGIC`
unfoldable pub executable_magic : List (List ℕ × String)
executable_magic =
    (77 ∷ 90 ∷ [], "Windows executable")
    ∷ (127 ∷ 69 ∷ 76 ∷ 70 ∷ [], "Linux executable")
    ∷ (202 ∷ 254 ∷ 186 ∷ 190 ∷ [], "Mach-O executable")
    ∷ []

-- `_RISKY_EXT`
unfoldable pub risky_ext : List String
risky_ext =
    ".exe" ∷ ".scr" ∷ ".com" ∷ ".pif" ∷ ".bat" ∷ ".cmd" ∷ ".js" ∷ ".jse" ∷ ".vbs" ∷ ".wsf" ∷ ".hta"
    ∷ ".lnk" ∷ ".iso" ∷ ".img" ∷ ".vhd" ∷ ".ps1" ∷ ".msi" ∷ ".one" ∷ []

-- `_MACRO_MAGIC`
abbrev pub macro_magic : List ℕ
macro_magic = 208 ∷ 207 ∷ 17 ∷ 224 ∷ []

-- `_PDF_ACTIONS`
unfoldable pub pdf_actions : List String
pdf_actions = "/JavaScript" ∷ "/JS" ∷ "/Launch" ∷ "/OpenAction" ∷ "/EmbeddedFile" ∷ []

-- The label of the first magic that the payload starts with: the first loop of `static_triage`.
unfoldable pub magic_label : List ℕ → List (List ℕ × String) → Option String
magic_label payload [] = none
magic_label payload ((magic, label) ∷ more) =
    if starts_with payload magic then some label else magic_label payload more

-- The reasons and the verdict that `static_triage` carries through its checks.
abbrev pub Triage : Type 0
Triage = List String × Verdict

unfoldable pub check_magic : Option String → Triage → Triage
check_magic none t = t
check_magic (some label) t = (t.0 ++ (String.◌++◌ label " content" ∷ []), malicious)

unfoldable pub check_extension : Bool → Triage → Triage
check_extension risky t =
    if risky then (t.0 ++ ("executable or script extension" ∷ []), worse t.1 suspicious) else t

unfoldable pub check_image : Bool → Triage → Triage
check_image disguised t =
    if disguised then (t.0 ++ ("claims to be an image but is not" ∷ []), malicious) else t

unfoldable pub check_macro : Bool → Triage → Triage
check_macro capable t =
    if capable then (t.0 ++ ("macro-capable Office document" ∷ []), worse t.1 suspicious) else t

-- `", ".join(hits)`
unfoldable pub join_hits : List String → String
join_hits [] = ""
join_hits (h ∷ []) = h
join_hits (h ∷ k ∷ hs) = String.◌++◌ h (String.◌++◌ ", " (join_hits (k ∷ hs)))

unfoldable pub check_pdf : List String → Triage → Triage
check_pdf [] t = t
check_pdf (h ∷ hits) t = (
  t.0 ++ (String.◌++◌ "PDF with active content (" (String.◌++◌ (join_hits (h ∷ hits)) ")") ∷ []),
  worse t.1 suspicious,
)

unfoldable pub conclude : List ℕ → Triage → StaticVerdict
conclude payload (reasons, verdict) =
    if is_empty reasons && not (is_empty payload)
    then record { verdict = clean; reasons = "no static indicators" ∷ [] }
    else record { verdict = verdict; reasons = reasons }

abbrev pub claims_image : Option String → Bool
claims_image none = false
claims_image (some mime) = starts_with (bytes_of mime) (bytes_of "image/")

abbrev pub pdf_hits : List ℕ → List String
pdf_hits payload =
    if starts_with payload (bytes_of "%PDF")
    then keep (λ a. contains (take 200000 payload) (bytes_of a)) pdf_actions
    else []

-- `static_triage`; `name` is the file's name in lower case
unfoldable pub static_triage :
    (name : String) (payload : List ℕ) (declared_mime : Option String) → StaticVerdict
static_triage name payload declared_mime = conclude payload (
    check_pdf (pdf_hits payload) (
      check_macro
        (starts_with payload macro_magic
          || any (λ e. ends_with name e) (".docm" ∷ ".xlsm" ∷ ".pptm" ∷ []))
        (check_image
          (claims_image declared_mime
            && (starts_with payload (bytes_of "MZ") || starts_with payload (bytes_of "PK")))
          (check_extension (any (λ e. ends_with name e) risky_ext)
            (check_magic (magic_label payload executable_magic) ([], unknown))))))
