-- ===== src/Governance/Export/Signature.antt =====
-- The signature of an outbound webhook: `sign_payload` and `verify_signature` of
-- server/src/envelock/governance/export.py. The keyed hash is a parameter.
use envelock.Prelude.{
  ℕ, ◌+◌, ◌-◌, Bool, true, false, ◌&&◌, Option, none, some, [], ◌∷◌, ◌++◌, ◌==◌, ltb, all,
  if◌then◌else◌, ◌≡◌, All,
}
use envelock.Governance.Export.{Text, codes, Python}

-- `WEBHOOK_TOLERANCE_SECONDS`
abbrev pub webhook_tolerance_seconds : ℕ
webhook_tolerance_seconds = 300

unfoldable pub is_ascii : Text → Bool
is_ascii s = all (λ c. ltb c 128) s

unfoldable pub same_text : Text → Text → Bool
same_text [] [] = true
same_text [] (d ∷ t) = false
same_text (c ∷ s) [] = false
same_text (c ∷ s) (d ∷ t) = (c == d) && same_text s t

-- `hmac.compare_digest` on two texts; `none` is the TypeError for a text that is not ASCII
unfoldable pub compare_digest : Text → Text → Option Bool
compare_digest a b = if is_ascii a && is_ascii b then some (same_text a b) else none

-- `abs(current - timestamp)`
unfoldable pub distance : ℕ → ℕ → ℕ
distance a b = (a - b) + (b - a)

-- `hmac_sha256 secret message` is the hexadecimal digest.
module _ (py : Python) (hmac_sha256 : Text → Text → Text) where
  -- `sign_payload`, for a given time stamp
  unfoldable pub sign_payload : (secret payload : Text) → (timestamp : ℕ) → Text
  sign_payload secret payload timestamp =
      codes "v1=" ++ hmac_sha256 secret (py.str_of timestamp ++ (codes "." ++ payload))

  -- `verify_signature`
  unfoldable pub verify_signature :
      (secret payload signature : Text) → (timestamp now tolerance : ℕ) → Option Bool
  verify_signature secret payload signature timestamp now tolerance =
      if ltb tolerance (distance now timestamp)
      then some false
      else compare_digest (sign_payload secret payload timestamp) signature

-- What stands before the first dot, and after it.
abbrev before_dot : Text → Text
before_dot [] = []
before_dot (c ∷ s) = if c == b'.' then [] else c ∷ before_dot s

abbrev after_dot : Text → Text
after_dot [] = []
after_dot (c ∷ s) = if c == b'.' then s else after_dot s

abbrev pub HasNoDot : Text → Type 0
HasNoDot s = All (λ c. (c == b'.') ≡ false) s

-- The text less its first three characters.
abbrev digest_of : Text → Text
digest_of (a ∷ b ∷ c ∷ digest) = digest
digest_of _ = []
