-- ===== src/Core/Capabilities/Sets.antt =====
-- Capabilities as sets: union over the sources, and inclusion.
use envelock.Prelude.{
  ◌≡◌, refl, ap, ◌∙◌, Bool, true, not, ◌&&◌, ◌||◌, List, [], ◌∷◌, ◌++◌, ◌==◌, ==_iff, any, keep,
  arith,
}
use envelock.Core.{SourceMechanism}
use envelock.Core.Capabilities.{
  Capability, position, has, covers, mechanism_capabilities, capabilities_for,
}

has-append : (c : Capability) (xs ys : List Capability) → has c (xs ++ ys) ≡ (has c xs || has c ys)
unfolding has
has-append c [] ys = refl
has-append c (x ∷ xs) ys = ground (arith, has-append c xs ys)

-- A capability is present when one of the sources grants it.
pub has-capabilities_for :
    (c : Capability) (sources : List SourceMechanism)
    → has c (capabilities_for sources) ≡ any (λ s. has c (mechanism_capabilities s)) sources
unfolding capabilities_for has
has-capabilities_for c [] = refl
has-capabilities_for c (s ∷ sources) =
    has-append c (mechanism_capabilities s) (capabilities_for sources)
    ∙ ap (λ b. has c (mechanism_capabilities s) || b) (has-capabilities_for c sources)

-- Inclusion of capabilities, as a statement.
abbrev pub Within : List Capability → List Capability → Type 0
Within xs ys = (c : Capability) → has c xs ≡ true → has c ys ≡ true

pub covers_mono :
    (xs ys required : List Capability)
    → Within xs ys
    → covers xs required ≡ true
    → covers ys required ≡ true
unfolding covers
covers_mono xs ys [] w h = refl
covers_mono xs ys (c ∷ cs) w h = ground (arith, w c, covers_mono xs ys cs w)

pub Within-append_left : (xs ys : List Capability) → Within xs (ys ++ xs)
Within-append_left xs ys c h = ground (arith, has-append c ys xs)

pub Within-append_right : (xs ys : List Capability) → Within xs (xs ++ ys)
Within-append_right xs ys c h = ground (arith, has-append c xs ys)

pub any-congr {ℓ} :
    {A : Type ℓ} (p q : A → Bool) (xs : List A) → ((x : A) → p x ≡ q x) → any p xs ≡ any q xs
any-congr p q [] h = refl
any-congr p q (x ∷ xs) h = cc (h x, any-congr p q xs h)

pub any_mono {ℓ} :
    {A : Type ℓ} (p q : A → Bool) (xs : List A)
    → ((x : A) → p x ≡ true → q x ≡ true)
    → any p xs ≡ true
    → any q xs ≡ true
any_mono p q [] h e = e
any_mono p q (x ∷ xs) h e = ground (arith, h x, any_mono p q xs h)

-- Equal positions, equal membership.
has_of_position :
    (c d : Capability) (xs : List Capability)
    → (position c == position d) ≡ true
    → has c xs ≡ has d xs
unfolding has
has_of_position c d xs e =
    ap (λ n. any (λ x. n == position x) xs) ((==_iff (position c) (position d)).0 e)

pub has-keep_missing :
    (c : Capability) (caps required : List Capability)
    → has c (keep (λ d. not (has d caps)) required) ≡ (has c required && not (has c caps))
unfolding has
has-keep_missing c caps [] = refl
has-keep_missing c caps (d ∷ required) =
    ground (arith, has-keep_missing c caps required, has_of_position c d caps)

pub covers_intro : (xs required : List Capability) → Within required xs → covers xs required ≡ true
unfolding covers has
covers_intro xs [] w = refl
covers_intro xs (c ∷ cs) w =
    ground
      (arith, w c, ==_iff (position c) (position c), covers_intro xs cs (λ d h. w d (ground arith)))

-- What is missing, added to what is there, is all that is required.
pub covers-missing :
    (caps required : List Capability)
    → covers (caps ++ keep (λ d. not (has d caps)) required) required ≡ true
covers-missing caps required = covers_intro _ required (λ c h. ground (
  arith,
  has-append c caps (keep (λ d. not (has d caps)) required),
  has-keep_missing c caps required,
))
