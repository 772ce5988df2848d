-- ===== src/Prelude/Text.antt =====
-- Membership in a collection of texts, and subset tests on such collections.
use Prim.Native.Nat.{ℕ, suc, Ordering}
use Prim.Native.String.{String, compare}
use mathlib.Core.Path.{◌≡◌, refl}
use mathlib.Core.Bool.{Bool, true, false, ◌&&◌, ◌||◌}
use mathlib.Core.List.{List, [], ◌∷◌}
use native.Mathlib.Omega.{arith}
use envelock.Prelude.Tests.{str_eq, if◌then◌else◌}

-- `s in xs`
abbrev pub elem : String → List String → Bool
elem s [] = false
elem s (x ∷ xs) = str_eq s x || elem s xs

-- `xs <= ys` on sets
abbrev pub subset : List String → List String → Bool
subset [] ys = true
subset (x ∷ xs) ys = elem x ys && subset xs ys

-- `sorted(xs)`
abbrev put : String → String → List String → List String → Ordering → List String
put s t ts more Ordering.lt = s ∷ t ∷ ts
put s t ts more Ordering.eq = s ∷ t ∷ ts
put s t ts more Ordering.gt = t ∷ more

unfoldable pub insert_text : String → List String → List String
insert_text s [] = s ∷ []
insert_text s (t ∷ ts) = put s t ts (insert_text s ts) (compare s t)

unfoldable pub sort_texts : List String → List String
sort_texts [] = []
sort_texts (s ∷ ss) = insert_text s (sort_texts ss)

elem-put :
    (x s t : String) (ts more : List String) (o : Ordering)
    → elem x more ≡ (str_eq x s || elem x ts)
    → elem x (put s t ts more o) ≡ (str_eq x s || elem x (t ∷ ts))
elem-put x s t ts more Ordering.lt h = refl
elem-put x s t ts more Ordering.eq h = refl
elem-put x s t ts more Ordering.gt h = ground arith

elem-insert_text :
    (x s : String) (ts : List String) → elem x (insert_text s ts) ≡ (str_eq x s || elem x ts)
unfolding insert_text
elem-insert_text x s [] = refl
elem-insert_text x s (t ∷ ts) = elem-put x s t ts _ (compare s t) (elem-insert_text x s ts)

-- Sorting keeps the members.
pub elem-sort_texts : (x : String) (ss : List String) → elem x (sort_texts ss) ≡ elem x ss
unfolding sort_texts
elem-sort_texts x [] = refl
elem-sort_texts x (s ∷ ss) =
    ground (arith, elem-insert_text x s (sort_texts ss), elem-sort_texts x ss)

-- How often a text stands in a list.
abbrev pub times : String → List String → ℕ
times s [] = 0
times s (x ∷ xs) = if str_eq s x then suc (times s xs) else times s xs

times-put :
    (x s t : String) (ts more : List String) (o : Ordering)
    → times x more ≡ times x (s ∷ ts)
    → times x (put s t ts more o) ≡ times x (s ∷ t ∷ ts)
times-put x s t ts more Ordering.lt h = refl
times-put x s t ts more Ordering.eq h = refl
times-put x s t ts more Ordering.gt h = ground (arith, h)

times-insert_text :
    (x s : String) (ts : List String) → times x (insert_text s ts) ≡ times x (s ∷ ts)
unfolding insert_text
times-insert_text x s [] = refl
times-insert_text x s (t ∷ ts) = times-put x s t ts _ (compare s t) (times-insert_text x s ts)

-- Sorting keeps how often each text stands there.
pub times-sort_texts : (x : String) (ss : List String) → times x (sort_texts ss) ≡ times x ss
unfolding sort_texts
times-sort_texts x [] = refl
times-sort_texts x (s ∷ ss) =
    ground (arith, times-insert_text x s (sort_texts ss), times-sort_texts x ss)
