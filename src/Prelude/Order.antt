-- ===== src/Prelude/Order.antt =====
-- The order of texts, and `sorted(set(…))` of texts.
use mathlib.Core.Bool.{Bool, true, false, ◌&&◌, ◌||◌}
use mathlib.Core.List.{List, [], ◌∷◌}
use atlas_pulse.Prelude.Tests.{Text, ltb, ◌==◌, nat_eq, text_eq, if◌then◌else◌}
use atlas_pulse.Prelude.Lists.{contains, sorted}

-- `a <= b`, by code points
unfoldable pub text_leb : Text → Text → Bool
text_leb [] b = true
text_leb (c ∷ a) [] = false
text_leb (c ∷ a) (d ∷ b) = ltb c d || (c == d && text_leb a b)

-- The elements of a list, each at its last place.
unfoldable pub distinct_texts : List Text → List Text
distinct_texts [] = []
distinct_texts (x ∷ xs) = let rest = distinct_texts xs in if contains x xs then rest else x ∷ rest

-- `tuple(sorted(set(xs)))`
unfoldable pub canonical : List Text → List Text
canonical xs = sorted text_leb (distinct_texts xs)

-- `set(xs) <= set(ys)`, and the equality of two sets
unfoldable pub is_subset : List Text → List Text → Bool
is_subset [] ys = true
is_subset (x ∷ xs) ys = contains x ys && is_subset xs ys

unfoldable pub same_set : List Text → List Text → Bool
unfolding is_subset
same_set xs ys = is_subset xs ys && is_subset ys xs
