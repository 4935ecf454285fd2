-- ===== src/Prelude/Texts.antt =====
-- Texts as lists of code points, and the parts of `re` and `str` that the program calls.
use Prim.Native.Char.{code}
use Prim.Native.String.{String}
use Prim.Native.Nat.{ℕ}
use mathlib.Core.Path.{◌≡◌, refl}
use mathlib.Core.Bool.{Bool, true, false, ◌&&◌, ◌||◌}
use mathlib.Core.List.{[], ◌∷◌, ◌++◌, reverse}
use mathlib.Core.Option.{Option, none, some}
use native.Mathlib.Omega.{arith}
use atlas_pulse.Prelude.Tests.{Text, if◌then◌else◌, ◌==◌, nat_eq, leb}
use atlas_pulse.Prelude.Lists.{length, all}

-- The code points of a literal.
abbrev pub codes : String → Text
codes String.[] = []
codes (String.◌∷◌ c s) = code c ∷ codes s

-- The character class `[0-9a-f]`.
unfoldable pub is_hex : ℕ → Bool
is_hex c = (leb b'0' c && leb c b'9') || (leb b'a' c && leb c b'f')

-- `s.removeprefix(p)`, where `s.startswith(p)`
unfoldable pub strip_prefix : Text → Text → Option Text
strip_prefix [] s = some s
strip_prefix (p ∷ ps) [] = none
strip_prefix (p ∷ ps) (c ∷ s) = elim (p == c) [ true ↦ strip_prefix ps s | false ↦ none ]

-- The pattern `^<prefix>[0-9a-f]{n}$`.
unfoldable pub matches_id : Text → ℕ → Text → Bool
unfolding strip_prefix is_hex
matches_id prefix n s = elim (strip_prefix prefix s) [
  | none ↦ false
  | some rest ↦ length rest == n && all is_hex rest
]

-- `str.isspace` of one character, which `\s` matches too.
unfoldable pub is_space : ℕ → Bool
is_space c =
    (leb 9 c && leb c 13)
    || (leb 28 c && leb c 32)
    || c == 0x85
    || c == 0xa0
    || c == 0x1680
    || (leb 0x2000 c && leb c 0x200a)
    || c == 0x2028
    || c == 0x2029
    || c == 0x202f
    || c == 0x205f
    || c == 0x3000

unfoldable pub strip_start : Text → Text
unfolding is_space
strip_start [] = []
strip_start (c ∷ s) = if is_space c then strip_start s else c ∷ s

-- `s.strip()`
unfoldable pub strip : Text → Text
unfolding strip_start
strip s = reverse (strip_start (reverse (strip_start s)))

pub strip_prefix-append : (p s : Text) → strip_prefix p (p ++ s) ≡ some s
unfolding strip_prefix
strip_prefix-append [] s = refl
strip_prefix-append (c ∷ p) s = ground (arith, strip_prefix-append p s)

pub matches_id-append :
    (p : Text) (n : ℕ) (s : Text)
    → length s ≡ n
    → all is_hex s ≡ true
    → matches_id p n (p ++ s) ≡ true
unfolding matches_id
matches_id-append p n s l h = ground (arith, strip_prefix-append p s)
