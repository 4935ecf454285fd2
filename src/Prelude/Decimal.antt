-- ===== src/Prelude/Decimal.antt =====
-- Decimal text: `str(n)` for a number, and `int(s)` for a text of digits.
use Prim.Native.Nat.{ℕ, zero, suc, ◌+◌, ◌*◌, ◌-◌, ◌/◌, ◌%◌, ◌<◌}
use mathlib.Core.Path.{◌≡◌, refl, ◌∙◌}
use mathlib.Core.Bool.{Bool, true, false, ◌&&◌}
use mathlib.Core.List.{[], ◌∷◌, ◌++◌}
use native.Mathlib.Omega.{arith}
use atlas_pulse.Prelude.Tests.{Text, leb, ltb, if◌then◌else◌, Bool-cases}
use atlas_pulse.Prelude.Lists.{all}
use mathlib.Core.Logic.{inl, inr}

-- `c.isdigit()` of an ASCII character
unfoldable pub is_digit : ℕ → Bool
is_digit c = leb b'0' c && leb c b'9'

-- `part.isascii() and part.isdigit()`: not empty, and digits only
unfoldable pub is_number : Text → Bool
unfolding is_digit
is_number [] = false
is_number (c ∷ s) = is_digit c && all is_digit s

unfoldable pub parse_from : ℕ → Text → ℕ
parse_from acc [] = acc
parse_from acc (c ∷ s) = parse_from (acc * 10 + (c - b'0')) s

abbrev pub parse_nat : Text → ℕ
parse_nat s = parse_from 0 s

-- The fuel is one more than the number, which falls tenfold at each digit.
unfoldable pub print_from : ℕ → ℕ → Text
print_from zero n = []
print_from (suc fuel) n =
    let rest = print_from fuel (n / 10) in
    if ltb n 10 then (b'0' + n) ∷ [] else rest ++ (b'0' + n % 10) ∷ []

unfoldable pub print_nat : ℕ → Text
unfolding print_from
print_nat n = print_from (suc n) n

parse_from-snoc :
    (acc : ℕ) (s : Text) (c : ℕ) → parse_from acc (s ++ c ∷ []) ≡ parse_from acc s * 10 + (c - b'0')
unfolding parse_from
parse_from-snoc acc [] c = refl
parse_from-snoc acc (d ∷ s) c = parse_from-snoc (acc * 10 + (d - b'0')) s c

all-is_digit-snoc :
    (s : Text) (c : ℕ)
    → all is_digit s ≡ true
    → is_digit c ≡ true
    → all is_digit (s ++ c ∷ []) ≡ true
all-is_digit-snoc [] c h k = ground arith
all-is_digit-snoc (d ∷ s) c h k = ground (arith, all-is_digit-snoc s c)

is_number-snoc :
    (s : Text) (c : ℕ) → is_number s ≡ true → is_digit c ≡ true → is_number (s ++ c ∷ []) ≡ true
unfolding is_number
is_number-snoc [] c h k = cc
is_number-snoc (d ∷ s) c h k = ground (arith, all-is_digit-snoc s c)

is_digit_of : (n : ℕ) → n < 10 → is_digit (b'0' + n) ≡ true
unfolding is_digit
is_digit_of n h = ground arith

parse-print_from : (fuel n : ℕ) → n < fuel → parse_from 0 (print_from fuel n) ≡ n
unfolding print_from
parse-print_from zero n h = elim h [ ]
parse-print_from (suc fuel) n h = elim (Bool-cases (ltb n 10)) [
  | inl small ↦ rw small (unfold parse_from in omega arith)
  | inr large ↦ rw large (
      parse_from-snoc 0 (print_from fuel (n / 10)) (b'0' + n % 10)
      ∙ omega (arith, parse-print_from fuel (n / 10) (ground arith)))
]

is_number-print_from : (fuel n : ℕ) → n < fuel → is_number (print_from fuel n) ≡ true
unfolding print_from
is_number-print_from zero n h = elim h [ ]
is_number-print_from (suc fuel) n h = elim (Bool-cases (ltb n 10)) [
  | inl small ↦ rw small (unfold is_number in ground (arith, is_digit_of n))
  | inr large ↦ rw large (
      is_number-snoc (print_from fuel (n / 10)) (b'0' + n % 10)
        (is_number-print_from fuel (n / 10) (ground arith)) (is_digit_of (n % 10) (omega arith)))
]

pub parse-print : (n : ℕ) → parse_nat (print_nat n) ≡ n
unfolding print_nat
parse-print n = parse-print_from (suc n) n (omega arith)

pub is_number-print : (n : ℕ) → is_number (print_nat n) ≡ true
unfolding print_nat
is_number-print n = is_number-print_from (suc n) n (omega arith)
