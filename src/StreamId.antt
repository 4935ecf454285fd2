-- ===== src/StreamId.antt =====
-- Stream ids `<major>-<minor>`: `_stream_position` of source_poll_store.py, the cursors of
-- streams/memory.py, and the ids that the in-memory stores give out.
use atlas_pulse.Prelude.{
  ℕ, ◌≡◌, Bool, true, false, ◌&&◌, ◌||◌, Option, none, some, [], ◌∷◌, ◌++◌, Text, codes, ◌==◌,
  nat_eq, ltb, leb, length, if◌then◌else◌, arith, refl, ℕ_discrete,
}
use atlas_pulse.Prelude.Decimal.{
  is_number, parse_from, parse_nat, print_nat, parse-print, is_number-print,
}

-- `value.split("-", maxsplit=1)`, where it has two parts
unfoldable pub split_dash : Text → Option (Text × Text)
split_dash [] = none
split_dash (c ∷ s) = elim (c == b'-') [
  | true ↦ some ([], s)
  | false ↦ elim (split_dash s) [ none ↦ none | some (a, b) ↦ some (c ∷ a, b) ]
]

-- `none` is the `ValueError`. The numbers are read at any length: `int` refuses more than 4300 digits,
-- which `fits_int` tests where a text comes from outside. The ids that a store gives out count its
-- messages, so they stay far below that.
unfoldable pub stream_position : Text → Option (ℕ × ℕ)
stream_position value = elim (split_dash value) [
  | none ↦ none
  | some (major, minor) ↦
      if is_number major && is_number minor then some (parse_nat major, parse_nat minor) else none
]

-- Neither part has more digits than `int` reads.
unfoldable pub fits_int : Text → Bool
fits_int value = elim (split_dash value) [
  | none ↦ true
  | some (major, minor) ↦ leb (length major) 4300 && leb (length minor) 4300
]

-- The order of tuples.
unfoldable pub position_ltb : ℕ × ℕ → ℕ × ℕ → Bool
position_ltb p q = ltb p.0 q.0 || (p.0 == q.0 && ltb p.1 q.1)

-- `f"0-{n}"`
unfoldable pub local_id : ℕ → Text
local_id n = codes "0-" ++ print_nat n

split_dash-local : (s : Text) → split_dash (codes "0-" ++ s) ≡ some (codes "0", s)
unfolding split_dash ℕ_discrete
split_dash-local s = refl

is_number-zero : is_number (codes "0") ≡ true
unfolding is_number
is_number-zero = refl

parse-zero : parse_nat (codes "0") ≡ 0
unfolding parse_from
parse-zero = refl

-- The id that a store gives out is read back as the position that it stands for.
pub stream_position-local_id : (n : ℕ) → stream_position (local_id n) ≡ some (0, n)
unfolding stream_position local_id
stream_position-local_id n = ground (
  arith,
  split_dash-local (print_nat n),
  is_number-zero,
  is_number-print n,
  parse-zero,
  parse-print n,
)
