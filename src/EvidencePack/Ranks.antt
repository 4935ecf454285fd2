-- ===== src/EvidencePack/Ranks.antt =====
-- Insertion sort on lists that come in order: the ranks of a pack.
use atlas_pulse.Prelude.{
  range_from, ℕ, zero, suc, ◌+◌, ◌≤◌, ◌<◌, ◌≡◌, List, [], ◌∷◌, ◌++◌, All, leb, sort_insert, sorted,
  arith, refl, ap, ◌∙◌,
}
use native.Mathlib.Nat.{suc-add}

abbrev pub Below : ℕ → List ℕ → Type 0
Below m = All (λ x. x < m)

-- The largest of a list goes to its end.
sort_insert-largest : (m : ℕ) (l : List ℕ) → Below m l → sort_insert leb m l ≡ l ++ m ∷ []
unfolding sort_insert
sort_insert-largest m [] h = refl
sort_insert-largest m (x ∷ l) (lt, h) = ground (arith, sort_insert-largest m l h)

sort_insert-snoc :
    (x m : ℕ) (l : List ℕ) → x < m → sort_insert leb x (l ++ m ∷ []) ≡ sort_insert leb x l ++ m ∷ []
unfolding sort_insert
sort_insert-snoc x m [] h = ground arith
sort_insert-snoc x m (y ∷ l) h = ground (arith, sort_insert-snoc x m l h)

Below-sort_insert : (m x : ℕ) (l : List ℕ) → x < m → Below m l → Below m (sort_insert leb x l)
unfolding sort_insert
Below-sort_insert m x [] lt h = (lt, tt)
Below-sort_insert m x (y ∷ l) lt (ly, h) = ground (arith, Below-sort_insert m x l lt h)

Below-sorted : (m : ℕ) (l : List ℕ) → Below m l → Below m (sorted leb l)
unfolding sorted
Below-sorted m [] h = tt
Below-sorted m (x ∷ l) (lt, h) = Below-sort_insert m x (sorted leb l) lt (Below-sorted m l h)

-- A number above all others sorts to the end, wherever it stands.
pub sorted-largest :
    (m : ℕ) (xs ys : List ℕ)
    → Below m xs
    → Below m ys
    → sorted leb (xs ++ m ∷ ys) ≡ sorted leb (xs ++ ys) ++ m ∷ []
unfolding sorted
sorted-largest m [] ys hx hy = sort_insert-largest m (sorted leb ys) (Below-sorted m ys hy)
sorted-largest m (x ∷ xs) ys (lt, hx) hy =
    rw (sorted-largest m xs ys hx hy) (sort_insert-snoc x m (sorted leb (xs ++ ys)) lt)

pub range_from-snoc :
    (first n : ℕ) → range_from first (n + 1) ≡ range_from first n ++ (first + n) ∷ []
unfolding range_from
range_from-snoc first zero = ground arith
range_from-snoc first (suc n) = rw suc-add (
    ap (◌∷◌ first)
      (range_from-snoc (first + 1) n ∙ ap (λ k. range_from (first + 1) n ++ k ∷ []) (omega arith)))

-- Strictly increasing, from `lo` on.
abbrev pub Increasing : ℕ → List ℕ → Type 0
Increasing lo [] = Unit
Increasing lo (x ∷ l) = (lo ≤ x) × Increasing (x + 1) l

pub Increasing-snoc :
    (lo m : ℕ) (l : List ℕ) → lo ≤ m → Increasing lo l → Below m l → Increasing lo (l ++ m ∷ [])
Increasing-snoc lo m [] le h b = (le, tt)
Increasing-snoc lo m (x ∷ l) le (lx, h) (lt, b) =
    (lx, Increasing-snoc (x + 1) m l (omega arith) h b)

pub Below-snoc : (m : ℕ) (l : List ℕ) → Below m l → Below (m + 1) (l ++ m ∷ [])
Below-snoc m [] h = (omega arith, tt)
Below-snoc m (x ∷ l) (lt, h) = (omega arith, Below-snoc m l h)

pub Below-weaken : (m : ℕ) (l : List ℕ) → Below m l → Below (m + 1) l
Below-weaken m [] h = tt
Below-weaken m (x ∷ l) (lt, h) = (omega arith, Below-weaken m l h)

sort_insert-least : (lo x : ℕ) (l : List ℕ) → x ≤ lo → Increasing lo l → sort_insert leb x l ≡ x ∷ l
unfolding sort_insert
sort_insert-least lo x [] le h = refl
sort_insert-least lo x (y ∷ l) le (ly, h) = ground arith

-- What increases is sorted already.
pub sorted_of_Increasing : (lo : ℕ) (l : List ℕ) → Increasing lo l → sorted leb l ≡ l
unfolding sorted
sorted_of_Increasing lo [] h = refl
sorted_of_Increasing lo (x ∷ l) (le, h) =
    rw (sorted_of_Increasing (x + 1) l h) (sort_insert-least (x + 1) x l (omega arith) h)

pub Below-append : (m : ℕ) (xs ys : List ℕ) → Below m xs → Below m ys → Below m (xs ++ ys)
Below-append m [] ys hx hy = hy
Below-append m (x ∷ xs) ys (lt, hx) hy = (lt, Below-append m xs ys hx hy)

pub Below-mono : (m n : ℕ) (l : List ℕ) → m ≤ n → Below m l → Below n l
Below-mono m n [] le h = tt
Below-mono m n (x ∷ l) le (lt, h) = (omega arith, Below-mono m n l le h)
