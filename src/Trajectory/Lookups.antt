-- ===== src/Trajectory/Lookups.antt =====
-- agent_trajectory/base.py: cases found by their ids, and the inclusion of sets of ids.
use atlas_pulse.Prelude.{
  ==→eq, Option-cases, Bool-cases, inl, inr, ◌==◌, text_eq, ◌≤◌, true, false, none, some, List, [],
  ◌∷◌, length, map, All, contains, unique, unique-cons, ok, text_eq, nat_eq, Text, arith, refl, ◌≡◌,
  ==_refl,
}
use mathlib.Core.Path.{subst}
use atlas_pulse.Prelude.Order.{is_subset}
use atlas_pulse.AgentRuns.{is_empty}
use atlas_pulse.Trajectory.Import.{case_of, require_case}

-- In a list without repeated ids each element is found under its own.
abbrev pub Finds : {A : Type 0} → (A → Text) → List A → List A → Type 0
Finds id_of cases xs = All (λ x. case_of id_of (id_of x) cases ≡ some x) xs

module _ {A : Type 0} (id_of : A → Text) where
  pub case_of-none :
      (id : Text) (cases : List A)
      → contains id (map id_of cases) ≡ false
      → case_of id_of id cases ≡ none
  unfolding case_of
  case_of-none id [] h = refl
  case_of-none id (x ∷ cases) h = ground (arith, case_of-none id cases)

  pub Finds-cons : (x : A) (cases xs : List A) → Finds id_of cases xs → Finds id_of (x ∷ cases) xs
  unfolding case_of
  Finds-cons x cases [] f = tt
  Finds-cons x cases (y ∷ xs) (found, f) = (rw found refl, Finds-cons x cases xs f)

  pub Finds-unique : (cases : List A) → unique (map id_of cases) ≡ true → Finds id_of cases cases
  unfolding case_of
  Finds-unique [] h = tt
  Finds-unique (x ∷ cases) h =
      let (fresh, rest) = unique-cons (id_of x) (map id_of cases) h in
      (
        ground (arith, case_of-none (id_of x) cases, ==_refl (id_of x)),
        Finds-cons x cases cases (Finds-unique cases rest),
      )

  pub case_of-id :
      (id : Text) (cases : List A) (c : A) → case_of id_of id cases ≡ some c → id_of c ≡ id
  unfolding case_of
  case_of-id id [] c h = cc
  case_of-id id (x ∷ cases) c h = elim (Option-cases (case_of id_of id cases)) [
    | inl missing ↦ ground (arith, ==→eq (id_of x) id)
    | inr (later, found) ↦ case_of-id id cases c (ground arith)
  ]

  -- What holds of all cases holds of the one that is found.
  pub case_of-All :
      (P : A → Type 0) (id : Text) (cases : List A) (x : A)
      → All P cases
      → case_of id_of id cases ≡ some x
      → P x
  unfolding case_of
  case_of-All P id [] x holds h = absurd (ground arith)
  case_of-All P id (c ∷ cases) x (first, rest) h = elim (Option-cases (case_of id_of id cases)) [
    | inl missing ↦ subst P (ground (arith, missing, Bool-cases (id_of c == id))) first
    | inr (later, found) ↦ case_of-All P id cases x rest (ground (arith, found))
  ]

  pub require_case-of :
      (id : Text) (cases : List A) (x : A)
      → case_of id_of id cases ≡ some x
      → require_case id_of id cases ≡ ok x
  unfolding require_case
  require_case-of id cases x h = rw (h, require_case) refl

pub not_empty : {A : Type 0} → (xs : List A) → 1 ≤ length xs → is_empty xs ≡ false
unfolding is_empty
not_empty [] h = absurd (omega (arith, h))
not_empty (x ∷ xs) h = refl

pub is_subset-cons :
    (y : Text) (xs ys : List Text) → is_subset xs ys ≡ true → is_subset xs (y ∷ ys) ≡ true
unfolding is_subset
is_subset-cons y [] ys h = refl
is_subset-cons y (x ∷ xs) ys h = ground (arith, is_subset-cons y xs ys)

pub is_subset_self : (xs : List Text) → is_subset xs xs ≡ true
unfolding is_subset
is_subset_self [] = refl
is_subset_self (x ∷ xs) = ground (arith, is_subset-cons x xs xs, is_subset_self xs, ==_refl x)
