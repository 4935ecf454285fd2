-- ===== src/Scoring/Judged.antt =====
-- Cases found by their ids, and the outcomes that judge candidates.
use atlas_pulse.Prelude.{
  true, false, none, some, List, [], ◌∷◌, map, unique, unique-cons, ok, Option-cases, inl, inr,
  ◌==◌, text_eq, nat_eq, Text, arith, refl, ◌≡◌, ==→eq, Bool-cases, sym, ap, ◌∙◌,
}
use mathlib.Core.Path.{subst}
use atlas_pulse.Release.Types.{texts_eq}
use atlas_pulse.Trajectory.Types.{GroundedAnswerCandidateCase, answer_status_eq}
use atlas_pulse.Trajectory.Import.{case_of, candidate_case_id}
use atlas_pulse.Trajectory.Lookups.{case_of-none}
use atlas_pulse.Scoring.Types.{GroundedAnswerCaseOutcome}
use atlas_pulse.Scoring.Bind.{outcome_case_id, the_case, first_case}

pub the_case-of :
    {A : Type 0} (id_of : A → Text) (id : Text) (cases : List A) (x : A)
    → case_of id_of id cases ≡ some x
    → the_case id_of id cases ≡ ok x
unfolding the_case
the_case-of id_of id cases x h = rw (h, the_case) refl

-- Without repeated ids the first case of an id is the last.
pub first_case-of :
    {A : Type 0} (id_of : A → Text) (id : Text) (cases : List A) (x : A)
    → unique (map id_of cases) ≡ true
    → case_of id_of id cases ≡ some x
    → first_case id_of id cases ≡ ok x
unfolding case_of first_case
first_case-of id_of id [] x fresh h = absurd (ground arith)
first_case-of id_of id (c ∷ cases) x fresh h =
    let (new, rest) = unique-cons (id_of c) (map id_of cases) fresh in
    let absent : (id_of c == id) ≡ true → case_of id_of id cases ≡ none = λ same.
      subst (λ i. case_of id_of i cases ≡ none) (==→eq (id_of c) id same)
        (case_of-none id_of (id_of c) cases new) in
    let later : case_of id_of id cases ≡ some x → first_case id_of id cases ≡ ok x =
      λ found. first_case-of id_of id cases x rest found in
    ground (arith, absent, later, Option-cases (case_of id_of id cases), Bool-cases (id_of c == id))

-- Adjudicated outcomes of the candidates, in their order.
abbrev pub Judges :
    {F : Type 0} → List (GroundedAnswerCandidateCase F) → List GroundedAnswerCaseOutcome → Type 0
Judges [] [] = Unit
Judges [] (g ∷ grounded) = ⊥
Judges (a ∷ candidates) [] = ⊥
Judges (a ∷ candidates) (g ∷ grounded) =
    (g.case_id ≡ a.case_id)
    × (g.query_id ≡ a.query_id)
    × (g.response_status ≡ a.response.status)
    × Judges candidates grounded

module _ {F : Type 0} where
  pub Judges-ids :
      (candidates : List (GroundedAnswerCandidateCase F))
      (grounded : List GroundedAnswerCaseOutcome)
      → Judges candidates grounded
      → map outcome_case_id grounded ≡ map candidate_case_id candidates
  Judges-ids [] [] h = refl
  Judges-ids [] (g ∷ grounded) h = absurd h
  Judges-ids (a ∷ candidates) [] h = absurd h
  Judges-ids (a ∷ candidates) (g ∷ grounded) (ids, queries, statuses, h) =
      rw (ids, Judges-ids candidates grounded h) refl

  Judges-none :
      (id : Text) (candidates : List (GroundedAnswerCandidateCase F))
      (grounded : List GroundedAnswerCaseOutcome)
      → Judges candidates grounded
      → case_of candidate_case_id id candidates ≡ none
      → case_of outcome_case_id id grounded ≡ none
  unfolding case_of
  Judges-none id [] [] h found = refl
  Judges-none id [] (g ∷ grounded) h found = absurd h
  Judges-none id (c ∷ candidates) [] h found = absurd h
  Judges-none id (c ∷ candidates) (g ∷ grounded) (ids, queries, statuses, h) found =
      let none_left : case_of candidate_case_id id candidates ≡ none =
        ground (arith, Option-cases (case_of candidate_case_id id candidates)) in
      let none_found = Judges-none id candidates grounded h none_left in
      let other : (c.case_id == id) ≡ false =
        ground (arith, none_left, Bool-cases (c.case_id == id)) in
      let other_too : (g.case_id == id) ≡ false = subst (λ i. (i == id) ≡ false) (sym ids) other in
      ground (arith, none_found, other_too)

  -- The outcome of a candidate.
  pub Judges-found :
      (id : Text) (candidates : List (GroundedAnswerCandidateCase F))
      (grounded : List GroundedAnswerCaseOutcome) (a : GroundedAnswerCandidateCase F)
      → Judges candidates grounded
      → case_of candidate_case_id id candidates ≡ some a
      → (g : GroundedAnswerCaseOutcome) × (case_of outcome_case_id id grounded ≡ some g)
        × (g.query_id ≡ a.query_id)
        × (g.response_status ≡ a.response.status)
  unfolding case_of
  Judges-found id [] [] a h found = absurd (ground arith)
  Judges-found id [] (g ∷ grounded) a h found = absurd h
  Judges-found id (c ∷ candidates) [] a h found = absurd h
  Judges-found id (c ∷ candidates) (g ∷ grounded) a (ids, queries, statuses, h) found =
      elim (Option-cases (case_of candidate_case_id id candidates)) [
        | inl missing ↦
            let same : (c.case_id == id) ≡ true =
              ground (arith, missing, Bool-cases (c.case_id == id)) in
            let same_too : (g.case_id == id) ≡ true =
              subst (λ i. (i == id) ≡ true) (sym ids) same in
            let is_first : c ≡ a = ground (arith, missing, same) in
            (
              g,
              ground (arith, Judges-none id candidates grounded h missing, same_too),
              queries ∙ ap (λ a. a.query_id) is_first,
              statuses ∙ ap (λ a. a.response.status) is_first,
            )
        | inr (later, found_later) ↦
            let (o, found_o, same_query, same_status) =
              Judges-found id candidates grounded a h (ground (arith, found_later)) in
            (o, ground (arith, found_o), same_query, same_status)
      ]
