-- ===== src/Scoring/Acts.antt =====
-- What the steps of a trace do: inspections, drafts and abstentions, step by step.
use atlas_pulse.Prelude.{
  Bool, true, false, ◌&&◌, not, none, some, List, [], ◌∷◌, any, contains, All, Option-cases,
  Bool-cases, inl, inr, ◌==◌, text_eq, Text, arith, refl, ◌≡◌, ◌≢◌, ◌↔◌, ◌⊎◌, any-append, ==→eq,
  ==_refl, sym, ap, ◌∙◌,
}
use mathlib.Core.Path.{subst}
use atlas_pulse.Trajectory.Types.{TrajectoryAction, AnswerStatus, AgentTrajectoryStep, action_eq}
use atlas_pulse.Trajectory.{all_ids}
use atlas_pulse.Scoring.{has_action, inspected_of, drafts_claim, draft_of, is_consistent}

-- Some element has a property.
abbrev pub Some : {A : Type 0} → (A → Type 0) → List A → Type 0
Some P [] = ⊥
Some P (x ∷ xs) = P x ⊎ Some P xs

module _ {F : Type 0} where
  abbrev pub Acts : TrajectoryAction → List (AgentTrajectoryStep F) → Type 0
  Acts action steps = Some (λ s. s.action ≡ action) steps

  abbrev pub Never : TrajectoryAction → List (AgentTrajectoryStep F) → Type 0
  Never action steps = All (λ s. s.action ≢ action) steps

  -- A trace of an answer drafts and never abstains, one of an abstention the other way round.
  abbrev pub Terminates : AnswerStatus → List (AgentTrajectoryStep F) → Type 0
  Terminates AnswerStatus.answered steps =
      Acts TrajectoryAction.draft_claim steps × Never TrajectoryAction.choose_abstention steps
  Terminates AnswerStatus.abstained steps =
      Acts TrajectoryAction.choose_abstention steps × Never TrajectoryAction.draft_claim steps

  -- Some step inspects the evidence of an id.
  abbrev pub Inspects : Text → List (AgentTrajectoryStep F) → Type 0
  Inspects id steps =
      Some
        (λ s. (s.action ≡ TrajectoryAction.inspect_evidence) × (contains id s.evidence_ids ≡ true))
        steps

  -- A step drafts the claim of an id, the first that it names.
  abbrev pub Drafts : Text → AgentTrajectoryStep F → Type 0
  Drafts id s =
      (s.action ≡ TrajectoryAction.draft_claim) × ((rest : List Text) × (s.claim_ids ≡ id ∷ rest))

  -- The last step that drafts a claim does so with the given evidence.
  abbrev pub LastDraft : Text → List Text → List (AgentTrajectoryStep F) → Type 0
  LastDraft id evidence [] = ⊥
  LastDraft id evidence (s ∷ steps) =
      LastDraft id evidence steps
      ⊎ (Drafts id s × (s.evidence_ids ≡ evidence) × All (λ t. ¬ (Drafts id t)) steps)

List-cases : {A : Type 0} (xs : List A) → (xs ≡ []) ⊎ ((x : A) × (rest : List A) × (xs ≡ x ∷ rest))
List-cases [] = inl refl
List-cases (x ∷ xs) = inr (x, xs, refl)

module _ {A : Type 0} {P : A → Type 0} (p : A → Bool) (agree : (x : A) → (p x ≡ true) ↔ P x) where
  any-Some : (xs : List A) → (any p xs ≡ true) ↔ Some P xs
  any-Some [] = ((λ h. absurd (ground arith)), (λ h. absurd h))
  any-Some (x ∷ xs) =
      let (to, from) = agree x in
      let (to_rest, from_rest) = any-Some xs in
      (
        λ h. elim (Bool-cases (p x)) [
          | inl holds ↦ inl (to holds)
          | inr fails ↦ inr (to_rest (ground (arith, fails)))
        ],
        λ h. elim h [
          | inl here ↦ ground (arith, from here)
          | inr there ↦ ground (arith, from_rest there)
        ],
      )

  any-none : (xs : List A) → (any p xs ≡ false) ↔ All (λ x. ¬ (P x)) xs
  any-none [] = ((λ h. tt), (λ h. refl))
  any-none (x ∷ xs) =
      let (to, from) = agree x in
      let (to_rest, from_rest) = any-none xs in
      (
        λ h. (λ holds. absurd (ground (arith, from holds)), to_rest (ground arith)),
        λ (fails, rest). elim (Bool-cases (p x)) [
          | inl holds ↦ absurd (fails (to holds))
          | inr other ↦ ground (arith, other, from_rest rest)
        ],
      )

both :
    (a b : Bool) {P Q : Type 0} → (a ≡ true) ↔ P → (b ≡ false) ↔ Q → ((a && not b) ≡ true) ↔ (P × Q)
both a b (to_p, from_p) (to_q, from_q) =
    (λ h. (to_p (ground arith), to_q (ground arith)), λ (p, q). ground (arith, from_p p, from_q q))

module _ {F : Type 0} where
  has_action-is :
      (action : TrajectoryAction) (s : AgentTrajectoryStep F)
      → (has_action action s ≡ true) ↔ (s.action ≡ action)
  has_action-is action s =
      (==→eq s.action action, λ h. subst (λ a. (s.action == a) ≡ true) h (==_refl s.action))

  pub is_consistent-Terminates :
      (status : AnswerStatus) (steps : List (AgentTrajectoryStep F))
      → (is_consistent status steps ≡ true) ↔ Terminates status steps
  unfolding is_consistent
  is_consistent-Terminates AnswerStatus.answered steps =
      both _ _ (any-Some _ (has_action-is TrajectoryAction.draft_claim) steps)
        (any-none _ (has_action-is TrajectoryAction.choose_abstention) steps)
  is_consistent-Terminates AnswerStatus.abstained steps =
      both _ _ (any-Some _ (has_action-is TrajectoryAction.choose_abstention) steps)
        (any-none _ (has_action-is TrajectoryAction.draft_claim) steps)

module _ {F : Type 0} where
  drafts_claim-Drafts :
      (id : Text) (s : AgentTrajectoryStep F) → (drafts_claim id s ≡ true) ↔ Drafts id s
  unfolding drafts_claim
  drafts_claim-Drafts id s =
      let (acts, has) = has_action-is TrajectoryAction.draft_claim s in
      elim (List-cases s.claim_ids) [
        | inl empty ↦ (
          λ h. absurd (ground (arith, empty)),
          λ (action, (rest, names)). absurd (ground (arith, empty, names)),
        )
        | inr (claim, others, listed) ↦ (
          λ h.
              let first : claim ≡ id = ground (arith, listed, ==→eq claim id) in
              (acts (ground (arith, listed)), (others, listed ∙ ap (λ c. c ∷ others) first)),
          λ (action, (rest, names)).
              let first : claim ≡ id = ground (arith, listed, names) in
              ground (arith, listed, has action, first, ==_refl id),
        )
      ]

  draft_of-none :
      (id : Text) (steps : List (AgentTrajectoryStep F))
      → (draft_of id steps ≡ none) ↔ All (λ s. ¬ (Drafts id s)) steps
  unfolding draft_of
  draft_of-none id [] = ((λ h. tt), (λ h. refl))
  draft_of-none id (s ∷ steps) =
      let (to, from) = draft_of-none id steps in
      let (drafted, drafts) = drafts_claim-Drafts id s in
      (
        λ h. (
          λ first. absurd (ground (arith, drafts first, Option-cases (draft_of id steps))),
          to (ground (arith, Option-cases (draft_of id steps))),
        ),
        λ (not_first, rest). elim (Bool-cases (drafts_claim id s)) [
          | inl first ↦ absurd (not_first (drafted first))
          | inr other ↦ ground (arith, other, from rest)
        ],
      )

  pub draft_of-LastDraft :
      (id : Text) (evidence : List Text) (steps : List (AgentTrajectoryStep F))
      → (draft_of id steps ≡ some evidence) ↔ LastDraft id evidence steps
  unfolding draft_of
  draft_of-LastDraft id evidence [] = ((λ h. absurd (ground arith)), (λ h. absurd h))
  draft_of-LastDraft id evidence (s ∷ steps) =
      let (to, from) = draft_of-LastDraft id evidence steps in
      let (none_left, no_drafts) = draft_of-none id steps in
      let (drafted, drafts) = drafts_claim-Drafts id s in
      (
        λ h. elim (Option-cases (draft_of id steps)) [
          | inl missing ↦ inr (
            drafted (ground (arith, missing, Bool-cases (drafts_claim id s))),
            ground (arith, missing, Bool-cases (drafts_claim id s)),
            none_left missing,
          )
          | inr (later, found) ↦ inl (to (ground (arith, found)))
        ],
        λ h. elim h [
          | inl later ↦ ground (arith, from later)
          | inr (first, same, rest) ↦ ground (arith, no_drafts rest, drafts first, same)
        ],
      )

  -- A step inspects the evidence of an id.
  abbrev inspects : Text → AgentTrajectoryStep F → Bool
  inspects id s = has_action TrajectoryAction.inspect_evidence s && contains id s.evidence_ids

  contains-inspected_of :
      (id : Text) (steps : List (AgentTrajectoryStep F))
      → contains id (inspected_of steps) ≡ any (inspects id) steps
  unfolding inspected_of all_ids
  contains-inspected_of id [] = refl
  contains-inspected_of id (s ∷ steps) =
      elim (Bool-cases (has_action TrajectoryAction.inspect_evidence s)) [
        | inl looks ↦ ground (
          arith,
          looks,
          any-append (λ x. x == id) s.evidence_ids (inspected_of steps),
          contains-inspected_of id steps,
        )
        | inr other ↦ ground (arith, other, contains-inspected_of id steps)
      ]

  inspects-is :
      (id : Text) (s : AgentTrajectoryStep F)
      → (inspects id s ≡ true)
        ↔ ((s.action ≡ TrajectoryAction.inspect_evidence) × (contains id s.evidence_ids ≡ true))
  inspects-is id s =
      let (acts, has) = has_action-is TrajectoryAction.inspect_evidence s in
      (
        λ h. (acts (ground arith), ground arith),
        λ (action, named). ground (arith, has action, named),
      )

  pub inspected_of-Inspects :
      (id : Text) (steps : List (AgentTrajectoryStep F))
      → (contains id (inspected_of steps) ≡ true) ↔ Inspects id steps
  inspected_of-Inspects id steps =
      let (to, from) = any-Some (inspects id) (inspects-is id) steps in
      let same = contains-inspected_of id steps in ((λ h. to (sym same ∙ h)), (λ h. same ∙ from h))
