-- ===== src/Release/Observed.antt =====
-- The observation of a validated assessment.
use atlas_pulse.Prelude.{
  true, false, ◌||◌, not, none, some, List, [], ◌∷◌, map, all, any, keep, contains, ok, text_eq,
  bool_eq, arith, refl, ◌≡◌, ==→eq, ==_refl, Result-cases, Bool-cases, inl, inr, ◌⊎◌, sym,
}
use mathlib.Core.Path.{subst}
use atlas_pulse.AgentRuns.Types.{AgentReleaseStatus, AgentReleaseObservation}
use atlas_pulse.AgentRuns.{
  is_empty, validate_release_observation, validate_release, check_release_flags, release_flags,
  identity_fields, holds,
}
use atlas_pulse.Release.Types.{
  ReleaseStatus, ReleaseGateId, AgentReleaseGate, AgentReleaseAssessment, ReleaseHashes,
  GateId-discrete, gate_id_eq, gate_ids_eq, status_eq, texts_eq,
}
use atlas_pulse.Release.{
  validate_gate, validate_gates, check_gates, validate_assessment, agent_release_gate_ids,
  gate_passed, has_passed, reasons_of, release_status, is_blocked, observed_status,
  agent_release_observation,
}

gate_passed_cases :
    (gates : List AgentReleaseGate) (id : ReleaseGateId)
    → keep is_blocked gates ≡ []
    → (gate_passed id gates ≡ none) ⊎ (gate_passed id gates ≡ some true)
unfolding gate_passed
gate_passed_cases [] id all_passed = inl refl
gate_passed_cases (g ∷ gates) id all_passed = ground (arith, gate_passed_cases gates id)

-- A gate of the list, where all have passed.
gate_passed_all :
    (gates : List AgentReleaseGate) (id : ReleaseGateId)
    → keep is_blocked gates ≡ []
    → contains id (map (λ g. g.gate_id) gates) ≡ true
    → gate_passed id gates ≡ some true
unfolding gate_passed
gate_passed_all [] id all_passed h = cc
gate_passed_all (g ∷ gates) id all_passed h =
    ground (arith, gate_passed_cases gates id, gate_passed_all gates id)

-- All gates have passed, and all ids are there: so have those of any list of ids.
every_passed :
    (gates : List AgentReleaseGate) (ids : List ReleaseGateId)
    → keep is_blocked gates ≡ []
    → all (λ id. contains id (map (λ g. g.gate_id) gates)) ids ≡ true
    → all (has_passed gates) ids ≡ true
unfolding has_passed
every_passed gates [] all_passed h = refl
every_passed gates (id ∷ ids) all_passed h =
    ground (arith, gate_passed_all gates id all_passed, every_passed gates ids all_passed)

-- Where some gate is blocked, and every blocked gate has a reason, there is a reason.
reasons_of-blocked :
    (gates : List AgentReleaseGate)
    → validate_gates gates ≡ ok tt
    → is_empty (reasons_of (keep is_blocked gates)) ≡ is_empty (keep is_blocked gates)
unfolding validate_gates validate_gate reasons_of is_empty
reasons_of-blocked [] h = refl
reasons_of-blocked (g ∷ gates) h = ground (arith, reasons_of-blocked gates)

pub is_empty-true : {A : Type 0} (xs : List A) → is_empty xs ≡ true → xs ≡ []
unfolding is_empty
is_empty-true [] h = refl
is_empty-true (x ∷ xs) h = cc

-- Every id is one of the ids.
ids_listed : all (λ id. contains id agent_release_gate_ids) agent_release_gate_ids ≡ true
unfolding agent_release_gate_ids GateId-discrete
ids_listed = refl

is_empty-map : {A B : Type 0} (f : A → B) (xs : List A) → is_empty (map f xs) ≡ is_empty xs
unfolding is_empty
is_empty-map f [] = refl
is_empty-map f (x ∷ xs) = refl

module _ (o : AgentReleaseObservation)
    (complete : (any not (identity_fields o) || is_empty o.trajectory_report_ids) ≡ false) where
  eligible_validates :
      o.status ≡ AgentReleaseStatus.eligible_for_human_review
      → all holds (release_flags o) ≡ true
      → is_empty o.blocking_reasons ≡ true
      → validate_release_observation o ≡ ok tt
  unfolding validate_release_observation validate_release check_release_flags
  eligible_validates status flags no_reasons = ground arith

  blocked_validates :
      o.status ≡ AgentReleaseStatus.blocked
      → o.release_threshold_policy_passed ≡ false
      → is_empty o.blocking_reasons ≡ false
      → validate_release_observation o ≡ ok tt
  unfolding validate_release_observation validate_release check_release_flags
  blocked_validates status threshold reasons = ground arith

module _ {F : Type 0} (h : ReleaseHashes F) (r : AgentReleaseAssessment F) where
  -- What the validator checks of the parts that the observation reads.
  validate_assessment-parts :
      validate_assessment h r ≡ ok tt
      → (is_empty r.payload.trajectory_evidence ≡ false)
        × (validate_gates r.payload.gates ≡ ok tt)
        × (check_gates h r.payload ≡ ok tt)
  unfolding validate_assessment
  validate_assessment-parts valid =
      ground (
        arith,
        Result-cases (validate_gates r.payload.gates),
        Result-cases (check_gates h r.payload),
      )

  check_gates-parts :
      check_gates h r.payload ≡ ok tt
      → (map (λ g. g.gate_id) r.payload.gates ≡ agent_release_gate_ids)
        × (r.payload.blocking_reasons ≡ reasons_of (keep is_blocked r.payload.gates))
        × (r.payload.status ≡ release_status r.payload.gates)
  unfolding check_gates
  check_gates-parts valid = ground (
    arith,
    ==→eq (map (λ g. g.gate_id) r.payload.gates) agent_release_gate_ids,
    ==→eq r.payload.blocking_reasons (reasons_of (keep is_blocked r.payload.gates)),
    ==→eq r.payload.status (release_status r.payload.gates),
  )

  -- The observation of an eligible assessment has all its flags and no reasons; that of a blocked one
  -- has not the threshold flag, and has a reason.
  abbrev gates : List AgentReleaseGate
  gates = r.payload.gates

  abbrev o : AgentReleaseObservation
  o = agent_release_observation r

  flags_of_eligible :
      keep is_blocked gates ≡ []
      → map (λ g. g.gate_id) gates ≡ agent_release_gate_ids
      → r.payload.status ≡ ReleaseStatus.eligible_for_human_review
      → all holds (release_flags o) ≡ true
  unfolding agent_release_observation release_flags agent_release_gate_ids
  flags_of_eligible all_passed ids status =
      let listed =
        subst (λ l. all (λ id. contains id l) agent_release_gate_ids ≡ true) (sym ids) ids_listed in
      let every = every_passed gates agent_release_gate_ids all_passed listed in
      ground (arith, ==_refl ReleaseStatus.eligible_for_human_review)

  -- The identities of the observation are there, and so is a trajectory report.
  identity_of_observation :
      is_empty r.payload.trajectory_evidence ≡ false
      → (any not (identity_fields o) || is_empty o.trajectory_report_ids) ≡ false
  unfolding agent_release_observation identity_fields
  identity_of_observation captures =
      ground (arith, is_empty-map (λ t. t.report_id) r.payload.trajectory_evidence)

  -- The release observation that is made of a validated assessment passes the validation that a
  -- preflight makes of it.
  pub agent_release_observation-validates :
      validate_assessment h r ≡ ok tt
      → validate_release_observation (agent_release_observation r) ≡ ok tt
  unfolding agent_release_observation release_status observed_status
  agent_release_observation-validates valid =
      let (captures, gates_valid, checked) = validate_assessment-parts valid in
      let (ids, reasons, status) = check_gates-parts checked in
      elim (Bool-cases (is_empty (keep is_blocked gates))) [
        | inl none_blocked ↦
            let all_passed = is_empty-true (keep is_blocked gates) none_blocked in
            let eligible : r.payload.status ≡ ReleaseStatus.eligible_for_human_review =
              ground arith in
            eligible_validates o (identity_of_observation captures) (ground arith)
              (flags_of_eligible all_passed ids eligible)
              (ground (arith, reasons_of-blocked gates gates_valid))
        | inr some_blocked ↦
            let is_not_eligible : r.payload.status ≡ ReleaseStatus.blocked = ground arith in
            blocked_validates o (identity_of_observation captures) (ground arith) (ground arith)
              (ground (arith, reasons_of-blocked gates gates_valid))
      ]
