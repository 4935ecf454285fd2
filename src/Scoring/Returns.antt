-- ===== src/Scoring/Returns.antt =====
-- A valid trace has a valid outcome.
use atlas_pulse.Prelude.{
  ℕ, ◌≤◌, Bool, true, false, ◌&&◌, List, [], ◌∷◌, length, keep, contains, ok, Bool-cases, inl, inr,
  ◌==◌, nat_eq, bool_eq, text_eq, Text, arith, refl, ◌≡◌, ==_refl, length-keep-le, returns_before,
}
use atlas_pulse.Prelude.Order.{distinct_texts}
use atlas_pulse.AgentRuns.{is_empty}
use atlas_pulse.Drift.Types.{Floats}
use atlas_pulse.Drift.{is_bounded}
use atlas_pulse.Trajectory.Types.{AgentTrajectoryCase, TrajectoryEnv}
use atlas_pulse.Trajectory.{
  check_ids, not_evidence_id, is_evidence_id, not_claim_id, is_claim_id, validate_case,
}
use atlas_pulse.Scoring.{
  inspected_of, is_traced, is_consistent, is_compliant, rate_or, number_of, is_rate, is_near,
  validate_result, outcome_of, trajectory_outcome,
}

-- Of floats: 0.0 and 1.0 and the quotient of two integers, the smaller one first, lie between 0 and 1,
-- and the difference of a rate and itself is not above 1e-12.
pub record RateLaws {F : Type 0} (f : Floats F) : Type 0 where
  pub zero_is_rate : is_rate f f.zero ≡ true
  pub one_is_rate : is_rate f f.one ≡ true
  pub ratio_is_rate : (a b : ℕ) → a ≤ b → 1 ≤ b → is_rate f (f.ratio a b) ≡ true
  pub near_self : (x : F) → is_rate f x ≡ true → is_near f x x ≡ true

module _ {F : Type 0} (f : Floats F) (laws : RateLaws f) where
  rate_or-is_rate :
      (default : F) (a b : ℕ)
      → is_rate f default ≡ true
      → a ≤ b
      → is_rate f (rate_or f default a b) ≡ true
  unfolding rate_or
  rate_or-is_rate default a b h le = elim (Bool-cases (b == 0)) [
    | inl zero ↦ rw zero h
    | inr some_of_them ↦
        rw some_of_them (laws.ratio_is_rate a b le (ground (arith, ==_refl {A = ℕ} 0)))
  ]

  number_of-is_rate : (b : Bool) → is_rate f (number_of f b) ≡ true
  unfolding number_of
  number_of-is_rate true = laws.one_is_rate
  number_of-is_rate false = laws.zero_is_rate

module _ {F : Type 0} (env : TrajectoryEnv F) where
  -- The fields of a valid case that its outcome takes over.
  abbrev HasFields : AgentTrajectoryCase F → Type 0
  HasFields c =
      (1 ≤ length c.steps)
      × (length c.steps ≤ 64)
      × (1 ≤ c.input_tokens)
      × (1 ≤ c.output_tokens)
      × (is_bounded env.floats c.latency_ms ≡ true)

  not_empty-length : {A : Type 0} → (xs : List A) → is_empty xs ≡ false → 1 ≤ length xs
  unfolding is_empty
  not_empty-length [] h = absurd (ground arith)
  not_empty-length (x ∷ xs) h = omega arith

  validate_case-HasFields : (c : AgentTrajectoryCase F) → validate_case env c ≡ ok tt → HasFields c
  unfolding validate_case
  validate_case-HasFields c h =
      let (_, _, h1) =
        returns_before (check_ids not_evidence_id is_evidence_id c.available_evidence_ids) _ tt h in
      let (_, _, h2) =
        returns_before (check_ids not_evidence_id is_evidence_id c.required_evidence_ids) _ tt h1 in
      let (_, _, h3) =
        returns_before (check_ids not_claim_id (is_claim_id env) c.required_claim_ids) _ tt h2 in
      let present : is_empty c.steps ≡ false = ground arith in
      (not_empty-length c.steps present, ground arith, ground arith, ground arith, ground arith)

module _ {F : Type 0} (env : TrajectoryEnv F) (laws : RateLaws env.floats) where
  validate_result-outcome_of :
      (c : AgentTrajectoryCase F) (passed : Bool) (claims : List (Text × List Text))
      → HasFields env c
      → validate_result env.floats (outcome_of env.floats c passed claims) ≡ ok tt
  unfolding validate_result outcome_of
  validate_result-outcome_of c passed claims (some_step, few_steps, input, output, latency) =
      let ids = distinct_texts c.required_evidence_ids in
      let inspected : Text → Bool = λ id. contains id (inspected_of c.steps) in
      let consistent = is_consistent c.response_status c.steps in
      let evidence_rate =
        rate_or env.floats env.floats.one (length (keep inspected ids)) (length ids) in
      let claim_rate =
        rate_or env.floats (number_of env.floats consistent)
          (length (keep (is_traced c.steps) claims)) (length claims) in
      let evidence_is_rate : is_rate env.floats evidence_rate ≡ true =
        rate_or-is_rate env.floats laws _ _ _ laws.one_is_rate (length-keep-le inspected ids) in
      let claim_is_rate : is_rate env.floats claim_rate ≡ true =
        rate_or-is_rate env.floats laws _ _ _ (number_of-is_rate env.floats laws consistent)
          (length-keep-le (is_traced c.steps) claims) in
      let strict =
        is_compliant c.capabilities
        && consistent
        && env.floats.same evidence_rate env.floats.one
        && env.floats.same claim_rate env.floats.one in
      ground (
        arith,
        evidence_is_rate,
        claim_is_rate,
        laws.near_self evidence_rate evidence_is_rate,
        laws.near_self claim_rate claim_is_rate,
        length-keep-le inspected ids,
        length-keep-le (is_traced c.steps) claims,
        ==_refl strict,
        ==_refl (strict && passed),
      )

  -- Where 0.0, 1.0 and quotients of counts, the smaller one first, are rates, and a rate is near
  -- itself, a valid trace has its outcome: no check of the outcome's validator fails.
  pub trajectory_outcome-returns :
      (c : AgentTrajectoryCase F) (passed : Bool) (claims : List (Text × List Text))
      → validate_case env c ≡ ok tt
      → trajectory_outcome env.floats c passed claims ≡ ok (outcome_of env.floats c passed claims)
  unfolding trajectory_outcome
  trajectory_outcome-returns c passed claims valid =
      rw (validate_result-outcome_of c passed claims (validate_case-HasFields env c valid)) refl
