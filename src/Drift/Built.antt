-- ===== src/Drift/Built.antt =====
-- The report of a comparison.
use atlas_pulse.Prelude.{
  Bool, true, false, some, List, [], ◌∷◌, length, map, ok, ◌>>=◌, leb, ◌==◌, text_eq, nat_eq, Text,
  arith, refl, ◌≡◌, ==_refl, inl, inr, sym, returns_before, sorted, range_from, bool_eq,
  sort_insert, Text-discrete, ℕ_discrete,
}
use mathlib.Core.Path.{subst}
use mathlib.Core.List.{map-map}
use atlas_pulse.Prelude.{Result-cases}
use atlas_pulse.Prelude.{length-map}
use atlas_pulse.Prelude.{all, ◌<◌, ◌↔◌}
use atlas_pulse.AgentRuns.{is_empty}
use atlas_pulse.Release.Types.{DriftStatus, drift_status_eq}
use atlas_pulse.Drift.Types.{metrics_eq}
use atlas_pulse.Polling.Types.{Datetime}
use atlas_pulse.Release.Types.{AgentTrajectoryDriftThresholds}
use atlas_pulse.Drift.Types.{
  DriftMetric, Floats, AgentTrajectoryMetricSummary, AgentTrajectoryScoreReport,
  AgentTrajectoryDriftCheck, DriftPayload, AgentTrajectoryDriftReport,
}
use atlas_pulse.Drift.Tolerated.{
  IsTolerated, rate_holds, increase_holds, rate_holds-RateHolds, increase_holds-IncreaseHolds,
}
use atlas_pulse.Drift.{
  Compared, metric_rank, rate_check, relative_increase_check, validate_check, validate_checks,
  checks_of, same_system, same_names, report_of, validate_drift_report,
  compare_agent_trajectory_reports, check_aware, failed_of, status_of, is_within, is_within?,
  max_of, relative_increase,
}

module _ {F : Type 0} (f : Floats F) where
  -- A check that is valid, of a metric, and passed if the measured deterioration is within the limit.
  abbrev IsCheckOf : DriftMetric → Bool → AgentTrajectoryDriftCheck F → Type 0
  IsCheckOf metric passed c =
      (validate_check f c ≡ ok tt) × (c.metric ≡ metric) × (c.passed ≡ passed)

  -- What is returned after a check of the same value
  checked_value :
      (c d : AgentTrajectoryDriftCheck F)
      → (validate_check f c >>= λ _. ok c) ≡ ok d
      → (validate_check f c ≡ ok tt) × (c ≡ d)
  checked_value c d h = ground (arith, returns_before (validate_check f c) (λ _. ok c) d h)

  rate_check-parts :
      (metric : DriftMetric) (baseline current maximum : F) (c : AgentTrajectoryDriftCheck F)
      → rate_check f metric baseline current maximum ≡ ok c
      → IsCheckOf metric (is_within f (max_of f f.zero (f.sub baseline current)) maximum) c
  unfolding rate_check
  rate_check-parts metric baseline current maximum c h =
      let (valid, same) =
        checked_value
          (record {
            metric = metric;
            baseline = baseline;
            current = current;
            deterioration = some (max_of f f.zero (f.sub baseline current));
            maximum_deterioration = maximum;
            passed = is_within f (max_of f f.zero (f.sub baseline current)) maximum;
            comparison = _;
          })
          c h in
      subst (IsCheckOf metric (is_within f (max_of f f.zero (f.sub baseline current)) maximum)) same
        (valid, refl, refl)

  relative_increase_check-parts :
      (metric : DriftMetric) (baseline current maximum : F) (c : AgentTrajectoryDriftCheck F)
      → relative_increase_check f metric baseline current maximum ≡ ok c
      → IsCheckOf metric (is_within? f (relative_increase f baseline current) maximum) c
  unfolding relative_increase_check
  relative_increase_check-parts metric baseline current maximum c h =
      let (valid, same) =
        checked_value
          (record {
            metric = metric;
            baseline = baseline;
            current = current;
            deterioration = relative_increase f baseline current;
            maximum_deterioration = maximum;
            passed = is_within? f (relative_increase f baseline current) maximum;
            comparison = _;
          })
          c h in
      subst (IsCheckOf metric (is_within? f (relative_increase f baseline current) maximum)) same
        (valid, refl, refl)

  module _ (policy : AgentTrajectoryDriftThresholds F)
      (before after : AgentTrajectoryMetricSummary F) where
    -- The seven metrics with whether they pass, in the order of the checks.
    abbrev verdicts : List (DriftMetric × Bool)
    verdicts =
        (
          DriftMetric.strict_trajectory_pass_rate,
          rate_holds f before.strict_trajectory_pass_rate after.strict_trajectory_pass_rate
              policy.max_strict_trajectory_pass_rate_drop,
        )
        ∷ (
          DriftMetric.strict_end_to_end_pass_rate,
          rate_holds f before.strict_end_to_end_pass_rate after.strict_end_to_end_pass_rate
              policy.max_strict_end_to_end_pass_rate_drop,
        )
        ∷ (
          DriftMetric.policy_compliance_rate,
          rate_holds f before.policy_compliance_rate after.policy_compliance_rate
              policy.max_policy_compliance_rate_drop,
        )
        ∷ (
          DriftMetric.evidence_inspection_rate,
          rate_holds f before.evidence_inspection_rate after.evidence_inspection_rate
              policy.max_evidence_inspection_rate_drop,
        )
        ∷ (
          DriftMetric.claim_trace_rate,
          rate_holds f before.claim_trace_rate after.claim_trace_rate
              policy.max_claim_trace_rate_drop,
        )
        ∷ (
          DriftMetric.p95_latency_relative_increase,
          increase_holds f before.p95_latency_ms after.p95_latency_ms
              policy.max_p95_latency_relative_increase,
        )
        ∷ (
          DriftMetric.p95_step_relative_increase,
          increase_holds f before.p95_step_count after.p95_step_count
              policy.max_p95_step_relative_increase,
        )
        ∷ []

    abbrev AreChecks : List (DriftMetric × Bool) → List (AgentTrajectoryDriftCheck F) → Type 0
    AreChecks vs cs = (validate_checks f cs ≡ ok tt) × (map (λ c. (c.metric, c.passed)) cs ≡ vs)

    AreChecks-cons :
        (m : DriftMetric) (b : Bool) (vs : List (DriftMetric × Bool))
        (c : AgentTrajectoryDriftCheck F) (cs : List (AgentTrajectoryDriftCheck F))
        → IsCheckOf m b c
        → AreChecks vs cs
        → AreChecks ((m, b) ∷ vs) (c ∷ cs)
    unfolding validate_checks
    AreChecks-cons m b vs c cs (valid, metric, passed) (rest, same) =
        (rw (valid) rest, rw (metric, passed, same) refl)

    checks_of-parts :
        (cs : List (AgentTrajectoryDriftCheck F))
        → checks_of f policy before after ≡ ok cs
        → AreChecks verdicts cs
    unfolding checks_of validate_checks
    checks_of-parts cs h =
        let (c1, e1, h1) = returns_before (rate_check f _ _ _ _) _ cs h in
        let (c2, e2, h2) = returns_before (rate_check f _ _ _ _) _ cs h1 in
        let (c3, e3, h3) = returns_before (rate_check f _ _ _ _) _ cs h2 in
        let (c4, e4, h4) = returns_before (rate_check f _ _ _ _) _ cs h3 in
        let (c5, e5, h5) = returns_before (rate_check f _ _ _ _) _ cs h4 in
        let (c6, e6, h6) = returns_before (relative_increase_check f _ _ _ _) _ cs h5 in
        let (c7, e7, h7) = returns_before (relative_increase_check f _ _ _ _) _ cs h6 in
        let built : (c1 ∷ c2 ∷ c3 ∷ c4 ∷ c5 ∷ c6 ∷ c7 ∷ []) ≡ cs = ground arith in
        subst (AreChecks verdicts) built (
          AreChecks-cons _ _ _ c1 (c2 ∷ c3 ∷ c4 ∷ c5 ∷ c6 ∷ c7 ∷ [])
            (rate_check-parts _ _ _ _ c1 e1)
            (AreChecks-cons _ _ _ c2 (c3 ∷ c4 ∷ c5 ∷ c6 ∷ c7 ∷ []) (rate_check-parts _ _ _ _ c2 e2)
              (AreChecks-cons _ _ _ c3 (c4 ∷ c5 ∷ c6 ∷ c7 ∷ []) (rate_check-parts _ _ _ _ c3 e3) (
                AreChecks-cons _ _ _ c4 (c5 ∷ c6 ∷ c7 ∷ []) (rate_check-parts _ _ _ _ c4 e4) (
                  AreChecks-cons _ _ _ c5 (c6 ∷ c7 ∷ []) (rate_check-parts _ _ _ _ c5 e5) (
                    AreChecks-cons _ _ _ c6 (c7 ∷ []) (relative_increase_check-parts _ _ _ _ c6 e6)
                      (AreChecks-cons _ _ [] c7 [] (relative_increase_check-parts _ _ _ _ c7 e7)
                        (refl, refl))))))))

    -- A check has failed exactly if some verdict is negative.
    is_empty-failed_of :
        (cs : List (AgentTrajectoryDriftCheck F))
        → is_empty (failed_of cs)
          ≡ all (λ (v : DriftMetric × Bool). v.1) (map (λ c. (c.metric, c.passed)) cs)
    unfolding failed_of is_empty
    is_empty-failed_of [] = refl
    is_empty-failed_of (c ∷ cs) = ground (arith, is_empty-failed_of cs)

    -- Each metric stands once among the checks.
    AreChecks-ranks :
        (cs : List (AgentTrajectoryDriftCheck F))
        → AreChecks verdicts cs
        → ((length cs == 7) ≡ true)
          × ((sorted leb (map (λ c. metric_rank c.metric) cs) == range_from 0 7) ≡ true)
    unfolding sorted sort_insert range_from metric_rank Text-discrete ℕ_discrete
    AreChecks-ranks cs (valid, same) = (
      rw (sym (length-map {B = DriftMetric × Bool} (λ c. (c.metric, c.passed)) cs), same) refl,
      rw
          (
            sym (
                map-map {B = DriftMetric × Bool} (λ (v : DriftMetric × Bool). metric_rank v.0)
                  (λ c. (c.metric, c.passed)) cs),
            same,
          )
          refl,
    )

    -- The verdicts of the checks say what is tolerated.
    IsTolerated-verdicts : all (λ v. v.1) verdicts ≡ true ↔ IsTolerated f policy before after
    IsTolerated-verdicts = (
      λ h. record {
        trajectory = (rate_holds-RateHolds f _ _ _).0 (ground arith);
        end_to_end = (rate_holds-RateHolds f _ _ _).0 (ground arith);
        compliance = (rate_holds-RateHolds f _ _ _).0 (ground arith);
        inspection = (rate_holds-RateHolds f _ _ _).0 (ground arith);
        claims = (rate_holds-RateHolds f _ _ _).0 (ground arith);
        latency = (increase_holds-IncreaseHolds f _ _ _).0 (ground arith);
        steps = (increase_holds-IncreaseHolds f _ _ _).0 (ground arith);
      },
      λ h. ground (
        arith,
        (rate_holds-RateHolds f _ _ _).1 h.trajectory,
        (rate_holds-RateHolds f _ _ _).1 h.end_to_end,
        (rate_holds-RateHolds f _ _ _).1 h.compliance,
        (rate_holds-RateHolds f _ _ _).1 h.inspection,
        (rate_holds-RateHolds f _ _ _).1 h.claims,
        (increase_holds-IncreaseHolds f _ _ _).1 h.latency,
        (increase_holds-IncreaseHolds f _ _ _).1 h.steps,
      ),
    )

  module _ (digest : DriftPayload F → Text) (baseline current : AgentTrajectoryScoreReport F)
      (policy : AgentTrajectoryDriftThresholds F) (generated_at : Datetime) where
    -- What the two reports of a comparison have in common, and their order.
    pub record AreComparable : Type 0 where
      pub distinct : (baseline.report_id == current.report_id) ≡ false
      pub benchmark : baseline.benchmark_id ≡ current.benchmark_id
      pub system : same_system f baseline.system current.system ≡ true
      pub slices : same_names baseline.slices current.slices ≡ true
      pub ordered : baseline.captured_at.instant < current.captured_at.instant
      pub baseline_aware : check_aware baseline.captured_at ≡ ok tt
      pub current_aware : check_aware current.captured_at ≡ ok tt

    abbrev pub report : List (AgentTrajectoryDriftCheck F) → AgentTrajectoryDriftReport F
    report checks = report_of f digest baseline current policy generated_at checks

    abbrev pub compared : Compared (AgentTrajectoryDriftReport F)
    compared = compare_agent_trajectory_reports f digest baseline current policy generated_at

    report_of-validates :
        (checks : List (AgentTrajectoryDriftCheck F))
        → AreComparable
        → AreChecks policy baseline.overall current.overall
            (verdicts policy baseline.overall current.overall)
            checks
        → validate_drift_report f digest (report checks) ≡ ok tt
    unfolding validate_drift_report check_aware report_of
    report_of-validates checks c ok_checks =
        let (count, ranks) =
          AreChecks-ranks policy baseline.overall current.overall checks ok_checks in
        let later : leb current.captured_at.instant baseline.captured_at.instant ≡ false =
          ground arith in
        rw (count, ok_checks.0, c.baseline_aware, c.current_aware, later, ranks) (ground (arith))

    -- Two comparable reports whose checks can be made, at an aware time, have a drift report of these
    -- checks, and it passes its validation.
    pub compare-returns :
        (checks : List (AgentTrajectoryDriftCheck F))
        → AreComparable
        → checks_of f policy baseline.overall current.overall ≡ ok checks
        → check_aware generated_at ≡ ok tt
        → (compared ≡ ok (report checks)) × (validate_drift_report f digest (report checks) ≡ ok tt)
    unfolding compare_agent_trajectory_reports
    compare-returns checks c h aware =
        let valid =
          report_of-validates checks c
            (checks_of-parts policy baseline.overall current.overall checks h) in
        let same_benchmark : (baseline.benchmark_id == current.benchmark_id) ≡ true =
          ground (arith, c.benchmark, ==_refl current.benchmark_id) in
        let later : leb current.captured_at.instant baseline.captured_at.instant ≡ false =
          ground arith in
        (rw (c.distinct, same_benchmark, c.system, c.slices, later, h, aware, valid) refl, valid)

    -- A report that is returned is that of the checks.
    compare-parts :
        (r : AgentTrajectoryDriftReport F)
        → compared ≡ ok r
        → (checks : List (AgentTrajectoryDriftCheck F)) × (checks_of f policy baseline.overall
              current.overall
            ≡ ok checks)
          × (report checks ≡ r)
    unfolding compare_agent_trajectory_reports
    compare-parts r h = elim (Result-cases (checks_of f policy baseline.overall current.overall)) [
      | inl (checks, made) ↦ (
        checks,
        made,
        ground (
          arith,
          Result-cases (check_aware generated_at),
          Result-cases (validate_drift_report f digest (report checks)),
        ),
      )
      | inr (e, raised) ↦ absurd (ground arith)
    ]

    -- The drift report that a comparison returns says stable exactly if no metric deteriorates
    -- by more than its limit and 1e-12: each rate by its fall, and each percentile by its
    -- growth relative to a positive baseline, while one with another baseline has to be zero. A
    -- metric that does not deteriorate counts as 0.0, which has to be within its limit too.
    pub compare-stable :
        (r : AgentTrajectoryDriftReport F)
        → compared ≡ ok r
        → (r.payload.status ≡ DriftStatus.stable)
          ↔ IsTolerated f policy baseline.overall current.overall
    unfolding status_of report_of
    compare-stable r h =
        let (checks, made, same) = compare-parts r h in
        let (_, verdicts_same) =
          checks_of-parts policy baseline.overall current.overall checks made in
        let empty : is_empty (failed_of checks)
            ≡ all (λ (v : DriftMetric × Bool). v.1)
                (verdicts policy baseline.overall current.overall) =
          subst (λ vs. is_empty (failed_of checks) ≡ all (λ (v : DriftMetric × Bool). v.1) vs)
            verdicts_same (is_empty-failed_of policy baseline.overall current.overall checks) in
        subst
          (λ (r : AgentTrajectoryDriftReport F).
            (r.payload.status ≡ DriftStatus.stable)
            ↔ IsTolerated f policy baseline.overall current.overall)
          same
          (
            λ h. (IsTolerated-verdicts policy baseline.overall current.overall).0 (ground arith),
            λ h. ground (arith, (IsTolerated-verdicts policy baseline.overall current.overall).1 h),
          )
