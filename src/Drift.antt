-- ===== src/Drift.antt =====
-- agent_trajectory/drift.py: the comparison of two score reports, and the validator of its report.
pub mod Types
pub mod Tolerated
pub mod Built
use atlas_pulse.Prelude.{
  ℕ, Bool, true, false, ◌&&◌, ◌||◌, not, Option, none, some, List, [], ◌∷◌, ◌++◌, length, map, all,
  contains, Result, ok, raise, ◌>>◌, ◌>>=◌, raise_if, leb, ◌==◌, text_eq, nat_eq, bool_eq,
  if◌then◌else◌, Text, codes, take, sorted, keep, range_from,
}
use atlas_pulse.Prelude.Int.{pos}
use atlas_pulse.Polling.Types.{Datetime}
use atlas_pulse.AgentRuns.{is_empty}
use atlas_pulse.Release.Types.{
  DriftStatus, CandidateSystemDefinition, AgentTrajectoryDriftThresholds, drift_status_eq,
}
use atlas_pulse.Drift.Types.{
  DriftMetric, Floats, AgentTrajectoryMetricSummary, AgentTrajectoryScoreReport,
  AgentTrajectoryDriftCheck, DriftPayload, AgentTrajectoryDriftReport, metrics_eq,
}

pub data DriftError : Type 0 where
  check_bounds check_mismatch naive_timestamp not_chronological check_count : DriftError
  metrics_mismatch failed_mismatch status_mismatch digest_mismatch id_mismatch : DriftError
  same_report benchmark_mismatch system_mismatch slices_mismatch : DriftError

abbrev pub Compared : Type 0 → Type 0
Compared A = Result DriftError A

-- The place of a metric's name in alphabetical order.
unfoldable pub metric_rank : DriftMetric → ℕ
metric_rank DriftMetric.claim_trace_rate = 0
metric_rank DriftMetric.evidence_inspection_rate = 1
metric_rank DriftMetric.p95_latency_relative_increase = 2
metric_rank DriftMetric.p95_step_relative_increase = 3
metric_rank DriftMetric.policy_compliance_rate = 4
metric_rank DriftMetric.strict_end_to_end_pass_rate = 5
metric_rank DriftMetric.strict_trajectory_pass_rate = 6

unfoldable pub check_aware : Datetime → Compared (Unit {0})
check_aware d = elim d.offset [ none ↦ raise naive_timestamp | some _ ↦ ok tt ]

-- `set(a) != set(b)`, negated
unfoldable pub same_names : List Text → List Text → Bool
same_names a b = all (λ name. contains name b) a && all (λ name. contains name a) b

-- `tuple(check.metric for check in checks if not check.passed)`
unfoldable pub failed_of : {F : Type 0} → List (AgentTrajectoryDriftCheck F) → List DriftMetric
failed_of checks = map (λ c. c.metric) (keep (λ c. not c.passed) checks)

unfoldable pub status_of : List DriftMetric → DriftStatus
status_of failed = if is_empty failed then DriftStatus.stable else DriftStatus.drift_detected

module _ {F : Type 0} (f : Floats F) where
  -- `max(a, b)`, which is `a` of equal values
  unfoldable pub max_of : F → F → F
  max_of a b = if f.lt a b then b else a

  unfoldable pub is_within : F → F → Bool
  is_within deterioration maximum = f.le deterioration (f.add maximum f.slack)

  unfoldable pub is_bounded : F → Bool
  is_bounded x = f.is_finite x && f.le f.zero x

  -- AgentTrajectoryDriftCheck: the bounds of its fields, then `validate_pass`
  unfoldable pub is_bounded? : Option F → Bool
  is_bounded? none = true
  is_bounded? (some x) = is_bounded x

  unfoldable pub is_within? : Option F → F → Bool
  is_within? none maximum = false
  is_within? (some x) maximum = is_within x maximum

  unfoldable pub validate_check : AgentTrajectoryDriftCheck F → Compared (Unit {0})
  validate_check c = do
    raise_if
        (not (
          f.is_finite c.baseline
          && f.is_finite c.current
          && is_bounded? c.deterioration
          && is_bounded c.maximum_deterioration))
        check_bounds
    raise_if (not (c.passed == is_within? c.deterioration c.maximum_deterioration)) check_mismatch

  unfoldable pub validate_checks : List (AgentTrajectoryDriftCheck F) → Compared (Unit {0})
  validate_checks [] = ok tt
  validate_checks (c ∷ checks) = validate_check c >> validate_checks checks

  unfoldable pub rate_check : DriftMetric → F → F → F → Compared (AgentTrajectoryDriftCheck F)
  rate_check metric baseline current maximum_drop = do
    let deterioration = max_of f.zero (f.sub baseline current)
    let check : AgentTrajectoryDriftCheck F = record {
      metric = metric;
      baseline = baseline;
      current = current;
      deterioration = some deterioration;
      maximum_deterioration = maximum_drop;
      passed = is_within deterioration maximum_drop;
      comparison = codes "baseline minus current must not exceed the maximum rate drop";
    }
    validate_check check
    ok check

  unfoldable pub relative_increase : F → F → Option F
  relative_increase baseline current =
      if f.lt f.zero baseline
      then some (max_of f.zero (f.sub (f.div current baseline) f.one))
      else if f.same current f.zero
      then some f.zero
      else none

  unfoldable pub relative_increase_check :
      DriftMetric → F → F → F → Compared (AgentTrajectoryDriftCheck F)
  relative_increase_check metric baseline current maximum_increase = do
    let deterioration = relative_increase baseline current
    let check : AgentTrajectoryDriftCheck F = record {
      metric = metric;
      baseline = baseline;
      current = current;
      deterioration = deterioration;
      maximum_deterioration = maximum_increase;
      passed = is_within? deterioration maximum_increase;
      comparison = codes "current relative increase must not exceed the maximum";
    }
    validate_check check
    ok check

  -- `==` of two candidate systems
  unfoldable pub same_system : CandidateSystemDefinition F → CandidateSystemDefinition F → Bool
  same_system a b =
      a.candidate_id == b.candidate_id
      && a.model_id == b.model_id
      && a.model_revision == b.model_revision
      && a.model_artifact_sha256 == b.model_artifact_sha256
      && a.adapter_version == b.adapter_version
      && a.input_template_sha256 == b.input_template_sha256
      && a.runtime == b.runtime
      && a.runtime_version == b.runtime_version
      && f.same_parameters a.parameters b.parameters

  -- The seven checks of two summaries, in their order.
  unfoldable pub checks_of :
      AgentTrajectoryDriftThresholds F
      → AgentTrajectoryMetricSummary F
      → AgentTrajectoryMetricSummary F
      → Compared (List (AgentTrajectoryDriftCheck F))
  checks_of policy before after = do
    trajectory ←
        rate_check DriftMetric.strict_trajectory_pass_rate before.strict_trajectory_pass_rate
          after.strict_trajectory_pass_rate policy.max_strict_trajectory_pass_rate_drop
    end_to_end ←
        rate_check DriftMetric.strict_end_to_end_pass_rate before.strict_end_to_end_pass_rate
          after.strict_end_to_end_pass_rate policy.max_strict_end_to_end_pass_rate_drop
    compliance ←
        rate_check DriftMetric.policy_compliance_rate before.policy_compliance_rate
          after.policy_compliance_rate policy.max_policy_compliance_rate_drop
    inspection ←
        rate_check DriftMetric.evidence_inspection_rate before.evidence_inspection_rate
          after.evidence_inspection_rate policy.max_evidence_inspection_rate_drop
    claims ←
        rate_check DriftMetric.claim_trace_rate before.claim_trace_rate after.claim_trace_rate
          policy.max_claim_trace_rate_drop
    latency ←
        relative_increase_check DriftMetric.p95_latency_relative_increase before.p95_latency_ms
          after.p95_latency_ms policy.max_p95_latency_relative_increase
    steps ←
        relative_increase_check DriftMetric.p95_step_relative_increase before.p95_step_count
          after.p95_step_count policy.max_p95_step_relative_increase
    ok (trajectory ∷ end_to_end ∷ compliance ∷ inspection ∷ claims ∷ latency ∷ steps ∷ [])

  -- `agent_trajectory_drift_sha256` is the parameter `digest`.
  module _ (digest : DriftPayload F → Text) where
    -- AgentTrajectoryDriftReport.validate_report, after the validation of the checks. The patterns of
    -- the report's two identities hold by their equation with the digest.
    unfoldable pub validate_drift_report : AgentTrajectoryDriftReport F → Compared (Unit {0})
    validate_drift_report r = do
      let p = r.payload
      raise_if (not (length p.checks == 7)) check_count
      validate_checks p.checks
      check_aware p.generated_at
      check_aware p.baseline_captured_at
      check_aware p.current_captured_at
      raise_if (leb p.current_captured_at.instant p.baseline_captured_at.instant) not_chronological
      raise_if (not (sorted leb (map (λ c. metric_rank c.metric) p.checks) == range_from 0 7))
          metrics_mismatch
      raise_if (not (p.failed_metrics == failed_of p.checks)) failed_mismatch
      raise_if (not (p.status == status_of (failed_of p.checks))) status_mismatch
      raise_if (not (r.drift_report_sha256 == digest p)) digest_mismatch
      raise_if (not (r.drift_report_id == codes "trajectory-drift-" ++ take 20 (digest p)))
          id_mismatch

    -- The report of the checks: the draft with its digest and the identity made of it.
    unfoldable pub report_of :
        AgentTrajectoryScoreReport F
        → AgentTrajectoryScoreReport F
        → AgentTrajectoryDriftThresholds F
        → Datetime
        → List (AgentTrajectoryDriftCheck F)
        → AgentTrajectoryDriftReport F
    report_of baseline current policy generated_at checks =
        let draft : DriftPayload F = record {
          generated_at = record { instant = generated_at.instant; offset = some (pos 0) };
          benchmark_id = baseline.benchmark_id;
          system = baseline.system;
          baseline_report_id = baseline.report_id;
          baseline_report_sha256 = baseline.report_sha256;
          baseline_captured_at = baseline.captured_at;
          current_report_id = current.report_id;
          current_report_sha256 = current.report_sha256;
          current_captured_at = current.captured_at;
          thresholds = policy;
          status = status_of (failed_of checks);
          failed_metrics = failed_of checks;
          checks = checks;
        } in
        record {
          drift_report_id = codes "trajectory-drift-" ++ take 20 (digest draft);
          drift_report_sha256 = digest draft;
          payload = draft;
        }

    -- The two reports are validated ones. `generated_at` is the given time, or the clock's.
    unfoldable pub compare_agent_trajectory_reports :
        AgentTrajectoryScoreReport F
        → AgentTrajectoryScoreReport F
        → AgentTrajectoryDriftThresholds F
        → Datetime
        → Compared (AgentTrajectoryDriftReport F)
    compare_agent_trajectory_reports baseline current policy generated_at = do
      raise_if (baseline.report_id == current.report_id) same_report
      raise_if (not (baseline.benchmark_id == current.benchmark_id)) benchmark_mismatch
      raise_if (not (same_system baseline.system current.system)) system_mismatch
      raise_if (not (same_names baseline.slices current.slices)) slices_mismatch
      raise_if (leb current.captured_at.instant baseline.captured_at.instant) not_chronological
      checks ← checks_of policy baseline.overall current.overall
      check_aware generated_at
      let report = report_of baseline current policy generated_at checks
      validate_drift_report report
      ok report
