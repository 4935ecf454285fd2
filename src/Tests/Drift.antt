-- ===== src/Tests/Drift.antt =====
-- The drift between two captures of one system, with percent for rates.
use atlas_pulse.Prelude.{
  ℕ, ◌+◌, ◌-◌, ◌*◌, ◌/◌, ◌≡◌, true, List, [], ◌∷◌, Text, codes, ok, raise, refl, ltb, leb, ◌==◌,
  nat_eq, ℕ_discrete, Text-discrete, arith, ◌↔◌, Bool-discrete, sort_insert, sorted, range_from,
}
use atlas_pulse.AgentRuns.{is_empty}
use atlas_pulse.Release.Types.{DriftStatus, DriftStatus-discrete}
use atlas_pulse.Drift.Types.{
  Floats, AgentTrajectoryMetricSummary, AgentTrajectoryScoreReport, AgentTrajectoryDriftCheck,
  DriftPayload, Metrics-discrete,
}
use atlas_pulse.Drift.{
  metric_rank, check_aware, same_names, failed_of, status_of, max_of, is_within, is_bounded,
  is_bounded?, is_within?, validate_check, validate_checks, rate_check, relative_increase,
  relative_increase_check, same_system, checks_of, validate_drift_report, report_of,
  compare_agent_trajectory_reports,
}
use atlas_pulse.Drift.Tolerated.{IsTolerated}
use atlas_pulse.Drift.Built.{compare-returns, compare-stable}
use atlas_pulse.Tests.Polling.{at}
use atlas_pulse.Tests.Release.{digest, system, thresholds}

unfoldable pub drift_program : Unit {0}
unfolding ℕ_discrete Text-discrete Bool-discrete DriftStatus-discrete Metrics-discrete sort_insert
    sorted range_from is_empty metric_rank check_aware same_names failed_of status_of max_of
    is_within is_bounded is_bounded? is_within? validate_check validate_checks rate_check
    relative_increase relative_increase_check same_system checks_of validate_drift_report report_of
    compare_agent_trajectory_reports
drift_program = tt

abbrev pub floats : Floats ℕ
floats = record {
  zero = 0;
  one = 1;
  slack = 0;
  add = λ a b. a + b;
  sub = λ a b. a - b;
  div = λ a b. a / b;
  lt = ltb;
  le = leb;
  same = λ a b. a == b;
  is_finite = λ a. true;
  ratio = λ a b. a * 100 / b;
  fixed6 = λ a. codes "number";
  fixed3 = λ a. codes "number";
  same_parameters = λ a b. true;
}

abbrev pub drift_sha256 : DriftPayload ℕ → Text
drift_sha256 p = digest

abbrev pub summary : ℕ → AgentTrajectoryMetricSummary ℕ
summary rate = record {
  case_count = 12;
  answered_case_count = 11;
  abstained_case_count = 1;
  policy_compliance_rate = 100;
  termination_consistency_rate = 100;
  evidence_inspection_rate = 98;
  claim_trace_rate = 98;
  strict_trajectory_pass_rate = rate;
  grounded_strict_pass_rate = 96;
  strict_end_to_end_pass_rate = 95;
  mean_step_count = 5;
  p95_step_count = 9;
  mean_input_tokens = 900;
  mean_output_tokens = 90;
  mean_latency_ms = 400;
  p95_latency_ms = 800;
}

-- The report of the capture at a time, with its identity and its rate of strict passes.
abbrev pub score_report : Text → ℕ → ℕ → AgentTrajectoryScoreReport ℕ
score_report id time rate = record {
  report_id = id;
  report_sha256 = digest;
  generated_at = at (time + 1);
  benchmark_id = codes "bench-1";
  captured_at = at time;
  task_id = codes "grounded-task-1";
  task_sha256 = digest;
  candidate_batch_id = codes "grounded-batch-1";
  candidate_batch_sha256 = digest;
  grounded_report_id = codes "grounded-report-1";
  grounded_report_sha256 = digest;
  trajectory_batch_id = codes "trajectory-batch-1";
  trajectory_batch_sha256 = digest;
  system = system;
  case_count = 12;
  overall = summary rate;
  slices = codes "all" ∷ [];
}

abbrev pub first : AgentTrajectoryScoreReport ℕ
first = score_report (codes "trajectory-report-1") 5 97

abbrev pub second : AgentTrajectoryScoreReport ℕ
second = score_report (codes "trajectory-report-2") 8 95

abbrev pub checks : List (AgentTrajectoryDriftCheck ℕ)
unfolding drift_program
checks = elim (checks_of floats thresholds (summary 97) (summary 95)) [ ok cs ↦ cs | raise _ ↦ [] ]

compare-returns_example :
    (compare_agent_trajectory_reports floats drift_sha256 first second thresholds (at 9)
      ≡ ok (report_of floats drift_sha256 first second thresholds (at 9) checks))
    × (validate_drift_report floats drift_sha256
          (report_of floats drift_sha256 first second thresholds (at 9) checks)
        ≡ ok tt)
unfolding drift_program
compare-returns_example =
    compare-returns floats drift_sha256 first second thresholds (at 9) checks
      (record {
        distinct = refl;
        benchmark = refl;
        system = refl;
        slices = refl;
        ordered = omega arith;
        baseline_aware = refl;
        current_aware = refl;
      })
      refl refl

compare-stable_example :
    ((report_of floats drift_sha256 first second thresholds (at 9) checks).payload.status
      ≡ DriftStatus.stable)
    ↔ IsTolerated floats thresholds (summary 97) (summary 95)
unfolding drift_program
compare-stable_example =
    compare-stable floats drift_sha256 first second thresholds (at 9)
      (report_of floats drift_sha256 first second thresholds (at 9) checks) refl

-- A fall by more than 2 percent is drift.
drift_detected :
    status_of (
      failed_of (elim (checks_of floats thresholds (summary 97) (summary 90)) [
        | ok cs ↦ cs
        | raise _ ↦ []
      ]))
    ≡ DriftStatus.drift_detected
unfolding drift_program
drift_detected = refl
