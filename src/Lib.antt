-- ===== src/Lib.antt =====
-- Verification of AtlasPulse, a service that polls public disruption feeds, publishes their events
-- and hands bounded evidence to governed agents (src/atlas_pulse). The files follow its parts:
--
-- - Prelude: shared tests, lists, texts, results as values, integers and decimals.
-- - StreamId: the stream ids and cursors of src/atlas_pulse/source_poll_store.py.
-- - Polling: src/atlas_pulse/source_polling.py. `Types` has its models as records, `Validate` their
--   validators in the order of the checks, `Freshness` the evaluation of poll states.
-- - PollStore: InMemorySourcePollStore of src/atlas_pulse/source_poll_store.py. A method returns its
--   result beside the store that it leaves, so an exception keeps what was assigned before it.
-- - EvidencePack: src/atlas_pulse/evidence_packs.py, the assembly of content-addressed packs within a
--   budget and their own validation; with the data it reads of src/atlas_pulse/retrieval/base.py.
-- - AgentRuns: src/atlas_pulse/agent_runs.py, proposals and preflight manifests of agent runs.
-- - RateLimit: src/atlas_pulse/rate_limit.py, request budgets with their script in Valkey.
-- - MemoryBus: src/atlas_pulse/streams/memory.py, the idempotent event bus in memory.
-- - Ingestion: src/atlas_pulse/ingestion/service.py, the cycle of one poll, which closes the attempt that
--   it has opened in the store whatever stage it ends in.
-- - Governance: src/atlas_pulse/agent_governance.py. The artifacts and their builders are in the module
--   itself, signed entries in `Ledger`, the verification of a chain and `append` in `Chain`, the
--   observation of an approval in `Resolve`, which AgentRuns checks.
-- - Release: src/atlas_pulse/agent_trajectory/release.py, the assessments with their validator, and
--   `agent_release_observation` of agent_runs.py, which hands an assessment to AgentRuns. What
--   `evaluate_agent_release` measures is in `Measures`, its gates in `Gates`, the function in `Evaluate`.
-- - Drift: src/atlas_pulse/agent_trajectory/drift.py, the comparison of two score reports of
--   agent_trajectory/scoring.py. Floats are a parameter with their operations.
-- - HttpClient: src/atlas_pulse/sources/http.py, the fetch with bounded retries, whose documents and
--   errors Ingestion takes. What the HTTP library answers is data, and the loop of the retry library
--   is a parameter with what it documents as a hypothesis.
-- - PollHistory: SourcePollHistoryResponse of src/atlas_pulse/source_polling.py and the route
--   source_poll_history of src/atlas_pulse/api.py, over PollStore.
-- - Trajectory: src/atlas_pulse/agent_trajectory/base.py, the traces of a candidate with their
--   validators in the module itself and their import in `Import`; Scoring:
--   src/atlas_pulse/agent_trajectory/scoring.py, the outcome of a trace in the module itself, its
--   inputs in `Bind`, summaries in `Summary` and the score in `Score`, whose reports Drift compares.
-- - Tests: runs on small inputs, and the theorems at inputs that meet their conditions.
--
-- Conventions. A Python exception is the `raise` of a result, with one error for each `raise` of the
-- code. Text is the list of its code points. Times and durations, floating-point seconds in the code,
-- are whole microseconds, which is what a datetime holds. Fields whose type admits one literal are
-- left out. Loops over collections are structural recursion. The only fuel is that of `print_nat`,
-- one more than the number that it prints, of which each digit takes a tenth.
-- Hashes over canonical JSON, base64, signatures, the arithmetic of floats and the commands of Valkey
-- are parameters. A theorem on the rate limit names as hypotheses what INCR and PEXPIRE do to a
-- counter.
-- Not modelled: HTTP routes but the one of PollHistory, database access, the sources' parsers, the web
-- client, the other evaluation pipelines and the command-line tools, which are I/O and file formats
-- around the parts above.
pub mod AgentRuns
pub mod Drift
pub mod EvidencePack
pub mod Governance
pub mod HttpClient
pub mod Ingestion
pub mod MemoryBus
pub mod PollHistory
pub mod PollStore
pub mod Polling
pub mod Prelude
pub mod RateLimit
pub mod Release
pub mod Scoring
pub mod StreamId
pub mod Tests
pub mod Trajectory
