-- ===== src/Lib.antt =====
-- Verification of the core of VERONICA, the control plane for the spending and the safety of
-- agent chains under src/veronica: policies that are validated, numbered, signed and kept; their
-- promotion by a gated lifecycle; tenants; the sharing of budgets; simulation and replay of
-- decisions; the streams of events; and the pipeline that plans each step, runs it and records
-- it.
--
-- The parts, and the file that models each:
-- - Types: the frozen dataclasses of src/veronica/types.py, generic in the type of floats.
--   OrgPolicy: OrgPolicy.validate and OrgPolicy.clamp of the same file.
-- - PolicyAudit: _to_canonical and compute_policy_hash of src/veronica/policy_audit.py.
-- - Distributor: PolicyDistributor of src/veronica/distribution/policy_distributor.py, with
--   validate, distribute, distribute_many and verify_signature.
-- - PolicyRegistry: PolicyRegistry of src/veronica/api/policy_registry.py. The critical sections
--   of update and register are functions of their own; PolicyRegistry/Concurrency interleaves
--   them as a step relation, and PolicyRegistry/Races says what can come of it.
-- - Rollouts: src/veronica/rollouts/models.py and registry.py. RolloutApi: the endpoints of
--   src/veronica/rollouts/router.py over the policy registry and the rollout registry together.
-- - Tenants: src/veronica/tenants/models.py and registry.py.
-- - Events: the StepOutcome of src/veronica/schemas/events.py. Values: Python values and their
--   conversions.
-- - Simulation: src/veronica/api/routes/simulate.py. Replay: src/veronica/replay/engine.py and
--   models.py.
-- - Arbiters: src/veronica/arbiter.py and proportional_arbiter.py. Budget: the Lua scripts of
--   src/veronica/_redis_scripts.py. RedisArbiter: src/veronica/redis_arbiter.py, which uses
--   both.
-- - Emitter: src/veronica/buffered_emitter.py. Ingest: src/veronica/ingest/event_ingestor.py,
--   with the conversion of events in Ingest/Conversion. MemoryStore: src/veronica/store.py.
--   Analyzer: src/veronica/analyzer.py. Planner: src/veronica/planner.py.
-- - Orchestrator: VeronicaOS of src/veronica/os.py, over the protocols of protocols.py as an
--   interface (Stages). Orchestrator/Before is before_step, with the section under the lock
--   apart, Orchestrator/After is after_step, and Orchestrator/Execution is step, run_step and
--   StepContext; Orchestrator/Wiring fills the interface with the default stages. TimeGuard:
--   src/veronica/_timeguard.py. Collector: src/veronica/collector.py. CostModels:
--   src/veronica/cost_model.py and regression_cost_model.py. HistoryAnalyzer:
--   src/veronica/history_analyzer.py. AdaptivePlanner: src/veronica/adaptive_planner.py.
-- - FileStore: src/veronica/file_store.py, with its statistics in FileStore/Stats and its files
--   in FileStore/Files.
-- - Resolver: src/veronica/tenants/resolver.py. TenantApi: src/veronica/api/routes/tenants.py,
--   over the tenant registry and the resolver together. PolicyApi:
--   src/veronica/api/routes/policies.py. EventsApi: src/veronica/api/routes/events.py. Export:
--   src/veronica/api/routes/export.py. Auth: src/veronica/api/auth.py. IncidentsApi:
--   src/veronica/api/routes/incidents.py. RunsApi: src/veronica/api/routes/runs.py. Responses:
--   the response of a policy, in src/veronica/api/schemas.py.
-- - Prelude, Float: shared tests, lists, dictionaries, integers, results, and the interface of
--   floats. Examples: the theorems at concrete inputs.
--
-- How the code is modelled: a method is a function that takes the state and returns the new
-- state with a Result, whose err carries the exception; what a method wrote before it raised
-- stays written. A dict is an association list in insertion order. Clocks, the execution engine
-- of veronica-core with its price table, faults of the disk, fresh identifiers, digests, HMAC,
-- case folding and rounding are arguments. Floats are an interface (Float) with the IEEE 754
-- facts that a theorem needs (FloatLaws); Float/Sample implements both, so the laws can hold.
-- Integers are unbounded, as in Python; float and math.isfinite raise OverflowError on one that
-- is too large, and fits_float says which. pydantic's reading of a float as an integer, where a
-- response model wants one, is an argument. A lock that is held from a method's first access to
-- its last makes the method one step; where it is released in between, the parts are apart.
--
-- Bounds: the two loops over parents in the tenant registry run on the 100 rounds that the code
-- allows. The three attempts of EventIngestor._write are a recursion on their number. The paging
-- loop of the export runs on the 1000 pages that the code allows. All other loops recurse on a
-- list. The amounts of the shared budget are taken to be below 10 ** 14 micro-dollars, since Lua
-- writes 14 digits of a number; a failing append of the file store is taken to write nothing.
--
-- Not modelled: the store in PostgreSQL, whose logic is SQL, the wiring of the application, the
-- remaining HTTP routes, request validation by pydantic, metrics, logging and the user
-- interface. The texts of error messages, reasons and summaries are left out, except that the
-- reasons of a simulation are kept as data.
pub mod Prelude
pub mod Float
pub mod Types
pub mod OrgPolicy
pub mod PolicyAudit
pub mod Distributor
pub mod PolicyRegistry
pub mod Rollouts
pub mod RolloutApi
pub mod Values
pub mod Tenants
pub mod Events
pub mod Simulation
pub mod Replay
pub mod Arbiters
pub mod Budget
pub mod RedisArbiter
pub mod Emitter
pub mod Ingest
pub mod MemoryStore
pub mod Analyzer
pub mod Planner
pub mod TimeGuard
pub mod Collector
pub mod CostModels
pub mod HistoryAnalyzer
pub mod AdaptivePlanner
pub mod Orchestrator
pub mod FileStore
pub mod Resolver
pub mod TenantApi
pub mod PolicyApi
pub mod EventsApi
pub mod Export
pub mod Auth
pub mod IncidentsApi
pub mod RunsApi
pub mod Responses
pub mod Examples
