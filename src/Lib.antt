-- ===== src/Lib.antt =====
-- ZeroShield: the safety core of the validation platform under src/zeroshield.
--
-- The platform measures how a weak baseline and a strict mitigation treat synthetic requests. An
-- experiment is authored and reviewed in the studio, passes the safety policy, is run case by
-- case through two strategies, and its results become metrics, a comparison and a verdict.
--
-- Files and the code that they model:
--   Base        Boolean tests, lists, integers, actions that may raise, and the interface of
--               Python's floats with the laws that rounding keeps (Base/Floats) and a fixed-point
--               instance that meets them (Base/Fixed); sorted sets of texts (Base/Sorted) and
--               chains of results (Base/Results).
--   Models      src/zeroshield/models: enums, JSON values, experiment definitions, runs, metrics and
--               versions, each with a Boolean function for what pydantic validates.
--   Policies    src/zeroshield/policies: rules SAFE-001 to SAFE-004 and SafetyPolicy.evaluate.
--   Audit       src/zeroshield/audit: the log of events, which calls append to.
--   Auth        src/zeroshield/auth: the table of users (Accounts), login and lockout (Service),
--               sessions and the changes to users (Sessions). The check of a password and the
--               digest of a token are arguments, a fresh token and the clock too.
--   Strategies  src/zeroshield/strategies: the four strategies and the registry. They take any JSON
--               value; what hashing a list or a dict raises is a result. `str` of a value that is
--               no text is the argument `str_of`.
--   Metrics     src/zeroshield/metrics: calculate_metrics and compare, for any type of floats.
--   Verdict     src/zeroshield/verdict/engine.py: compute_verdict.
--   Assurance   src/zeroshield/assurance and api/routes/revalidation.py: regression detection, control
--               effectiveness, and revalidation candidates.
--   Intelligence
--               src/zeroshield/intelligence and models/vulnerability.py: the records of the feeds
--               become contributions (Normalisation), which are merged into one view of each CVE
--               (Dedup); the view has a priority (Priority) and may be a candidate for validation
--               (Candidates); Repository has the tables, and Sync is run_sync, which composes all
--               of these; Http is fetch_json, with which a connector asks for a page. What Python
--               and pydantic read from a text (dates, floats, URLs), `str` of a value, the words of
--               an explanation, the clock and the order of a set are arguments (the records Python,
--               Pydantic and Surroundings), and so is what a connector yields.
--   Runner      src/zeroshield/runners: one run of an experiment through both strategies.
--   JobStore    src/zeroshield/services/job_store.py: the files of jobs, each a record or corrupt.
--   Worker      src/zeroshield/worker: a job from its message to its last record.
--   Studio      src/zeroshield/studio and api/routes/studio.py: the workflow of versions (Approval),
--               the tables (Repository), the service calls (Service) and the routes (Routes).
--
-- A store is a record that a call takes and returns; what was written before a raise stays
-- written. Floats are an interface, so that no theorem depends on how they round; laws are
-- hypotheses of the theorems that need them. A time is a number of ticks. Recursion is
-- structural throughout, so that no function needs fuel.
--
-- Not modelled: the databases, message broker, object store, container sandbox, front end and
-- remote services, which are libraries that the code calls. Of the intelligence part, the
-- paging of the connectors, correlation, the import of a workbook, and the queries with
-- filters; generators, evidence and the orchestration of a run; the AI analyst, which asks a model.
pub mod Base
pub mod Models
pub mod Samples
pub mod Policies
pub mod Intelligence
pub mod Audit
pub mod Auth
pub mod Strategies
pub mod Metrics
pub mod Verdict
pub mod Assurance
pub mod Runner
pub mod JobStore
pub mod Worker
pub mod Studio
