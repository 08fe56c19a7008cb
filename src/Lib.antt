-- ===== src/Lib.antt =====
-- Verification of the domain core of opensource-project-intelligence, a Go service that collects
-- the public activity of open source projects and has language models analyse it.
--
-- The parts, and the files that model them (paths from the repository's root):
--   * Job.antt: internal/job/job.go. A durable job as a record; New, Transition, Cancel, Claim,
--     CommitPage and Coalesce are functions to the changed record or an error. Workers hold a job by
--     a lease. Job/Invariant has the operations as data and the invariant, Job/Runs the runs of
--     operations, Job/Lease two workers at one job, Job/Completion a job that is worked off.
--   * Snowflake.antt: internal/platform/id/snowflake.go. The generator of the identifiers that every
--     other part uses. Its clock, sleep and leases are an environment over any type of worlds, and
--     `next` runs the stages of Generator.Next in order. Snowflake/Stages and Snowflake/Next follow
--     the stages, Snowflake/Order and Snowflake/Fields read the identifiers.
--   * Access.antt: internal/access/access.go and internal/access/member.go. Authorize and the rules
--     on members and service accounts. Access/Permissions compares the decision with a table of
--     permissions, Access/Scopes is about service accounts.
--   * Membership.antt: internal/platform/accessstore/store.go, the transactions ApproveMember,
--     UpdateMember and DeleteAccount. They call the rules of Access.antt on a record of tables.
--     Membership/Admins, Membership/Approval and Membership/Sessions say what they do.
--   * Project.antt: internal/project/project.go and internal/project/rules.go. The project with
--     its repositories and sources. Project/Valid is about Validate, Project/Lifecycle about
--     Transition, and Project/Repositories, Project/Primary and Project/Removal about the
--     operations on repositories. Project/Association models Association.Correct and the kinds of
--     a source, Project/History the history ranges of rules.go, which Project/Ranges is about,
--     and Project/Slugs its slugs.
--   * Analysis.antt: internal/analysis. Analysis/Run has the types and transitions of run.go,
--     Analysis/Storage its ValidateForPersistence, Analysis/History its feedback, selections and
--     queries, and Analysis/Guard guard.go and readiness.go. Analysis/Evidence and
--     Analysis/Persistence are about the evidence of an output, Analysis/Lifecycle about the
--     transitions, Analysis/Selections about the histories.
--   * Evidence.antt: internal/evidence. Evidence objects and purge manifests of evidence.go, and in
--     Evidence/Store the Put and Get of store.go over the services they call. Evidence/Objects and
--     Evidence/Kept say what they promise.
--   * Access/Tokens.antt: internal/access/session.go and internal/access/cursor.go, session tokens
--     and signed cursors. Access/Codecs says how they decode.
--   * Agent.antt: internal/analysis/agent/service.go and memory_store.go. The assistant's proposals
--     and confirmations: Agent/Store has the store in memory, Agent/Service Propose and Confirm as
--     actions on the store and the rest of the world, and Agent/System many confirmations at one
--     store as a step relation. Agent/Moves, Agent/Ends and Agent/Once are about its runs,
--     Agent/Refines relates Confirm to them, and Agent/Replay is about a second confirmation.
--   * Collector.antt: RunBounded of internal/collector/bounded.go, as a step relation in which the
--     loop, the tasks and the context interleave. Collector/Bound counts, Collector/Outcome compares
--     the errors with those of a sequential run.
--   * Alert.antt: internal/alert/alert.go. Alert/Evaluation is about the occurrence that facts make,
--     Alert/Changes about the members' transitions.
--   * Policy.antt: internal/policy/policy.go, with what it calls of internal/metric/metric.go in
--     Policy/Metric. Policy/Evaluate has Evaluate, Policy/Versions the states of a version and the
--     pages of a history. Policy/Verdict compares the outcome with a reading of the rules,
--     Policy/Pages follows the pages.
--   * Recovery.antt: internal/platform/recovery/reconcile.go. Recovery/Names says what is reported.
--   * Base.antt: tests on numbers, lists, results, actions on a state, signed integers, floats,
--     instants and texts. Each part has its tests and its theorems at concrete inputs in a module
--     Examples.
--
-- Conventions. A Go pair of a value and an error is a Result. An int64 is an integer whose increment
-- wraps around at 2^63; bounds that keep it from wrapping stand among a theorem's hypotheses. A
-- string is a list of code points, an instant is a number of nanoseconds, a nil pointer is none. A
-- string type with constants is a data type with one more constructor for any other string. Loops
-- are recursion on their list, so there is no fuel. Calls of libraries are arguments: parsing of
-- URIs and JSON, Unicode tables beyond ASCII, case folding, time zones, digests, base64, the sum of
-- floats. Where a function calls other services, they are a record of functions over any type of
-- worlds. A float64 is its 64 bits.
--
-- Not modelled: the HTTP and SQL layers, the adapters of services, the generated code, the web
-- application, failures of the database inside a transaction, concurrency within one generator
-- (which holds a mutex), and the packages of statistics on floating-point numbers.
pub mod Base
pub mod Job
pub mod Project
pub mod Access
pub mod Membership
pub mod Snowflake
pub mod Analysis
pub mod Evidence
pub mod Agent
pub mod Collector
pub mod Alert
pub mod Policy
pub mod Recovery
