-- ===== src/Lib.antt =====
-- Verification of the GeM bid compliance platform: the job queue and its worker, the durable
-- tables, the coordinator that moves a bidder's submission through its pipeline, the outbox, the
-- registry of flags, the compliance engine with its registration rules, the scoring of a bidder's
-- documents and the quality of their evidence.
--
-- The program. A submission is ingested into durable tables (`ProcessingCoordinator` over a unit of
-- work), goes through the stages of a pipeline, and is worked on by jobs that a queue hands out
-- under leases. The queue is mirrored into a job table; events leave through an outbox. The
-- compliance engine groups the requirements of a tender by capability and runs a rule for each
-- against the bidder's evidence and the answers of an authoritative source, which it keeps for the
-- audit trail; the flags that a rule raises stand in a registry. The document scoring turns the
-- documents, the results of the engine, the verifications and the findings into a score and a
-- traffic light; the evidence quality says how far the extracted text of a document can be relied
-- on.
--
-- The files, by the code that they model:
--   Base           strings, lists, dicts, outcomes and JSON values that the other files share
--   Jobs/Model     src/infrastructure/jobs/models.py
--   Jobs/Queue, Jobs/Lease   src/infrastructure/jobs/queue.py (`InMemoryJobQueue`)
--   Jobs/Idempotency         src/infrastructure/jobs/idempotency.py
--   Jobs/Durable   src/infrastructure/jobs/durable.py, with the job record and its table
--   Pipeline       src/infrastructure/pipeline.py
--   Store          src/infrastructure/persistence/memory.py and records.py
--   Processing/Transactions  src/infrastructure/persistence/unit_of_work.py
--   Processing/Artifacts     src/infrastructure/artifacts/memory.py and store.py
--   Processing     src/infrastructure/processing.py, with `audit_event` of audit.py: the calls in
--                  Processing/Ingest, Processing/Advance and Processing/StageJobs
--   Outbox         src/infrastructure/outbox.py
--   Worker         src/application/worker.py, and in Worker/Failures src/infrastructure/errors.py
--   Flags          src/compliance_engine/flags/registry.py, its table in Flags/Rows1 to Rows12
--   Rules          src/compliance_engine: the models in Rules/Model, the tracking provider of engine.py
--                  in Rules/Calls, rules/executor.py in Rules/Executor, `ComplianceEngine` of engine.py
--                  in Rules/Engine, and of rules: gst.py in Rules/Gst, gst_return_filing.py in
--                  Rules/GstReturns, pan.py in Rules/Pan, udyam.py in Rules/Udyam, mca.py in Rules/Mca
--   Scoring        src/ai_verification/document_scoring: models.py in Scoring/Model, policy.py in
--                  Scoring/Policy, engine.py in Scoring (the whole run) and Scoring/Document (one
--                  document), with the operations on floats in Scoring/Numbers
--   Quality        src/ai_verification/evidence_quality: signals.py, state.py and assessment.py in
--                  Quality/Model, scoring.py and evaluator.py in Quality, and gating.py and the
--                  evaluator of document_meta_evaluator.py in Quality/Documents
-- Jobs/Valid, Jobs/Claim, Jobs/Trace, Jobs/Ownership, Jobs/Recover and the files below Jobs/Durable
-- hold the proofs about the queue; Pipeline/Moves, Store/Linked, Store/Trace, Processing/Atomic,
-- Processing/Advance/Moves, Processing/Ingest/Success and Refusal, Processing/Trace,
-- Processing/Artifacts/Contents, Outbox/Relay, Worker/Drains, Flags/Listed, Rules/Executor/Aligned,
-- Rules/Gst/Passing, Rules/GstReturns/Reasons, Rules/Registrations with Passing, Registered,
-- Flagged and Company, the files below Rules/Engine, Scoring/Reasons, Scoring/Lights,
-- Scoring/Bounds, Scoring/Returns and Quality/States those about the rest. The Tests files run the
-- code and apply the theorems to concrete data.
--
-- How the code is modelled. A method is a function from the state, and from what it reads off the
-- clock or draws from `uuid`, to the state that it leaves behind and its value or exception. Locks
-- make each method one step, and every record handed out is a deep copy, so there is neither
-- interleaving within a call nor aliasing. A `dict` is an association list in insertion order.
-- Timestamps and delays are ticks, since the code compares them, adds to them and multiplies them
-- by whole numbers. A value typed `Any` is a JSON value, and a float that is only stored is kept as
-- it is spelled. The power in the delay of a retry overflows as that of floats does. A rule is the
-- sequence of its calls on a provider, which answers as a function of the query; the engine's
-- tracking provider runs that sequence and keeps the answers. The scoring does arithmetic on
-- floats: they are an interface of operations (Scoring/Numbers), and a bound names the laws of
-- their order that it needs. A set of strings that the scoring sorts is a sorted list without
-- repetition. `json.dumps`, SHA-256, `strip` and `upper` of a string, how pydantic reads a Boolean,
-- `str` and `repr` of a value, the store that has the texts of documents, the sink of the outbox,
-- the providers of verifications and what the application service makes of a job are parameters.
--
-- Loops. A loop over a collection is recursion on it; the loop of `claim` runs at most as often as
-- the deque is long, as in the source. The worker's `while True` runs on fuel: one round more than
-- the attempts that all jobs have left is enough, since every round that claims a job uses one up.
--
-- Not modelled: the Redis and PostgreSQL backends, whose promises the code in memory states, the
-- file system store of artifacts, the clients of external verification providers, the other
-- compliance rules with the financial evaluation, the risk, identity, cross-bidder and explanation
-- engines of the AI verification, and the application service that wires the parts. Of the ranges
-- that pydantic demands in the document scoring those of the scores are modelled, those of the
-- policy, its weights included, and of confidences and counts are not. The binaries of documents
-- stand in a store of artifacts of their own, which a rollback does not touch and which a call of
-- the coordinator does not write in the model.
pub mod Base
pub mod Jobs
pub mod Pipeline
pub mod Store
pub mod Processing
pub mod Worker
pub mod Outbox
pub mod Rules
pub mod Flags
pub mod Scoring
pub mod Quality
