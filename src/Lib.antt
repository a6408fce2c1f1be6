-- ===== src/Lib.antt =====
-- Axignal: the parsing and admission of procurement notices, their lifecycle, the job queues,
-- capability tokens, the pipeline of document proposals, the admission of their facts into the
-- canonical ledger, the validators of the procurement domain, and the decisions on launches,
-- enterprise access, opportunities and contacts.
--
-- The program turns TED eForms notices into claims and decides, deterministically, which claims
-- may be admitted. Rehearsal.antt is apps/api/src/axignal_api/procurement_admission_rehearsal.py:
-- a claim and its fingerprint (Rehearsal/Claim), the context of the source and the policy
-- (Rehearsal/Context), decisions and results (Rehearsal/Decision),
-- `InMemoryProcurementAdmissionStore` with `commit`, its failpoint and its rollback
-- (Rehearsal/Store), and `decide` and `_evaluate_candidate` (Rehearsal/Policy).
--
-- Ted.antt is connectors/ted_eforms.py there: a contract notice with its claims, and in
-- Ted/Parser `TEDEFormsCN16Parser`, which reads it off an element tree.
--
-- Lifecycle.antt is procurement_lifecycle_rehearsal.py beside it, which uses that store and those
-- contexts: parsed notices (Lifecycle/Notice), `TEDEFormsLifecycleParser` (Lifecycle/Parser for
-- contract notices with their changes, Lifecycle/Parser/ResultNotice, Awards and Composed for
-- results), `_validate_lineage` (Lifecycle/Lineage), `_build_evidence` (Lifecycle/Evidence),
-- `_decide` and `_idempotency_key` (Lifecycle/Decisions), `_build_events` (Lifecycle/Events),
-- `_build_dossier` (Lifecycle/Dossier) and `run` (Lifecycle/Assembler).
--
-- Outbox.antt is queue.py, admission_queue.py and proposal_queue.py there, with the outbox tables
-- of repository.py, admission_outbox_store.py and proposal_repository.py: payloads and how they
-- are read (Outbox/Payload), the jobs (Outbox/Jobs), the queues (Outbox/Queue), the three
-- statements on a table (Outbox/Table) and `publish_pending` (Outbox/Publisher). A table is the
-- list of its rows in the order of `created_at`. Capability.antt is capability_tokens.py, with
-- instants as microseconds.
--
-- Proposals.antt is document_proposals.py there: its records (Proposals/Types), the parser of
-- paragraphs, whose texts are lists of characters (Proposals/Parser), the regular expressions of
-- the scanner as a small matcher that returns what may follow a match (Proposals/Regex,
-- Proposals/Scanner), the two gateways of a model (Proposals/Gateway), evidence, candidates, the
-- boundary and the dossier (Proposals/Drafts), and `execute` (Proposals/Pipeline).
--
-- Admission.antt is the admission ledger there, admission_*.py but for the queue and the outbox:
-- the rows and packages (Admission/Types), `NUMBER_PATTERN` (Admission/Number),
-- `_evaluate_candidate` (Admission/Facts), the checks on the handoff with its run
-- (Admission/Handoff), on the source and its document, which is parsed anew by Proposals
-- (Admission/Sources), and on the evidence (Admission/Evidence), the rows that a decision writes
-- (Admission/Ledger), `decide` (Admission/Flow), `record_failure` and `process`
-- (Admission/Runtime). The tables are lists of rows; a transaction that raises leaves them as
-- they were, and statements of the database that fail are not modelled. A package with a value of
-- another type than the code reads is a case of its own, with the exception that the checks raise
-- on it, also one that `process` does not catch. Columns that hold the time are left out but for
-- the order by `created_at`, which is a parameter.
--
-- Launch.antt is scripts/p24_acceptance_reference.py, Enterprise.antt is
-- scripts/p20_enterprise_reference.py, Opportunity.antt is
-- scripts/p07_opportunity_operations_reference.py, Contact.antt is the contact channel of
-- apps/api/src/axignal_api/procurement_domain.py with o01_contact_policy.py, and Procurement.antt
-- is the other models of procurement_domain.py with their validators. Common.antt has what the
-- parts share: texts, results, sorting, the values that are hashed. Tests.antt has runs on
-- concrete inputs.
--
-- A method that changes state takes it as its last argument and returns it beside its result,
-- also where it raises: a pair of a `Result` and the new store. An exception is a constructor of
-- the component's error type, or its message in the parsers and validators, or its class and
-- message in the outbox. `uuid4()` is an argument. Loops are structural recursion on the list
-- that the source walks, so no fuel is needed. Numbers are natural numbers, or integers where the
-- code tests for negative ones; none of the modelled code computes with machine words.
--
-- The functions of Python's library that the code calls (`json.dumps` in canonical form, `repr`,
-- `sha256`, `casefold`, `date.fromisoformat`) are the fields of the record `Library` of
-- Common/Json, over which everything is stated for every such library; the scheme of a URL is an
-- argument in Contact. Equal hashes are never taken to mean equal inputs. defusedxml and the
-- regular expressions are the record `XmlLibrary` of Common/Xml; `json`, UUIDs and conversions
-- are `PayloadLibrary` of Outbox/Payload; base64, `hmac` and timestamps are `TokenLibrary` of
-- Capability. Where a theorem needs that such a library reads back what it wrote, that is a
-- hypothesis of it. The cache server's answer to each message is an argument of
-- `publish_pending`. The assembler takes its parser's two passes as an argument. Instants near
-- the ends of the calendar, where `datetime` overflows, and lone surrogates are not considered.
--
-- Not modelled: defusedxml, the database repositories but for the tables of the outboxes and of
-- the admission ledger, the workers that consume the queues, HTTP routes, billing and identity,
-- the web applications, and the scripts that only read files and report.
pub mod Common
pub mod Rehearsal
pub mod Ted
pub mod Outbox
pub mod Admission
pub mod Capability
pub mod Lifecycle
pub mod Launch
pub mod Opportunity
pub mod Contact
pub mod Procurement
pub mod Proposals
pub mod Enterprise
pub mod Tests
