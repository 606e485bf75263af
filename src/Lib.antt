-- ===== src/Lib.antt =====
-- The Python agent of this repository answers questions on projects and files issues. A user's
-- request creates a run and a background job; a worker claims the job, executes the run's graph and
-- records the outcome. The database is shared by the API and all workers.
--
--  * Jobs.antt and Queue.antt: the job queue, src/project_agent/infrastructure/jobs/postgres.py with
--    application/ports/job_queue.py. A table of rows is the state; enqueue, claim, heartbeat, complete,
--    fail, get and reap_expired are one function each. Queue/ holds the invariant, the life cycle of
--    a job as a step relation, histories of transactions and the leases.
--  * Access.antt, Documents.antt: application/services/authorization.py over
--    infrastructure/db/repositories/authorization.py, and the tables of documents.
--  * Runs.antt, RunRepository.antt: domain/runs.py and infrastructure/db/repositories/runs.py, with
--    threads, runs and the log of events.
--  * RunExecution.antt: application/services/run_execution.py, what a worker does to a run.
--  * RunService.antt: application/services/runs.py, what a request does to a run.
--  * RunWorker.antt: workers/run_execution.py, workers/handlers.py and workers/main.py, one job of a
--    run with the agent's graph as a parameter.
--  * RunHistory.antt: histories of requests, of workers' transactions and of the sessions of graphs
--    (runtime/qa.py, runtime/issue.py) on one database. Of a graph's session the writes of its store
--    on the run and its log are listed; what else it writes is in QaStore.antt and IssueWorkflow.antt.
--  * Issues.antt, IssueTracker.antt, IssueWorkflow.antt, IssueCreation.antt: a confirmed draft becomes
--    an issue, src/project_agent/application/services/issue_creation.py over
--    infrastructure/project_tracker/sandbox.py and infrastructure/db/repositories/issue_workflow.py,
--    in the session of runtime/issue.py. The identifier extractor, the digest of a request and
--    str.upper are parameters (IssueTexts), with no law.
--  * IssueConfirmation.antt: src/project_agent/application/services/issue_confirmation.py, the user's
--    decision on a draft, with save_confirmation of the repository above.
--  * DocumentWorkflow.antt: src/project_agent/domain/documents.py,
--    infrastructure/db/repositories/documents.py and application/use_cases/review_document.py, the
--    versions of documents from draft to publication.
--  * DocumentAccess.antt, DocumentRequests.antt: application/services/document_access.py,
--    application/use_cases/publish_document.py and application/use_cases/delete_document.py in the
--    session of a request, with their commit barriers. The knowledge service is a parameter
--    (KnowledgeService), with no law.
--  * Citations.antt: src/project_agent/application/services/citation_guard.py, the test of an answer's
--    citations.
--  * Knowledge.antt, AccessPolicy.antt: application/ports/knowledge.py and agent/policies/access.py,
--    what of the knowledge base a user's retrieval may ask for.
--  * EvidenceMetadata.antt, Governance.antt: application/services/evidence_governance.py over
--    infrastructure/db/repositories/evidence_governance.py, which chunks become evidence and how
--    contradictions between them are settled.
--  * QaState.antt, QaRecords.antt, QaStore.antt: agent/state.py with the values that the graph keeps, and
--    infrastructure/db/repositories/qa_graph.py.
--  * QaNodes.antt, QaRetrieval.antt, QaAnswering.antt: agent/nodes, one function for each node, on the
--    state and the database. The model, the knowledge service, the identifier extractor and registry
--    and the source of the prompt are parameters (QaServices), with no law.
--  * QaGraph.antt: agent/graph.py, the graph of these nodes.
--  * Retention.antt: src/project_agent/workers/retention.py, with its repository as a parameter.
--  * Base.antt: tables, queries, the monad of sessions and transactions, and the lemmas they share.
--
-- A session is a function from the database to a result and a database (Base/Exec.antt); a
-- transaction keeps the writes if the body returned and drops them if it raised. Transactions are
-- atomic, as the row locks of the code make them on the rows that they touch; an interleaving is a
-- list of transactions. Times are whole microseconds, identifiers are the 128-bit numbers of UUIDs;
-- the conversion of UUIDs to text and back is a parameter, with the law that reading undoes
-- writing. Rows that another transaction has locked, the clock and generated keys are arguments.
-- Every loop is over a list, but for the answering graph: it is run for a bounded number of nodes, of
-- which fifteen are enough, fewer than LangGraph's own limit of 25.
--
-- Not modelled: logs and metrics, the HTTP layer but for the two requests of DocumentRequests.antt,
-- the clients of other services, the upload of documents, the drafting of issues and their
-- candidates, the extraction of identifiers, the limits of rate and concurrency, and the evaluation
-- harness.
pub mod Base
pub mod Jobs
pub mod Queue
pub mod Documents
pub mod Access
pub mod Runs
pub mod RunRepository
pub mod RunExecution
pub mod RunService
pub mod RunWorker
pub mod RunHistory
pub mod Issues
pub mod IssueTracker
pub mod IssueWorkflow
pub mod IssueCreation
pub mod IssueConfirmation
pub mod DocumentWorkflow
pub mod DocumentAccess
pub mod DocumentRequests
pub mod Citations
pub mod Knowledge
pub mod AccessPolicy
pub mod EvidenceMetadata
pub mod Governance
pub mod QaState
pub mod QaRecords
pub mod QaStore
pub mod QaNodes
pub mod QaRetrieval
pub mod QaAnswering
pub mod QaGraph
pub mod Retention
pub mod Samples
