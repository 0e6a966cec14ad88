-- ===== src/Lib.antt =====
-- servicecheck, the quality control of recorded calls: rules and the deterministic gate over a
-- report, the bounded agent loop that repairs a report, batches of call files that run through
-- stages with checkpoints, the outbox, the publisher and the workers that run the files of a batch,
-- and the human review of reports that may not be released automatically.
--
-- How the parts work together. The running system creates a batch in the tables of
-- `PostgresBatchStore`, with one item and one event of the outbox for every record, in one
-- transaction. The publisher sends the events to a stream of Redis; a worker reads them, claims the
-- item, lets the executor run its stages, writes the final result and only then acknowledges the
-- message. `BatchStore`, over SQLite, keeps the same promises for one process. Both refine the board
-- of Batch/Board, which is all that a worker needs of a store. A file runs through its stages by
-- `execute_stage`, which keeps a checkpoint of each stage. The stage QC calls the quality service,
-- which makes a report, whose score is computed from the rules and which the gate releases or not;
-- the agent loop may repair it before, and completes only behind the same gate. A report that is not
-- released gets a review task, which a reviewer decides by a submission, once.
--
-- Files, by the source they model:
--   Base: shared lists, tables as lists of rows with the SQL statements on them, keys, results,
--     and integers. It models no code.
--   Batch/Models: qc/batch/models.py.
--   Batch/Store: qc/batch/store.py, class BatchStore. Tables holds the tables of `_initialize`;
--     Files, Stages and Exports hold one function per method, under its name. Commands has the
--     writing methods as data, with `exec` and `run`. Rules has the effect of each method in the
--     form that invariants use, and the other children hold theorems.
--     Refined shows that it refines the board.
--   Batch/Board: no code, but what a store promises of the statuses of files: the board, its
--     operations, in Rows the boards that tables show, and in ItemStore the interface of a worker.
--   Batch/Postgres: qc/batch/postgres_store.py, class PostgresBatchStore, with the tables of
--     qc/orm_models.py. Jobs creates batches, Outbox keeps the events, Items claims and moves items,
--     Finalize writes final results and dead letters, Stages and Exports keep the runs of stages and
--     the exports; one function per method, under its name.
--     Store is the interface filled. Refines, Finals, Closing, Creation, Idempotent and Checkpoints
--     hold theorems.
--   Batch/Publisher: qc/batch/outbox_publisher.py. Delivery holds theorems.
--   Batch/Worker: qc/batch/worker.py, `_handle_message`, `run_once` and `reclaim_once`. Effects has
--     its statements. Safe, Commits, Acknowledges and Loops hold theorems on what is acknowledged,
--     Progress, Live and Finished on a worker that is left alone.
--   Agent: Window is qc/context_builder.py, Executor and Loop are qc/agent_loop.py. Trusted and
--     Revised hold theorems.
--   Batch/Ingest: qc/batch/orchestrator.py, `ingest`, `resume` and the choice of files in
--     `_process`.
--   Batch/Pipeline: Retry is qc/batch/retry_policy.py, Checkpoint the session of
--     qc/batch/checkpoints.py, Execute the function `execute_stage` of qc/batch/pipeline.py,
--     Analysis its `_validate_quality_result` and Process its `process_file`. Attempts, Stages,
--     Resume and Processed hold theorems.
--   Quality: Models is qc/models.py, Rules and Score are qc/rules.py, Support is
--     qc/rag_support.py, Gate and Check are qc/quality_gate.py. Evidence, Passing, Settled,
--     Released, Penalties and Deduplicated hold theorems.
--   Review: Models is qc/review_models.py and the errors of qc/review_service.py, Tables the rows
--     of qc/orm_models.py, Submit qc/review_store.py, Routing the choice of runs for review and its
--     reasons, of qc/review_service.py. The other children hold theorems, of which Reasons has the
--     keys of reasons.
-- The modules named Samples, and FileRuns, StageRuns and RoutedSamples beside them, hold concrete
-- runs and the theorems at concrete inputs.
--
-- Conventions. A method that changes tables takes them as its last argument and gives them back,
-- and an exception is a value (`err`, or `raised` in Review) after which the tables are as
-- before, since each method is one transaction. Tables list their rows in the order of insertion,
-- with the counter of the key. Enum members are constructors. Instants are milliseconds since the
-- epoch and arguments of the operations that read the clock; a datetime without a timezone is
-- `naive`. Scores between 0 and 1 are millionths. Generated ids (uuid) are arguments. Numbers are
-- native; penalties and scores of reports are integers. A dictionary with fixed keys is a record.
--
-- Parameters: in Batch/Worker the other processes before every call of the store, the clock and the
-- executor; the messages that Redis delivers are arguments, and its acknowledgements are taken to
-- return. In Batch/Publisher the answers of `xadd`. In Batch/Postgres the decoder of JSON, the drawn
-- ids and the clock. In Agent the planner, the evaluator, the search of knowledge and the audit
-- client, by the number of their call, and the elapsed time. In Batch/Pipeline the artifact store with the JSON of its artifacts, the clocks,
-- the audio runner and the quality service, and the validation and the JSON of requests and
-- results. What a theorem relies on of them is a named hypothesis, for which Samples has an
-- instance. Clocks are taken not to run backwards within an attempt.
--
-- Fuel: the agent loop runs on its limit of iterations, as the source does. The loop of attempts of
-- `execute_stage` runs on fuel, the limit of the retry policy (one at least). It is enough, since each
-- round counts one attempt more than the checkpoint, and a round is followed by another only below the
-- limit.
--
-- Not modelled: network clients, speech recognition, retrieval by embeddings, the HTTP interface,
-- the prompts and the language model, the quality service that chooses between analysis and loop,
-- the stores of runs, the locks and the isolation of transactions (each call of a store is one step,
-- also where it reads on one connection and writes on another), the KeyError of `_DOWNSTREAM` for a
-- stage that no caller executes, metrics and traces, the files of exports and reports, float averages
-- of durations, messages of gate issues, and offline evaluation.
pub mod Agent
pub mod Base
pub mod Batch
pub mod Quality
pub mod Review
