-- ===== src/Batch/Worker.antt =====
-- qc/batch/worker.py, `BatchWorker`: one consumer of the stream of messages, over any store of
-- Batch/Board/ItemStore. Before each call of the store other processes may change it (`others`), and the
-- executor, which runs the stages, may change it too. The calls of Redis are taken to return: an
-- acknowledged message is kept in a list, and the messages read are arguments. Spans and logs are left out.
mod Effects
pub mod Safe
pub mod Commits
pub mod Acknowledges
pub mod Loops
pub mod Progress
pub mod Live
pub mod Finished
mod Samples
use servicecheck.Base.{
  ℕ, zero, suc, ◌+◌, ◌-◌, ◌*◌, ◌/◌, ◌%◌, ◌^◌, ◌≤◌, ◌<◌, min, max, String, ◌≡◌, refl, sym, ap, ◌∙◌,
  subst, ◌≢◌, ◌↔◌, ◌⊎◌, inl, inr, Bool, true, false, not, ◌&&◌, ◌||◌, Option, none, some, List, [],
  ◌∷◌, ◌++◌, map, arith, ltb, leb, ◌==◌, if◌then◌else◌, same, same→eq, same_refl, same_of_eq,
  truthy, same_comm, Bool-cases, Option-cases, taken, ok-inj, is_some, length, take, drop, any, all,
  All, length-append, All-map_impl, All-append, select, find, or_else, find_last, update, count,
  count-eq-length-select, count-append, update_id, All-update, find-append_none,
  find_last-append_one, find_last-append_skip, find_fits, Failure, key_error, value_error,
  state_conflict, integrity_error, type_error, capacity_error, idempotency_conflict, Result, ok,
  err, ◌>>=◌, after, Result-cases, >>=-eq-ok, ℤ, pos, negsuc, pos_part, neg_part, sub_ℕ, ◌+ℤ◌,
  same_int, Ascends, Ascends-append, Ascends-update, count_below, count_one, Unique, Unique-append,
  Unique-update, map_option, find_last-update, find_last_fits, find_last_unique, count_of_id,
  count_of_id_none, find-update, find-append_some,
}
use servicecheck.Batch.Models.{
  BatchFileStatus, pending, running, interrupted, done, failed_final, dead_letter, human_review,
  StageName, transcode, asr, emotion, event_extract, rag, audit, qc, loop, StageStatus, failed,
  FileRecord, BatchMeta, StageRecord, status_code, same_status, stage_code, same_stage,
  same_status→eq, same_stage→eq, same_stage_refl, valid_transition, pipeline_stages,
}
use servicecheck.Batch.Store.Files.{is_writable_final}
use servicecheck.Batch.Store.Tables.{FileRow, StageRow}
use servicecheck.Batch.Store.Stages.{FileView}
use servicecheck.Batch.Board.ItemStore.{DeadLetter, ItemStore}
pub use Effects.*

-- What the executor returns, a `FileResult` of qc/batch/pipeline.py.
pub record Execution : Type 0 where
  pub status : BatchFileStatus
  pub request_json : String
  pub result_json : String
  pub failed_reason : Option String

-- What surrounds the worker: the other processes before each call, the clock, and the executor.
pub record Surroundings (D : Type 0) : Type 0 where
  pub others : ℕ → D → D
  pub clock : ℕ → ℕ
  pub execute : ℕ → FileView → D → Result Execution × D

-- `str(failure.get(...) or ...)`
abbrev pub or_text : Option String → String → String
or_text none s = s
or_text (some t) s = t

abbrev pub stage_value : StageName → String
stage_value StageName.transcode = "TRANSCODE"
stage_value StageName.asr = "ASR"
stage_value StageName.emotion = "EMOTION"
stage_value StageName.event_extract = "EVENT_EXTRACT"
stage_value StageName.rag = "RAG"
stage_value StageName.audit = "AUDIT"
stage_value StageName.qc = "QC"
stage_value StageName.loop = "LOOP"

abbrev pub has_failed : StageRow → Bool
has_failed s = elim s.status [ StageStatus.failed ↦ true | _ ↦ false ]

abbrev pub letter_of : BatchMessage → Execution → Option StageRow → DeadLetter
letter_of m x none = record {
  message_id = some m.message_id;
  stage = "UNKNOWN";
  error_code = "FAILED_FINAL";
  attempts = 0;
  last_error = or_text (truthy x.failed_reason) "failed";
  reason = "retry exhausted or non-retryable failure";
}
letter_of m x (some s) = record {
  message_id = some m.message_id;
  stage = stage_value s.stage;
  error_code = or_text (truthy s.error_code) "FAILED_FINAL";
  attempts = s.attempts;
  last_error = or_text (truthy s.error) (or_text (truthy x.failed_reason) "failed");
  reason = "retry exhausted or non-retryable failure";
}

-- `failures[-1] if failures else {}`
unfoldable pub dead_letter_for : BatchMessage → Execution → FileView → DeadLetter
dead_letter_for m x latest = letter_of m x (find_last has_failed latest.stages)

module _ {D : Type 0} (store : ItemStore D) (env : Surroundings D) where
  abbrev pub arrive : World D → World D
  arrive w = record w { db = env.others w.calls w.db; calls = w.calls + 1 }

  -- A call of a method that writes, and of one that reads.
  abbrev pub call : {A : Type 0} → (ℕ → D → Result (A × D)) → Step D A
  call op w = let w' = arrive w in settle w' (op (env.clock w.calls) w'.db)

  abbrev pub read : {A : Type 0} → (D → Result A) → Step D A
  read op w = let w' = arrive w in look w' (op w'.db)

  abbrev pub finalize_plain : BatchMessage → Execution → Step D (Unit {0})
  finalize_plain m x =
      call (store.finalize_file m.item_id x.status x.request_json x.result_json x.failed_reason)

  abbrev pub record_if_able :
      Option (String → ℕ → DeadLetter → ℕ → D → Result (Unit {0} × D))
      → BatchMessage
      → DeadLetter
      → Step D (Unit {0})
  record_if_able none m l = finish tt
  record_if_able (some op) m l = call (op m.batch_id m.item_id l)

  -- `hasattr(self.store, "finalize_file_with_dead_letter")`
  abbrev pub finalize_dead :
      Option (ℕ → String → String → Option String → DeadLetter → ℕ → D → Result (Unit {0} × D))
      → BatchMessage
      → Execution
      → DeadLetter
      → Step D (Unit {0})
  finalize_dead (some op) m x l = call (op m.item_id x.request_json x.result_json x.failed_reason l)
  finalize_dead none m x l =
      finalize_plain m x then λ _. record_if_able store.record_dead_letter m l

  abbrev pub commit : BatchMessage → Execution → Step D (Unit {0})
  commit m x =
      if same_status x.status BatchFileStatus.failed_final
      then (read (store.get_file m.item_id) then λ latest.
          finalize_dead store.finalize_file_with_dead_letter m x (dead_letter_for m x latest))
      else finalize_plain m x

  abbrev pub executed : FileView → Step D Execution
  executed row w =
      let w' = arrive w in let (r, d) = env.execute w.calls row w'.db in (r, record w' { db = d })

  abbrev pub mark_interrupted : BatchMessage → String → Step D (Unit {0})
  mark_interrupted m reason =
      call (store.set_file_status m.item_id BatchFileStatus.interrupted (some reason))

  -- After the try block: an exception leaves the message pending and the item reclaimable.
  abbrev pub concluded : BatchMessage → Result (Unit {0}) × World D → Result Bool × World D
  concluded m (ok _, w) = (ok true, ack m w)
  concluded m (err e, w) = (ok false, (mark_interrupted m "WORKER_EXECUTION_INTERRUPTED" w).1)

  abbrev pub work : BatchMessage → FileView → Step D Bool
  work m row w = concluded m ((executed row then commit m) w)

  abbrev pub ack_if : BatchMessage → Bool → Step D Bool
  ack_if m b w = if b then (ok false, ack m w) else (ok false, w)

  -- The claim was lost.
  abbrev pub lost : BatchMessage → Step D Bool
  lost m =
      read (store.get_file m.item_id) then λ latest. ack_if m (is_writable_final latest.row.status)

  abbrev pub claimed : BatchMessage → FileView → Bool → Step D Bool
  claimed m row won = if won then work m row else lost m

  abbrev pub is_waiting : BatchFileStatus → Bool
  is_waiting BatchFileStatus.pending = true
  is_waiting BatchFileStatus.interrupted = true
  is_waiting _ = false

  abbrev pub dispatch : Bool → BatchMessage → FileView → Step D Bool
  dispatch reclaimed m row =
      let expected = row.row.status in
      if same_status expected BatchFileStatus.running && not reclaimed
      then finish false
      else if is_waiting expected
      then (call (store.claim_file m.item_id expected) then claimed m row)
      else ack_if m (not (same_status expected BatchFileStatus.running))

  unfoldable pub handle_message : Bool → BatchMessage → Step D Bool
  unfolding dead_letter_for
  handle_message reclaimed m = read (store.get_file m.item_id) then dispatch reclaimed m

  abbrev pub added : ℕ → Bool → Step D ℕ
  added k true = finish (k + 1)
  added k false = finish k

  -- Counts a message handled.
  unfoldable pub served : Bool → BatchMessage → ℕ → Step D ℕ
  unfolding handle_message
  served reclaimed m k = handle_message reclaimed m then added k

  unfoldable pub run_once : List BatchMessage → ℕ → Step D ℕ
  unfolding served
  run_once [] k = finish k
  run_once (m ∷ ms) k = served false m k then run_once ms

  -- A RUNNING item of a message that was idle too long is interrupted first; a message whose item
  -- could not be is left.
  abbrev pub taken_over : BatchMessage → ℕ → Result (Unit {0}) × World D → Result ℕ × World D
  taken_over m k (err e, w) = (ok k, w)
  taken_over m k (ok _, w) = served true m k w

  abbrev pub reclaimed_row : BatchMessage → ℕ → FileView → Step D ℕ
  reclaimed_row m k row =
      if same_status row.row.status BatchFileStatus.running
      then (λ w. taken_over m k (mark_interrupted m "WORKER_LEASE_EXPIRED" w))
      else served true m k

  abbrev pub reclaim_message : BatchMessage → ℕ → Step D ℕ
  reclaim_message m k = read (store.get_file m.item_id) then reclaimed_row m k

  unfoldable pub reclaim_once : List BatchMessage → ℕ → Step D ℕ
  unfolding served
  reclaim_once [] k = finish k
  reclaim_once (m ∷ ms) k = reclaim_message m k then reclaim_once ms
