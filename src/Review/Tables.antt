-- ===== src/Review/Tables.antt =====
-- The tables review_tasks and review_revisions (qc/orm_models.py) with their constraints, the
-- errors of qc/review_service.py, and the reads of qc/review_store.py.
use servicecheck.Base.{
  ℕ, String, Bool, not, ◌&&◌, ◌||◌, Option, none, some, List, leb, if◌then◌else◌, same, is_some,
  select, find,
}
use servicecheck.Review.Models.{HumanOutcome, ReviewTaskStatus, ReasonCode, ContextSource}

pub record RouteReason : Type 0 where
  pub code : String
  pub stage : String
  pub event_id : Option String
  pub rule_id : Option String
  pub report_path : Option String

pub record ReviewTaskRow : Type 0 where
  pub review_task_id : String
  pub run_id : String
  pub batch_item_id : Option ℕ
  pub status : ReviewTaskStatus
  pub route_reasons : List RouteReason
  pub version : ℕ
  pub effective_revision_id : Option String
  pub unresolved_reason : Option String
  pub created_at : ℕ
  pub updated_at : ℕ

pub record ReviewRevisionRow : Type 0 where
  pub revision_id : String
  pub task_id : String
  pub run_id : String
  pub outcome : HumanOutcome
  pub reason_code : ReasonCode
  pub note : String
  pub reviewer_id : String
  pub context_source : ContextSource
  pub idempotency_key : String
  pub request_hash : String
  pub created_at : ℕ

pub record ReviewDb : Type 0 where
  pub tasks : List ReviewTaskRow
  pub revisions : List ReviewRevisionRow

-- `ReviewNotFound`, `ReviewVersionConflict`, `ReviewIdempotencyConflict`, `ReviewStateConflict`,
-- and the `IntegrityError` that `submit` raises again.
pub data ReviewError : Type 0 where
  review_not_found : ReviewError
  version_conflict : ℕ → ReviewError
  idempotency_conflict : ReviewError
  review_state_conflict : ReviewTaskStatus → ReviewError
  review_integrity_error : ReviewError

abbrev pub is_task : String → ReviewTaskRow → Bool
is_task t r = same r.review_task_id t

abbrev pub is_run : String → ReviewTaskRow → Bool
is_run run r = same r.run_id run

abbrev pub of_task : String → ReviewRevisionRow → Bool
of_task t r = same r.task_id t

abbrev pub replays : String → String → ReviewRevisionRow → Bool
replays t key r = same r.task_id t && same r.idempotency_key key

-- The check constraints of review_tasks.
abbrev pub pointer_checks : ReviewTaskStatus → Option String → Option String → Bool
pointer_checks ReviewTaskStatus.pending e u = not (is_some e)
pointer_checks ReviewTaskStatus.resolved e u = is_some e
pointer_checks ReviewTaskStatus.unresolved e u = not (is_some e) && is_some u

abbrev pub task_checks : ReviewTaskRow → Bool
task_checks t =
    leb 1 t.version && pointer_checks t.status t.effective_revision_id t.unresolved_reason

-- The primary key and UNIQUE(task_id), which makes UNIQUE(task_id, idempotency_key) redundant.
abbrev pub revision_clashes : ReviewRevisionRow → ReviewRevisionRow → Bool
revision_clashes x y = same x.revision_id y.revision_id || same x.task_id y.task_id

-- `_bundle`: the task with its revisions, and the one that is in force.
pub record TaskDetail : Type 0 where
  pub task : ReviewTaskRow
  pub history : List ReviewRevisionRow
  pub effective : Option ReviewRevisionRow

abbrev pub effective_in : Option String → List ReviewRevisionRow → Option ReviewRevisionRow
effective_in none history = none
effective_in (some i) history = if same i "" then none else find (λ r. same r.revision_id i) history

-- At most one revision has a task, so the order by creation is left out.
unfoldable pub task_detail : ReviewDb → ReviewTaskRow → TaskDetail
task_detail db t = record {
  task = t;
  history = select (of_task t.review_task_id) db.revisions;
  effective = effective_in t.effective_revision_id (select (of_task t.review_task_id) db.revisions);
}

unfoldable pub get_task_detail : String → ReviewDb → Option TaskDetail
unfolding task_detail
get_task_detail t db = elim (find (is_task t) db.tasks) [
  | none ↦ none
  | some r ↦ some (task_detail db r)
]
