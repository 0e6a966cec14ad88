-- ===== src/Review/Submit.antt =====
-- `PostgresReviewStore.submit` (qc/review_store.py), with `ensure_review_task_in_session` and
-- `attach_batch_item_in_session`. The identifier drawn by `uuid4` and the clock are arguments.
-- The first read of a submit is not under the row lock: it sees the tables `seen`, of an earlier
-- moment; everything else runs under the lock, on the tables `db`.
use servicecheck.Base.{
  ℕ, ◌+◌, String, Bool, not, ◌&&◌, ◌||◌, Option, none, some, List, [], ◌∷◌, ◌++◌, ◌==◌,
  if◌then◌else◌, same, any, find, update, count,
}
use servicecheck.Review.Models.{
  HumanOutcome, ReviewTaskStatus, ReasonCode, ContextSource, reason_value, outcome_is_unresolved,
  is_pending,
}
use servicecheck.Review.Tables.{
  RouteReason, ReviewTaskRow, ReviewRevisionRow, ReviewDb, ReviewError, review_not_found,
  version_conflict, idempotency_conflict, review_state_conflict, review_integrity_error, is_task,
  is_run, replays, task_checks, revision_clashes, TaskDetail, task_detail,
}

pub data Reply : Type 0 where
  replied : TaskDetail → ReviewDb → Reply
  raised : ReviewError → Reply

-- The tables after a submit: a raising transaction is rolled back.
abbrev pub after_reply : Reply → ReviewDb → ReviewDb
after_reply (replied d db') db = db'
after_reply (raised e) db = db

pub record Submission : Type 0 where
  pub review_task_id : String
  pub expected_version : ℕ
  pub outcome : HumanOutcome
  pub reason_code : ReasonCode
  pub note : String
  pub idempotency_key : String
  pub request_hash : String
  pub reviewer_id : String
  pub context_source : ContextSource

abbrev pub new_revision : Submission → String → ℕ → ReviewTaskRow → ReviewRevisionRow
new_revision s revision_id now t = record {
  revision_id = revision_id;
  task_id = t.review_task_id;
  run_id = t.run_id;
  outcome = s.outcome;
  reason_code = s.reason_code;
  note = s.note;
  reviewer_id = s.reviewer_id;
  context_source = s.context_source;
  idempotency_key = s.idempotency_key;
  request_hash = s.request_hash;
  created_at = now;
}

-- `note or reason_code`
abbrev pub note_or_reason : Submission → String
note_or_reason s = if same s.note "" then reason_value s.reason_code else s.note

abbrev pub decide : Submission → String → ℕ → ReviewTaskRow → ReviewTaskRow
decide s revision_id now t = record t {
  status =
      if outcome_is_unresolved s.outcome
      then ReviewTaskStatus.unresolved
      else ReviewTaskStatus.resolved;
  version = t.version + 1;
  effective_revision_id = if outcome_is_unresolved s.outcome then none else some revision_id;
  unresolved_reason = if outcome_is_unresolved s.outcome then some (note_or_reason s) else none;
  updated_at = now;
}

-- The rows that the update selects: WHERE review_task_id, status = PENDING, version
abbrev pub is_open : Submission → ReviewTaskRow → Bool
is_open s t =
    same t.review_task_id s.review_task_id && is_pending t.status && t.version == s.expected_version

-- What a revision with the key means: the same request is answered again, another is refused.
abbrev pub replay : Submission → ReviewDb → Option ReviewTaskRow → ReviewRevisionRow → Reply
replay s db none r =
    if same r.request_hash s.request_hash
    then raised review_not_found
    else raised idempotency_conflict
replay s db (some t) r =
    if same r.request_hash s.request_hash
    then replied (task_detail db t) db
    else raised idempotency_conflict

-- `except IntegrityError`, in a new session
abbrev pub recover : Submission → ReviewDb → Option ReviewRevisionRow → Option ReviewTaskRow → Reply
recover s db (some r) t = replay s db t r
recover s db none none = raised review_integrity_error
recover s db none (some t) =
    if is_pending t.status
    then raised (version_conflict t.version)
    else raised (review_state_conflict t.status)

-- The insert of the revision and the update of the task, with their constraints.
abbrev pub write : Submission → String → ℕ → ReviewDb → ReviewTaskRow → Reply
write s revision_id now db t =
    let revision = new_revision s revision_id now t in
    let db' : ReviewDb = record {
      tasks = update (is_open s) (decide s revision_id now) db.tasks;
      revisions = db.revisions ++ revision ∷ [];
    } in
    if any (revision_clashes revision) db.revisions
      || not (task_checks (decide s revision_id now t))
    then recover s db (find (replays s.review_task_id s.idempotency_key) db.revisions)
        (find (is_task s.review_task_id) db.tasks)
    else if count (is_open s) db.tasks == 1
    then replied (task_detail db' (decide s revision_id now t)) db'
    else raised (version_conflict t.version)

abbrev pub locked :
    Submission → String → ℕ → ReviewDb → Option ReviewTaskRow → Option ReviewRevisionRow → Reply
locked s revision_id now db none r = raised review_not_found
locked s revision_id now db (some t) (some r) = replay s db (some t) r
locked s revision_id now db (some t) none =
    if not (is_pending t.status)
    then raised (review_state_conflict t.status)
    else if t.version == s.expected_version
    then write s revision_id now db t
    else raised (version_conflict t.version)

abbrev pub submit_seen : Submission → String → ℕ → ReviewDb → Option ReviewRevisionRow → Reply
submit_seen s revision_id now db (some r) = replay s db (find (is_task s.review_task_id) db.tasks) r
submit_seen s revision_id now db none =
    locked s revision_id now db (find (is_task s.review_task_id) db.tasks)
      (find (replays s.review_task_id s.idempotency_key) db.revisions)

unfoldable pub submit : Submission → String → ℕ → ReviewDb → ReviewDb → Reply
submit s revision_id now seen db =
    submit_seen s revision_id now db
      (find (replays s.review_task_id s.idempotency_key) seen.revisions)

abbrev pub new_task : String → String → List RouteReason → ℕ → ReviewTaskRow
new_task task_id run_id reasons now = record {
  review_task_id = task_id;
  run_id = run_id;
  batch_item_id = none;
  status = ReviewTaskStatus.pending;
  route_reasons = reasons;
  version = 1;
  effective_revision_id = none;
  unresolved_reason = none;
  created_at = now;
  updated_at = now;
}

abbrev pub ensure_from :
    String
    → String
    → List RouteReason
    → ℕ
    → ReviewDb
    → Option ReviewTaskRow
    → Option (String × ReviewDb)
ensure_from task_id run_id reasons now db (some t) = some (t.review_task_id, db)
ensure_from task_id run_id reasons now db none =
    if any (is_task task_id) db.tasks
    then none
    else some (task_id, record db { tasks = db.tasks ++ new_task task_id run_id reasons now ∷ [] })

-- INSERT ... ON CONFLICT (run_id) DO NOTHING, and the id of the run's task; `none` is the
-- IntegrityError of a drawn id that is taken.
unfoldable pub ensure_review_task :
    String → String → List RouteReason → ℕ → ReviewDb → Option (String × ReviewDb)
ensure_review_task task_id run_id reasons now db =
    ensure_from task_id run_id reasons now db (find (is_run run_id) db.tasks)

unfoldable pub attach_batch_item : String → ℕ → ℕ → ReviewDb → ReviewDb
attach_batch_item run_id item now db = record db {
  tasks =
      update (is_run run_id) (λ t. record t { batch_item_id = some item; updated_at = now })
        db.tasks;
}
