-- ===== src/Batch/Publisher.antt =====
-- qc/batch/outbox_publisher.py, `OutboxPublisher`: the events of the outbox are sent to the stream. Delays
-- are in the unit of the clock. Redis is a parameter: what each call of `xadd` returned or raised.
pub mod Delivery
mod Samples
use servicecheck.Base.{
  ℕ, zero, suc, ◌+◌, ◌-◌, ◌*◌, ◌/◌, ◌%◌, ◌^◌, ◌≤◌, ◌<◌, min, max, String, ◌≡◌, refl, sym, ap, ◌∙◌,
  subst, ◌≢◌, ◌↔◌, ◌⊎◌, inl, inr, Bool, true, false, not, ◌&&◌, ◌||◌, Option, none, some, List, [],
  ◌∷◌, ◌++◌, map, arith, ltb, leb, ◌==◌, if◌then◌else◌, same, same→eq, same_refl, same_of_eq,
  truthy, same_comm, Bool-cases, Option-cases, taken, ok-inj, is_some, length, take, drop, any, all,
  All, length-append, All-map_impl, All-append, select, find, or_else, find_last, update, count,
  count-eq-length-select, count-append, update_id, All-update, find-append_none,
  find_last-append_one, find_last-append_skip, find_fits, Failure, key_error, value_error,
  state_conflict, integrity_error, type_error, capacity_error, idempotency_conflict, Result, ok,
  err, ◌>>=◌, after, Result-cases, >>=-eq-ok, ℤ, pos, negsuc, pos_part, neg_part, sub_ℕ, ◌+ℤ◌,
  same_int, Ascends, Ascends-append, Ascends-update, count_below, count_one, Unique, Unique-append,
  Unique-update, map_option, find_last-update, find_last_fits, find_last_unique, count_of_id,
  count_of_id_none, find-update, find-append_some,
}
use servicecheck.Batch.Postgres.Tables.{
  JobStatus, JobRow, Json, ItemRow, OutboxStatus, ItemPayload, OutboxRow, CreationRow,
  DeadLetterRow, PgDb, is_job, is_item, is_event, refers,
}
use servicecheck.Batch.Postgres.Jobs.{PgOutcome}
use servicecheck.Batch.Postgres.Outbox.{
  is_outbox_pending, is_due, insert_by_age, sort_by_age, OutboxEvent, event_of,
  pending_outbox_events, is_pending_event, set_published, mark_outbox_published, is_exhausted,
  set_failed_attempt, mark_failed_row, mark_outbox_failed,
}

pub record OutboxPublisher : Type 0 where
  pub max_events : ℕ
  pub max_attempts : ℕ
  pub backoff_initial : ℕ
  pub backoff_max : ℕ

-- `__init__`
unfoldable pub new_publisher : ℕ → ℕ → ℕ → ℕ → OutboxPublisher
new_publisher events attempts initial most = record {
  max_events = events;
  max_attempts = max 1 attempts;
  backoff_initial = initial;
  backoff_max = most;
}

-- `_retry_delay`
unfoldable pub retry_delay : OutboxPublisher → ℕ → ℕ
retry_delay p attempts = min (p.backoff_initial * 2 ^ attempts) p.backoff_max

-- The id of the message that a call of `xadd` returned, or the name of the exception that it raised.
pub data Sent : Type 0 where
  sent : String → Sent
  refused : String → Sent

-- `type(exc).__name__`
abbrev pub class_name : Failure → String
class_name key_error = "KeyError"
class_name value_error = "ValueError"
class_name state_conflict = "StateConflictError"
class_name integrity_error = "IntegrityError"
class_name type_error = "TypeError"
class_name capacity_error = "BatchCapacityError"
class_name idempotency_conflict = "IdempotencyConflictError"

-- The `except` clause. The count of events published, with the tables; what it raises leaves the loop.
abbrev pub record_failure : OutboxPublisher → OutboxEvent → String → ℕ → ℕ → PgDb → PgOutcome ℕ
record_failure p e name now n db =
    mark_outbox_failed e.event_id name p.max_attempts (retry_delay p e.attempts) now db
    >>= λ (b, db'). ok (n, db')

abbrev pub record_sent :
    OutboxPublisher → OutboxEvent → ℕ → ℕ → PgDb → PgOutcome (Unit {0}) → PgOutcome ℕ
record_sent p e now n db (ok (_, db')) = ok (n + 1, db')
record_sent p e now n db (err x) = record_failure p e (class_name x) now n db

abbrev pub publish_event : OutboxPublisher → Sent → OutboxEvent → ℕ → ℕ → PgDb → PgOutcome ℕ
publish_event p (refused name) e now n db = record_failure p e name now n db
publish_event p (sent message) e now n db =
    record_sent p e now n db (mark_outbox_published e.event_id message now db)

-- The loop: each event is a transaction of its own, and what came before an exception stays.
abbrev pub with_db : PgDb → PgOutcome ℕ → Result ℕ × PgDb
with_db db (ok (n, db')) = (ok n, db')
with_db db (err x) = (err x, db)

abbrev pub and_on : (ℕ → PgDb → Result ℕ × PgDb) → Result ℕ × PgDb → Result ℕ × PgDb
and_on next (ok n, db) = next n db
and_on next (err x, db) = (err x, db)

unfoldable pub publish_all :
    OutboxPublisher
    → (ℕ → OutboxEvent → Sent)
    → (ℕ → ℕ)
    → ℕ
    → List OutboxEvent
    → ℕ
    → PgDb
    → Result ℕ × PgDb
unfolding retry_delay
publish_all p xadd clock k [] n db = (ok n, db)
publish_all p xadd clock k (e ∷ es) n db =
    and_on (publish_all p xadd clock (k + 1) es)
      (with_db db (publish_event p (xadd k e) e (clock k) n db))

unfoldable pub publish_once :
    OutboxPublisher → (ℕ → OutboxEvent → Sent) → (ℕ → ℕ) → ℕ → PgDb → Result ℕ × PgDb
unfolding publish_all
publish_once p xadd clock now db =
    publish_all p xadd clock 0 (pending_outbox_events p.max_events now db) 0 db
