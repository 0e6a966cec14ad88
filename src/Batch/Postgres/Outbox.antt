-- ===== src/Batch/Postgres/Outbox.antt =====
-- The outbox of `PostgresBatchStore`: the events that a publisher has still to send, and what became of
-- each attempt. Rows of one instant are read in the order of insertion.
use servicecheck.Base.{
  ℕ, ◌+◌, max, String, Bool, true, false, ◌&&◌, Option, none, some, List, [], ◌∷◌, map, leb, ◌==◌,
  if◌then◌else◌, same, take, select, find, update, count, key_error, state_conflict, ok, err,
}
use servicecheck.Batch.Postgres.Tables.{OutboxStatus, OutboxRow, PgDb, is_event}
use servicecheck.Batch.Postgres.Jobs.{PgOutcome}

abbrev pub is_outbox_pending : OutboxStatus → Bool
is_outbox_pending OutboxStatus.pending = true
is_outbox_pending _ = false

abbrev pub is_due : ℕ → OutboxRow → Bool
is_due now o = is_outbox_pending o.status && leb o.available_at now

-- ORDER BY created_at
unfoldable pub insert_by_age : OutboxRow → List OutboxRow → List OutboxRow
insert_by_age o [] = o ∷ []
insert_by_age o (x ∷ xs) =
    if leb o.created_at x.created_at then o ∷ x ∷ xs else x ∷ insert_by_age o xs

unfoldable pub sort_by_age : List OutboxRow → List OutboxRow
unfolding insert_by_age
sort_by_age [] = []
sort_by_age (x ∷ xs) = insert_by_age x (sort_by_age xs)

-- An event, as the publisher gets it.
pub record OutboxEvent : Type 0 where
  pub event_id : String
  pub batch_id : String
  pub item_id : ℕ
  pub idempotency_key : String
  pub created_at : ℕ
  pub attempts : ℕ

abbrev pub event_of : OutboxRow → OutboxEvent
event_of o = record {
  event_id = o.event_id;
  batch_id = o.payload.batch_id;
  item_id = o.payload.item_id;
  idempotency_key = o.payload.idempotency_key;
  created_at = o.created_at;
  attempts = o.attempts;
}

unfoldable pub pending_outbox_events : ℕ → ℕ → PgDb → List OutboxEvent
unfolding sort_by_age
pending_outbox_events limit now db =
    map event_of (take limit (sort_by_age (select (is_due now) db.outbox)))

abbrev pub is_pending_event : String → OutboxRow → Bool
is_pending_event e o = same o.event_id e && is_outbox_pending o.status

abbrev pub set_published : String → ℕ → OutboxRow → OutboxRow
set_published message now o = record o {
  status = OutboxStatus.published;
  published_at = some now;
  redis_message_id = some message;
  updated_at = now;
}

unfoldable pub mark_outbox_published : String → String → ℕ → PgDb → PgOutcome (Unit {0})
mark_outbox_published e message now db =
    if count (is_pending_event e) db.outbox == 1
    then ok (
      tt,
      record db { outbox = update (is_pending_event e) (set_published message now) db.outbox },
    )
    else err state_conflict

-- `row.attempts >= max(1, int(max_attempts))`, of the new count
abbrev pub is_exhausted : ℕ → OutboxRow → Bool
is_exhausted max_attempts o = leb (max 1 max_attempts) (o.attempts + 1)

abbrev pub set_failed_attempt : String → ℕ → ℕ → ℕ → OutboxRow → OutboxRow
set_failed_attempt error max_attempts delay now o = record o {
  attempts = o.attempts + 1;
  status = if is_exhausted max_attempts o then OutboxStatus.failed else OutboxStatus.pending;
  last_error = some error;
  available_at = now + delay;
  updated_at = now;
}

abbrev pub mark_failed_row : String → String → ℕ → ℕ → ℕ → PgDb → Option OutboxRow → PgOutcome Bool
mark_failed_row e error max_attempts delay now db none = err key_error
mark_failed_row e error max_attempts delay now db (some o) =
    if is_outbox_pending o.status
    then ok (
      is_exhausted max_attempts o,
      record db {
        outbox = update (is_event e) (set_failed_attempt error max_attempts delay now) db.outbox;
      },
    )
    else err state_conflict

unfoldable pub mark_outbox_failed : String → String → ℕ → ℕ → ℕ → PgDb → PgOutcome Bool
mark_outbox_failed e error max_attempts delay now db =
    mark_failed_row e error max_attempts delay now db (find (is_event e) db.outbox)
