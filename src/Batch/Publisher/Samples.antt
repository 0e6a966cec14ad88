-- ===== src/Batch/Publisher/Samples.antt =====
-- Rounds of the publisher, and its theorem at these inputs.
use servicecheck.Base.{ℕ, ◌+◌, ◌≡◌, refl, [], ◌∷◌, map, arith, ◌==◌, if◌then◌else◌, same}
use servicecheck.Batch.Postgres.Tables.{OutboxStatus}
use servicecheck.Batch.Postgres.Outbox.{
  OutboxEvent, sort_by_age, insert_by_age, pending_outbox_events, mark_outbox_published,
  mark_outbox_failed,
}
use servicecheck.Batch.Postgres.Samples.{two_items}
use servicecheck.Batch.Publisher.{
  OutboxPublisher, retry_delay, Sent, sent, refused, publish_all, publish_once,
}
use servicecheck.Batch.Publisher.Delivery.{IsOutbox, publish_once-IsOutbox}

abbrev publisher : OutboxPublisher
publisher = record { max_events = 50; max_attempts = 2; backoff_initial = 1; backoff_max = 30 }

-- The stream takes the first event and refuses the second.
abbrev one_sent : ℕ → OutboxEvent → Sent
one_sent k e = if k == 0 then sent "0-1" else refused "ConnectionError"

abbrev clock : ℕ → ℕ
clock k = 20 + k

statuses :
    map {B = OutboxStatus × ℕ}
      (λ o. (o.status, o.attempts))
      (publish_once publisher one_sent clock 20 two_items).1.outbox
    ≡ (OutboxStatus.published, 0) ∷ (OutboxStatus.pending, 1) ∷ []
unfolding publish_once publish_all pending_outbox_events sort_by_age insert_by_age
    mark_outbox_published mark_outbox_failed retry_delay same
statuses = refl

two_items-IsOutbox : IsOutbox 2 two_items.outbox
unfolding same
two_items-IsOutbox = record {
  unique = (refl, (refl, tt));
  bounded = (omega arith, (omega arith, tt));
}

publish_once-IsOutbox_example :
    IsOutbox 2 (publish_once publisher one_sent clock 20 two_items).1.outbox
publish_once-IsOutbox_example =
    publish_once-IsOutbox 2 publisher refl one_sent clock 20 two_items two_items-IsOutbox
