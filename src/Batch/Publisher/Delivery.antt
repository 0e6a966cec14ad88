-- ===== src/Batch/Publisher/Delivery.antt =====
-- What becomes of the events of the outbox under the publisher (qc/batch/outbox_publisher.py).
use servicecheck.Base.{
  ℕ, ◌+◌, ◌<◌, max, String, ◌≡◌, refl, inl, inr, Bool, true, false, ◌||◌, some, List, [], ◌∷◌,
  arith, leb, ◌==◌, same, same→eq, Bool-cases, Option-cases, any, All, find, update, count,
  All-update, Result, ok, err, ◌>>=◌, Unique, Unique-update,
}
use servicecheck.Batch.Postgres.Tables.{OutboxStatus, OutboxRow, PgDb, is_event}
use servicecheck.Batch.Postgres.Jobs.{PgOutcome}
use servicecheck.Batch.Postgres.Outbox.{
  is_outbox_pending, OutboxEvent, pending_outbox_events, is_pending_event, set_published,
  mark_outbox_published, set_failed_attempt, mark_outbox_failed,
}
use servicecheck.Batch.Publisher.{
  OutboxPublisher, retry_delay, Sent, sent, refused, class_name, record_failure, record_sent,
  publish_event, with_db, and_on, publish_all, publish_once,
}

abbrev pub same_event : OutboxRow → OutboxRow → Bool
same_event x y = same y.event_id x.event_id

-- An event by its status: the attempts that failed are fewer than the limit, unless it FAILED, at the limit.
abbrev pub IsBoundedAt : ℕ → OutboxStatus → ℕ → Type 0
IsBoundedAt limit OutboxStatus.pending n = n < limit
IsBoundedAt limit OutboxStatus.published n = n < limit
IsBoundedAt limit OutboxStatus.failed n = n ≡ limit

abbrev pub IsBounded : ℕ → OutboxRow → Type 0
IsBounded limit o = IsBoundedAt limit o.status o.attempts

-- An outbox with unique ids of events, all bounded.
pub record IsOutbox (limit : ℕ) (os : List OutboxRow) : Type 0 where
  pub unique : Unique same_event os
  pub bounded : All (IsBounded limit) os

update_none :
    (e : String) (x : OutboxRow) (f : OutboxRow → OutboxRow) (os : List OutboxRow)
    → same x.event_id e ≡ true
    → any (same_event x) os ≡ false
    → (update (is_event e) f os ≡ os) × (update (is_pending_event e) f os ≡ os)
update_none e x f [] s a = (refl, refl)
update_none e x f (o ∷ os) s a =
    let i : x.event_id ≡ e = same→eq x.event_id e s in
    let a' : (same o.event_id e || any (same_event x) os) ≡ false = rw i at a in
    let rest = update_none e x f os s (ground arith) in
    (ground (arith, rest.0), ground (arith, rest.1))

-- The row of an event that is PENDING is the only one that an update of the event changes.
update_event :
    (e : String) (f : OutboxRow → OutboxRow) (os : List OutboxRow) (o : OutboxRow)
    → Unique same_event os
    → find (is_event e) os ≡ some o
    → is_outbox_pending o.status ≡ true
    → update (is_event e) f os ≡ update (is_pending_event e) f os
update_event e f [] o u h p = refl
update_event e f (x ∷ os) o u h p = elim (Bool-cases (same x.event_id e)) [
  | inl s ↦
      let i : x ≡ o = ground arith in
      let q : is_outbox_pending x.status ≡ true = rw i p in
      let (a, b) = update_none e x f os s u.0 in rw (s, q, a, b) refl
  | inr s ↦ rw (s, update_event e f os o u.1 (ground arith) p) refl
]

pending_below :
    (limit : ℕ) (s : OutboxStatus) (n : ℕ)
    → is_outbox_pending s ≡ true
    → IsBoundedAt limit s n
    → n < limit
pending_below limit OutboxStatus.pending n p h = h
pending_below limit OutboxStatus.published n p h = h
pending_below limit OutboxStatus.failed n p h = absurd (cc)

module _ (limit : ℕ) where
  update-IsOutbox :
      (e : String) (f : OutboxRow → OutboxRow) (os : List OutboxRow)
      → ((o : OutboxRow) → (f o).event_id ≡ o.event_id)
      → ((o : OutboxRow) → is_pending_event e o ≡ true → IsBounded limit o → IsBounded limit (f o))
      → IsOutbox limit os
      → IsOutbox limit (update (is_pending_event e) f os)
  update-IsOutbox e f os keep step h = record {
    unique =
        Unique-update same_event (is_pending_event e) f (λ x y. rw (keep x) refl)
          (λ x y. rw (keep y) refl) os h.unique;
    bounded = All-update (IsBounded limit) (is_pending_event e) f step os h.bounded;
  }

  failed-IsBounded :
      (e name : String) (most delay now : ℕ) (o : OutboxRow)
      → max 1 most ≡ limit
      → is_pending_event e o ≡ true
      → IsBounded limit o
      → IsBounded limit (set_failed_attempt name most delay now o)
  failed-IsBounded e name most delay now o m p h =
      let below = pending_below limit o.status o.attempts (ground arith) h in
      rw m (elim (Bool-cases (leb limit (o.attempts + 1))) [
        | inl k ↦ rw k (ground arith)
        | inr k ↦ rw k (ground arith)
      ])

  published-IsBounded :
      (e message : String) (now : ℕ) (o : OutboxRow)
      → is_pending_event e o ≡ true
      → IsBounded limit o
      → IsBounded limit (set_published message now o)
  published-IsBounded e message now o p h = pending_below limit o.status o.attempts (ground arith) h

  -- The outbox after a transaction that may raise.
  abbrev Outcomes : {A : Type 0} → PgOutcome A → Type 0
  Outcomes (ok (a, db)) = IsOutbox limit db.outbox
  Outcomes (err x) = Unit

  mark_outbox_published-Outcomes :
      (e message : String) (now : ℕ) (db : PgDb)
      → IsOutbox limit db.outbox
      → Outcomes (mark_outbox_published e message now db)
  unfolding mark_outbox_published
  mark_outbox_published-Outcomes e message now db h =
      elim (Bool-cases (count (is_pending_event e) db.outbox == 1)) [
        | inl k ↦ rw k (
            update-IsOutbox e (set_published message now) db.outbox (λ o. refl)
              (published-IsBounded e message now) h)
        | inr k ↦ rw k tt
      ]

  mark_outbox_failed-Outcomes :
      (e name : String) (most delay now : ℕ) (db : PgDb)
      → max 1 most ≡ limit
      → IsOutbox limit db.outbox
      → Outcomes (mark_outbox_failed e name most delay now db)
  unfolding mark_outbox_failed
  mark_outbox_failed-Outcomes e name most delay now db m h =
      elim (Option-cases (find (is_event e) db.outbox)) [
        | inl k ↦ rw k tt
        | inr (o, k) ↦ elim (Bool-cases (is_outbox_pending o.status)) [
          | inl p ↦
              let same_update =
                update_event e (set_failed_attempt name most delay now) db.outbox o h.unique k p in
              rw (k, p, same_update)
                (update-IsOutbox e (set_failed_attempt name most delay now) db.outbox (λ x. refl)
                  (λ x. failed-IsBounded e name most delay now x m) h)
          | inr p ↦ rw (k, p) tt
        ]
      ]

  then-Outcomes :
      {A B : Type 0} (r : PgOutcome A) (next : A → B)
      → Outcomes r
      → Outcomes (r >>= λ (a, db). ok (next a, db))
  then-Outcomes (ok (a, db)) next h = h
  then-Outcomes (err x) next h = tt

  module _ (p : OutboxPublisher) (m : max 1 p.max_attempts ≡ limit) where
    record_failure-Outcomes :
        (e : OutboxEvent) (name : String) (now n : ℕ) (db : PgDb)
        → IsOutbox limit db.outbox
        → Outcomes (record_failure p e name now n db)
    record_failure-Outcomes e name now n db h =
        then-Outcomes
          (mark_outbox_failed e.event_id name p.max_attempts (retry_delay p e.attempts) now db)
          (λ b. n)
          (mark_outbox_failed-Outcomes e.event_id name p.max_attempts (retry_delay p e.attempts) now
            db m h)

    record_sent-Outcomes :
        (e : OutboxEvent) (now n : ℕ) (db : PgDb) (r : PgOutcome (Unit {0}))
        → IsOutbox limit db.outbox
        → Outcomes r
        → Outcomes (record_sent p e now n db r)
    record_sent-Outcomes e now n db (ok (_, db')) h k = k
    record_sent-Outcomes e now n db (err x) h k =
        record_failure-Outcomes e (class_name x) now n db h

    publish_event-Outcomes :
        (s : Sent) (e : OutboxEvent) (now n : ℕ) (db : PgDb)
        → IsOutbox limit db.outbox
        → Outcomes (publish_event p s e now n db)
    publish_event-Outcomes (refused name) e now n db h = record_failure-Outcomes e name now n db h
    publish_event-Outcomes (sent message) e now n db h =
        record_sent-Outcomes e now n db (mark_outbox_published e.event_id message now db) h
          (mark_outbox_published-Outcomes e.event_id message now db h)

    with_db-IsOutbox :
        (db : PgDb) (r : PgOutcome ℕ)
        → IsOutbox limit db.outbox
        → Outcomes r
        → IsOutbox limit (with_db db r).1.outbox
    with_db-IsOutbox db (ok (n, db')) h k = k
    with_db-IsOutbox db (err x) h k = h

    publish_all-IsOutbox :
        (xadd : ℕ → OutboxEvent → Sent) (clock : ℕ → ℕ) (k : ℕ) (es : List OutboxEvent) (n : ℕ)
        (db : PgDb)
        → IsOutbox limit db.outbox
        → IsOutbox limit (publish_all p xadd clock k es n db).1.outbox
    unfolding publish_all
    publish_all-IsOutbox xadd clock k [] n db h = h
    publish_all-IsOutbox xadd clock k (e ∷ es) n db h =
        next (with_db db (publish_event p (xadd k e) e (clock k) n db))
          (with_db-IsOutbox db (publish_event p (xadd k e) e (clock k) n db) h
            (publish_event-Outcomes (xadd k e) e (clock k) n db h))
          (λ n' db' h'. publish_all-IsOutbox xadd clock (k + 1) es n' db' h')
      where
        next :
            (q : Result ℕ × PgDb)
            → IsOutbox limit q.1.outbox
            → ((n' : ℕ) (db' : PgDb)
                → IsOutbox limit db'.outbox
                → IsOutbox limit (publish_all p xadd clock (k + 1) es n' db').1.outbox)
            → IsOutbox limit (and_on (publish_all p xadd clock (k + 1) es) q).1.outbox
        next (ok n', db') h' rest = rest n' db' h'
        next (err x, db') h' rest = h'

    -- One round of the publisher, whatever Redis answers, keeps an outbox in which ids of events are unique
    -- and every event has failed fewer times than the limit, unless it FAILED, which is at the limit exactly.
    pub publish_once-IsOutbox :
        (xadd : ℕ → OutboxEvent → Sent) (clock : ℕ → ℕ) (now : ℕ) (db : PgDb)
        → IsOutbox limit db.outbox
        → IsOutbox limit (publish_once p xadd clock now db).1.outbox
    unfolding publish_once
    publish_once-IsOutbox xadd clock now db h =
        publish_all-IsOutbox xadd clock 0 (pending_outbox_events p.max_events now db) 0 db h
