-- ===== src/Batch/Postgres/Creation.antt =====
-- What `create_batch_with_outbox` of qc/batch/postgres_store.py inserts, in one transaction.
use servicecheck.Base.{
  ℕ, ◌+◌, ◌≤◌, String, ◌≡◌, refl, sym, ap, ◌∙◌, subst, inl, inr, false, Option, none, some, List,
  [], ◌∷◌, ◌++◌, arith, truthy, Bool-cases, ok-inj, length, any, count, count-append, ok, >>=-eq-ok,
  Ascends-append,
}
use mathlib.Core.List.{append_assoc, append-nil}
use servicecheck.Batch.Models.{FileRecord, BatchMeta, pending}
use servicecheck.Batch.Postgres.Tables.{
  JobStatus, ItemRow, OutboxStatus, OutboxRow, CreationRow, PgDb, is_job,
}
use servicecheck.Batch.Postgres.Jobs.{
  insert_job, BatchResponse, is_request, is_unfinished, pending_item_count, new_item, new_event,
  item_violates, add_item, add_items, new_request, queued_job, insert_batch, over_capacity,
  earlier_request, create_batch_with_outbox,
}
use servicecheck.Batch.Postgres.Refines.{IsSound}

-- An item and an event for a record of a batch.
abbrev pub IsPair : String → FileRecord → ItemRow → OutboxRow → Type 0
IsPair b r i o =
    (i.batch_id ≡ b)
    × (i.idempotency_key ≡ r.idempotency_key)
    × (i.source_uri ≡ r.source_uri)
    × (i.call_id ≡ r.call_id)
    × (i.status ≡ pending)
    × (o.payload.item_id ≡ i.item_id)
    × (o.payload.batch_id ≡ b)
    × (o.payload.idempotency_key ≡ i.idempotency_key)
    × (o.event_id ≡ o.payload.event_id)
    × (o.status ≡ OutboxStatus.pending)
    × (o.attempts ≡ 0)

-- One item and one event for every record, in the order of the records.
abbrev pub Paired : String → List FileRecord → List ItemRow → List OutboxRow → Type 0
Paired b [] [] [] = Unit
Paired b (r ∷ rs) (i ∷ is) (o ∷ os) = IsPair b r i o × Paired b rs is os
Paired b _ _ _ = ⊥

-- The tables with the items and the events of a batch added.
pub record Inserts (b : String) (rs : List FileRecord) (db db' : PgDb) : Type 0 where
  pub news : List ItemRow
  pub events : List OutboxRow
  pub paired : Paired b rs news events
  pub items_added : db'.items ≡ db.items ++ news
  pub events_added : db'.outbox ≡ db.outbox ++ events
  pub same_jobs : db'.jobs ≡ db.jobs
  pub same_requests : db'.requests ≡ db.requests
  pub sound : IsSound db → IsSound db'

add_items-Inserts :
    (uuid : ℕ → String) (b : String) (now k : ℕ) (rs : List FileRecord) (db : PgDb) {db' : PgDb}
    → add_items uuid b now k rs db ≡ ok db'
    → Inserts b rs db db'
unfolding add_items
add_items-Inserts uuid b now k [] db {db'} h =
    let z : Inserts b [] db db = record {
      news = [];
      events = [];
      paired = tt;
      items_added = sym (append-nil db.items);
      events_added = sym (append-nil db.outbox);
      same_jobs = refl;
      same_requests = refl;
      sound = λ v. v;
    } in
    subst (λ d. Inserts b [] db d) (ok-inj h) z
add_items-Inserts uuid b now k (r ∷ rs) db {db'} h =
    elim (Bool-cases (item_violates b r (uuid k) db)) [
      | inl e ↦ absurd (let q = rw e at h in cc)
      | inr e ↦
          let s =
            add_items-Inserts uuid b now (k + 1) rs (add_item b r (uuid k) now db) (rw e at h) in
          record {
            news = new_item db.next_item b r now ∷ s.news;
            events = new_event (uuid k) (new_item db.next_item b r now) now ∷ s.events;
            paired = ((refl, refl, refl, refl, refl, refl, refl, refl, refl, refl, refl), s.paired);
            items_added =
                s.items_added ∙ append_assoc db.items (new_item db.next_item b r now ∷ []) s.news;
            events_added =
                s.events_added
                ∙ append_assoc db.outbox
                    (new_event (uuid k) (new_item db.next_item b r now) now ∷ []) s.events;
            same_jobs = s.same_jobs;
            same_requests = s.same_requests;
            sound = λ v. s.sound (
                Ascends-append ItemRow.item_id 1 db.next_item db.items
                  (new_item db.next_item b r now) refl v);
          }
    ]

Paired-count :
    (b : String) (rs : List FileRecord) (is : List ItemRow) (os : List OutboxRow)
    → Paired b rs is os
    → count is_unfinished is ≡ length rs
Paired-count b [] [] [] h = refl
Paired-count b [] (i ∷ is) os h = absurd h
Paired-count b [] [] (o ∷ os) h = absurd h
Paired-count b (r ∷ rs) [] os h = absurd h
Paired-count b (r ∷ rs) (i ∷ is) [] h = absurd h
Paired-count b (r ∷ rs) (i ∷ is) (o ∷ os) h = ground (arith, Paired-count b rs is os h.1)

abbrev pub request_row : String → String → String → ℕ → CreationRow
request_row key b hash now = record {
  idempotency_key = key;
  batch_id = b;
  request_hash = hash;
  created_at = now;
}

-- The row of a request, if it has a key.
abbrev pub request_rows : Option String → String → String → ℕ → List CreationRow
request_rows none b hash now = []
request_rows (some key) b hash now = request_row key b hash now ∷ []

-- A request adds its row alone.
abbrev pub OnlyRequests : List CreationRow → PgDb → PgDb → Type 0
OnlyRequests rows d d' =
    (d'.items ≡ d.items)
    × (d'.outbox ≡ d.outbox)
    × (d'.jobs ≡ d.jobs)
    × (d'.next_item ≡ d.next_item)
    × (d'.requests ≡ d.requests ++ rows)

new_request-OnlyRequests :
    (key : Option String) (hash : String) (meta : BatchMeta) (now : ℕ) (d : PgDb) {d' : PgDb}
    → new_request key hash meta now d ≡ ok d'
    → OnlyRequests (request_rows key meta.batch_id hash now) d d'
new_request-OnlyRequests none hash meta now d h =
    rw⁻¹ (ok-inj h) (refl, refl, refl, refl, sym (append-nil d.requests))
new_request-OnlyRequests (some k) hash meta now d h =
    elim (Bool-cases (any (is_request k) d.requests)) [
      | inl e ↦ absurd (let q = rw e at h in cc)
      | inr e ↦ rw⁻¹ (ok-inj (rw e at h)) (refl, refl, refl, refl, refl)
    ]

-- A batch that was created, with its items and their events.
pub record Creates (meta : BatchMeta) (rs : List FileRecord) (rows : List CreationRow)
    (max_pending : Option ℕ) (db : PgDb) (p : BatchResponse × PgDb) : Type 0 where
  pub news : List ItemRow
  pub events : List OutboxRow
  pub paired : Paired meta.batch_id rs news events
  pub items_added : p.1.items ≡ db.items ++ news
  pub events_added : p.1.outbox ≡ db.outbox ++ events
  pub job_added :
      p.1.jobs
      ≡ db.jobs
        ++ record {
          batch_id = meta.batch_id;
          source = meta.source;
          status = JobStatus.queued;
          total = length rs;
          created_at = meta.created_at;
          started_at = none;
          finished_at = none;
          source_snapshot = some (meta.source, rs);
        }
          ∷ []
  pub requests_added : p.1.requests ≡ db.requests ++ rows
  pub answer :
      p.0 ≡ record { batch_id = meta.batch_id; status = JobStatus.queued; total = length rs }
  pub new_batch : any (is_job meta.batch_id) db.jobs ≡ false
  pub sound : IsSound db → IsSound p.1
  pub within : (limit : ℕ) → max_pending ≡ some limit → pending_item_count p.1 ≤ limit

within_capacity :
    (max_pending : Option ℕ) (rs : List FileRecord) (db : PgDb) (news : List ItemRow) (limit : ℕ)
    → over_capacity max_pending rs db ≡ false
    → count is_unfinished news ≡ length rs
    → max_pending ≡ some limit
    → count is_unfinished (db.items ++ news) ≤ limit
within_capacity none rs db news limit o c h = absurd (cc)
within_capacity (some l) rs db news limit o c h =
    rw (count-append is_unfinished db.items news, c) (ground arith)

module _ (uuid : ℕ → String) (meta : BatchMeta) (rs : List FileRecord) (hash : String)
    (max_pending : Option ℕ) (now : ℕ) (db : PgDb) where
  abbrev answered : BatchResponse
  answered = record { batch_id = meta.batch_id; status = JobStatus.queued; total = length rs }

  joined :
      (rows : List CreationRow) (d d' : PgDb)
      → Inserts meta.batch_id rs (insert_job (queued_job meta rs) db) d
      → OnlyRequests rows d d'
      → any (is_job meta.batch_id) db.jobs ≡ false
      → over_capacity max_pending rs db ≡ false
      → Creates meta rs rows max_pending db (answered, d')
  unfolding pending_item_count
  joined rows d d' s only fresh o = record {
    news = s.news;
    events = s.events;
    paired = s.paired;
    items_added = only.0 ∙ s.items_added;
    events_added = only.1 ∙ s.events_added;
    job_added = only.2 ∙ s.same_jobs;
    requests_added = only.4 ∙ ap {B = List CreationRow} (λ q. q ++ rows) s.same_requests;
    answer = refl;
    new_batch = fresh;
    sound = λ v. rw (only.0, only.3) (s.sound v);
    within = λ limit h.
        rw (only.0, s.items_added)
          (within_capacity max_pending rs db s.news limit o
            (Paired-count meta.batch_id rs s.news s.events s.paired) h);
  }

  inserted-Creates :
      (key : Option String) {response : BatchResponse} {db' : PgDb}
      → over_capacity max_pending rs db ≡ false
      → insert_batch uuid meta rs key hash now db ≡ ok (response, db')
      → Creates meta rs (request_rows key meta.batch_id hash now) max_pending db (response, db')
  inserted-Creates key {response} {db'} o h =
      elim (Bool-cases (any (is_job meta.batch_id) db.jobs)) [
        | inl e ↦ absurd (let q = rw e at h in cc)
        | inr e ↦
            let (d, added, rest) =
              >>=-eq-ok (add_items uuid meta.batch_id now 0 rs (insert_job (queued_job meta rs) db))
                _ (rw e at h) in
            let (d', asked, same_db) = >>=-eq-ok (new_request key hash meta now d) _ rest in
            subst (Creates meta rs (request_rows key meta.batch_id hash now) max_pending db)
              (ok-inj same_db)
              (joined (request_rows key meta.batch_id hash now) d d'
                (add_items-Inserts uuid meta.batch_id now 0 rs (insert_job (queued_job meta rs) db)
                  added)
                (new_request-OnlyRequests key hash meta now d asked) e o)
      ]

  -- Without an earlier request of its key, a call that returns has added the job QUEUED, the row of the
  -- request, and for every record, in their order, one PENDING item and one PENDING event that names it; no
  -- batch of that id was there, ids of items stay ascending, and with a limit at most that many items are
  -- unfinished.
  pub create_batch_with_outbox-Creates :
      (key : Option String) {response : BatchResponse} {db' : PgDb}
      → earlier_request (truthy key) db ≡ none
      → create_batch_with_outbox uuid meta rs key hash max_pending now db ≡ ok (response, db')
      → Creates meta rs
          (request_rows (truthy key) meta.batch_id hash now)
          max_pending
          db
          (response, db')
  unfolding create_batch_with_outbox
  create_batch_with_outbox-Creates key new h = elim (Bool-cases (over_capacity max_pending rs db)) [
    | inl e ↦ absurd (let q = rw (new, e) at h in cc)
    | inr e ↦ inserted-Creates (truthy key) e (rw (new, e) at h)
  ]
