-- ===== src/Batch/Postgres/Idempotent.antt =====
-- The idempotency keys of `create_batch_with_outbox` (qc/batch/postgres_store.py).
use servicecheck.Base.{
  ℕ, String, ◌≡◌, refl, ◌∙◌, inl, inr, true, false, Option, none, some, List, [], ◌∷◌, ◌++◌, arith,
  if◌then◌else◌, same, same→eq, same_refl, same_of_eq, Bool-cases, length, any, All, find, count,
  count-append, find-append_none, find_fits, idempotency_conflict, ok, err, find-append_some,
}
use servicecheck.Batch.Models.{FileRecord, BatchMeta}
use servicecheck.Batch.Postgres.Tables.{JobRow, ItemRow, OutboxRow, CreationRow, PgDb, is_job}
use servicecheck.Batch.Postgres.Jobs.{
  BatchResponse, in_job, batch_response, is_request, earlier_request, create_batch_with_outbox,
}
use servicecheck.Batch.Postgres.Creation.{
  Paired, request_row, Creates, create_batch_with_outbox-Creates,
}

-- The foreign key of the items: each is of a batch that is there.
abbrev pub HaveJobs : PgDb → Type 0
HaveJobs db = All (λ (i : ItemRow). any (is_job i.batch_id) db.jobs ≡ true) db.items

none_of :
    (b : String) (jobs : List JobRow) (xs : List ItemRow)
    → any (is_job b) jobs ≡ false
    → All (λ (i : ItemRow). any (is_job i.batch_id) jobs ≡ true) xs
    → count (in_job b) xs ≡ 0
none_of b jobs [] f h = refl
none_of b jobs (x ∷ xs) f h = elim (Bool-cases (same x.batch_id b)) [
  | inl e ↦ let i : x.batch_id ≡ b = same→eq x.batch_id b e in absurd (let k = rw i at h.0 in cc)
  | inr e ↦ rw e (none_of b jobs xs f h.1)
]

Paired-in_job :
    (b : String) (rs : List FileRecord) (is : List ItemRow) (os : List OutboxRow)
    → Paired b rs is os
    → count (in_job b) is ≡ length rs
Paired-in_job b [] [] [] h = refl
Paired-in_job b [] (i ∷ is) os h = absurd h
Paired-in_job b [] [] (o ∷ os) h = absurd h
Paired-in_job b (r ∷ rs) [] os h = absurd h
Paired-in_job b (r ∷ rs) (i ∷ is) [] h = absurd h
Paired-in_job b (r ∷ rs) (i ∷ is) (o ∷ os) h =
    ground (arith, same_of_eq i.batch_id b h.0.0, Paired-in_job b rs is os h.1)

no_job-find :
    (b : String) (jobs : List JobRow) → any (is_job b) jobs ≡ false → find (is_job b) jobs ≡ none
no_job-find b [] h = refl
no_job-find b (j ∷ jobs) h = ground (arith, no_job-find b jobs)

module _ (uuid : ℕ → String) (meta : BatchMeta) (rs : List FileRecord) (hash key : String)
    (max_pending : Option ℕ) (now : ℕ) (db : PgDb) where
  found_request :
      (p : BatchResponse × PgDb) (later : PgDb) (more : List CreationRow)
      → earlier_request (some key) db ≡ none
      → Creates meta rs (request_row key meta.batch_id hash now ∷ []) max_pending db p
      → later.requests ≡ p.1.requests ++ more
      → find (is_request key) later.requests ≡ some (request_row key meta.batch_id hash now)
  found_request p later more new c kept =
      let row = request_row key meta.batch_id hash now in
      rw (kept, c.requests_added)
        (find-append_some (is_request key) (db.requests ++ row ∷ []) more row
          (rw (find-append_none (is_request key) db.requests (row ∷ []) new, same_refl key) refl))

  created_items :
      (p : BatchResponse × PgDb)
      → HaveJobs db
      → Creates meta rs (request_row key meta.batch_id hash now ∷ []) max_pending db p
      → count (in_job meta.batch_id) p.1.items ≡ length rs
  created_items p fk c =
      rw
        (
          c.items_added,
          count-append (in_job meta.batch_id) db.items c.news,
          none_of meta.batch_id db.jobs db.items c.new_batch fk,
          Paired-in_job meta.batch_id rs c.news c.events c.paired,
        )
        (omega arith)

  -- The answer to a call under the key of the batch, by the row that the batch has then.
  abbrev current : JobRow → BatchResponse
  current j = record { batch_id = meta.batch_id; status = j.status; total = length rs }

  found_batch :
      (later : PgDb) (j : JobRow)
      → find (is_job meta.batch_id) later.jobs ≡ some j
      → count (in_job meta.batch_id) later.items ≡ length rs
      → batch_response meta.batch_id later ≡ ok (current j)
  unfolding batch_response
  found_batch later j at_job total =
      let named =
        same→eq j.batch_id meta.batch_id (find_fits (is_job meta.batch_id) later.jobs j at_job) in
      rw (at_job, total, named) refl

  -- A batch that was created under a key is found by the key on all later tables that keep the rows
  -- of requests, that have a row for the batch, and where the batch has as many items as the creation
  -- left it. There a call with the key and the same hash answers with the batch, the status that its
  -- row has then and the number of its records, and changes nothing; with another hash it raises
  -- IdempotencyConflictError, whatever the rest of the call.
  pub create_batch_with_outbox_again :
      {response : BatchResponse} {db' : PgDb}
      → same key "" ≡ false
      → HaveJobs db
      → earlier_request (some key) db ≡ none
      → create_batch_with_outbox uuid meta rs (some key) hash max_pending now db
        ≡ ok (response, db')
      → (later : PgDb) (more : List CreationRow) (j : JobRow)
      → later.requests ≡ db'.requests ++ more
      → find (is_job meta.batch_id) later.jobs ≡ some j
      → count (in_job meta.batch_id) later.items ≡ count (in_job meta.batch_id) db'.items
      → (uuid' : ℕ → String) (meta' : BatchMeta) (rs' : List FileRecord) (hash' : String)
        (limit' : Option ℕ) (now' : ℕ)
      → create_batch_with_outbox uuid' meta' rs' (some key) hash' limit' now' later ≡ (
          if same hash hash'
          then ok (record { batch_id = meta.batch_id; status = j.status; total = length rs }, later)
          else err idempotency_conflict)
  unfolding create_batch_with_outbox
  create_batch_with_outbox_again {response} {db'} k fk new h later more j kept at_job same_items
        uuid' meta' rs' hash' limit' now' =
      let c : Creates meta rs (request_row key meta.batch_id hash now ∷ []) max_pending db
          (response, db') =
        rw k at (
          create_batch_with_outbox-Creates uuid meta rs hash max_pending now db (some key)
            (rw k new) h) in
      let total = same_items ∙ created_items (response, db') fk c in
      rw (k, found_request (response, db') later more new c kept)
        (elim (Bool-cases (same hash hash')) [
          | inl e ↦ rw (e, found_batch later j at_job total) refl
          | inr e ↦ rw e refl
        ])
