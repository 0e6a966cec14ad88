-- ===== src/Review/Valid.antt =====
-- Every operation on the review tables keeps the invariant.
use servicecheck.Base.{
  ℕ, String, ◌≡◌, refl, ◌∙◌, inl, inr, Bool, true, false, Option, none, some, List, [], ◌∷◌, ◌++◌,
  arith, ◌==◌, same_refl, same_comm, Bool-cases, any, All, All-map_impl, All-append, find, update,
  count, find_fits, Unique-append, Unique-update,
}
use servicecheck.Review.Models.{is_pending}
use servicecheck.Review.Tables.{
  ReviewTaskRow, ReviewRevisionRow, ReviewDb, is_task, replays, task_checks, revision_clashes,
}
use servicecheck.Review.Submit.{
  after_reply, Submission, new_revision, decide, is_open, replay, recover, write, locked,
  submit_seen, submit,
}
use servicecheck.Review.Decisions.{same_task, same_run, HasTask, IsValid, All-IsAccounted}

abbrev pub decided_db : Submission → String → ℕ → ReviewTaskRow → ReviewDb → ReviewDb
decided_db s i now t db = record {
  tasks = update (is_open s) (decide s i now) db.tasks;
  revisions = db.revisions ++ new_revision s i now t ∷ [];
}

-- A submit changes the tables only by a decision of the task it names, which is open.
module _ {κ} (P : ReviewDb → Type κ) (s : Submission) (i : String) (now : ℕ) (db : ReviewDb)
    (as_before : P db)
    (decided : (t : ReviewTaskRow)
      → find (is_task s.review_task_id) db.tasks ≡ some t
      → is_open s t ≡ true
      → any (revision_clashes (new_revision s i now t)) db.revisions ≡ false
      → P (decided_db s i now t db)) where
  replay-rule :
      (t : Option ReviewTaskRow) (r : ReviewRevisionRow) → P (after_reply (replay s db t r) db)
  replay-rule none r = ground (arith, as_before)
  replay-rule (some t) r = ground (arith, as_before)

  recover-rule :
      (r : Option ReviewRevisionRow) (t : Option ReviewTaskRow)
      → P (after_reply (recover s db r t) db)
  recover-rule (some r) t = replay-rule t r
  recover-rule none none = as_before
  recover-rule none (some t) = ground (arith, as_before)

  write-rule :
      (t : ReviewTaskRow)
      → find (is_task s.review_task_id) db.tasks ≡ some t
      → is_open s t ≡ true
      → P (after_reply (write s i now db t) db)
  write-rule t f o =
      elim (Bool-cases (any (revision_clashes (new_revision s i now t)) db.revisions)) [
        | inl e ↦ rw e (
            recover-rule (find (replays s.review_task_id s.idempotency_key) db.revisions)
              (find (is_task s.review_task_id) db.tasks))
        | inr e ↦ elim (Bool-cases (task_checks (decide s i now t))) [
          | inl c ↦ elim (Bool-cases (count (is_open s) db.tasks == 1)) [
            | inl one ↦ rw (e, c, one) (decided t f o e)
            | inr no_one ↦ rw (e, c, no_one) as_before
          ]
          | inr c ↦
              rw (e, c)
                (recover-rule (find (replays s.review_task_id s.idempotency_key) db.revisions)
                  (find (is_task s.review_task_id) db.tasks))
        ]
      ]

  locked-rule :
      (t : Option ReviewTaskRow) (r : Option ReviewRevisionRow)
      → find (is_task s.review_task_id) db.tasks ≡ t
      → P (after_reply (locked s i now db t r) db)
  locked-rule none r f = as_before
  locked-rule (some t) (some r) f = replay-rule (some t) r
  locked-rule (some t) none f = elim (Bool-cases (is_pending t.status)) [
    | inl p ↦ elim (Bool-cases (t.version == s.expected_version)) [
      | inl v ↦
          rw (p, v)
            (write-rule t f (ground (arith, find_fits (is_task s.review_task_id) db.tasks t f)))
      | inr v ↦ rw (p, v) as_before
    ]
    | inr p ↦ rw p as_before
  ]

  seen-rule : (r : Option ReviewRevisionRow) → P (after_reply (submit_seen s i now db r) db)
  seen-rule (some r) = replay-rule (find (is_task s.review_task_id) db.tasks) r
  seen-rule none =
      locked-rule (find (is_task s.review_task_id) db.tasks)
        (find (replays s.review_task_id s.idempotency_key) db.revisions) refl

  pub submit-rule : (seen : ReviewDb) → P (after_reply (submit s i now seen db) db)
  unfolding submit
  submit-rule seen = seen-rule (find (replays s.review_task_id s.idempotency_key) seen.revisions)

-- The revisions that a test of the task's identity finds, in the tables after a change.
owned-update :
    (p : ReviewTaskRow → Bool) (f : ReviewTaskRow → ReviewTaskRow)
    → ((x : ReviewTaskRow) → (f x).review_task_id ≡ x.review_task_id)
    → (i : String) (ts : List ReviewTaskRow) → any (is_task i) (update p f ts) ≡ any (is_task i) ts
owned-update p f keep i [] = refl
owned-update p f keep i (t ∷ ts) = ground (arith, keep t, owned-update p f keep i ts)

pub All-HasTask :
    (p : ReviewTaskRow → Bool) (f : ReviewTaskRow → ReviewTaskRow)
    → ((x : ReviewTaskRow) → (f x).review_task_id ≡ x.review_task_id)
    → (ts : List ReviewTaskRow) (rs : List ReviewRevisionRow) → All (HasTask ts) rs
    → All (HasTask (update p f ts)) rs
All-HasTask p f keep ts rs h =
    All-map_impl (HasTask ts) (HasTask (update p f ts))
      (λ r k. owned-update p f keep r.task_id ts ∙ k) rs h

any_of_find :
    (i : String) (ts : List ReviewTaskRow) (t : ReviewTaskRow)
    → find (is_task i) ts ≡ some t
    → any (is_task t.review_task_id) ts ≡ true
any_of_find i [] t f = absurd (cc)
any_of_find i (x ∷ ts) t f = ground (arith, same_refl x.review_task_id, any_of_find i ts t)

clashes_comm : (x y : ReviewRevisionRow) → revision_clashes x y ≡ revision_clashes y x
clashes_comm x y = rw (same_comm x.revision_id y.revision_id, same_comm x.task_id y.task_id) refl

decided_db-IsValid :
    (s : Submission) (i : String) (now : ℕ) (db : ReviewDb)
    → IsValid db
    → (t : ReviewTaskRow) → find (is_task s.review_task_id) db.tasks ≡ some t
    → is_open s t ≡ true
    → any (revision_clashes (new_revision s i now t)) db.revisions ≡ false
    → IsValid (decided_db s i now t db)
decided_db-IsValid s i now db v t f o fresh = record {
  accounted = All-IsAccounted s i now db.revisions t db.tasks f o v.tasks_unique v.accounted;
  tasks_unique =
      Unique-update same_task (is_open s) (decide s i now) (λ x y. refl) (λ x y. refl) db.tasks
        v.tasks_unique;
  runs_unique =
      Unique-update same_run (is_open s) (decide s i now) (λ x y. refl) (λ x y. refl) db.tasks
        v.runs_unique;
  revisions_unique =
      Unique-append revision_clashes clashes_comm db.revisions (new_revision s i now t) fresh
        v.revisions_unique;
  owned =
      All-append (HasTask (update (is_open s) (decide s i now) db.tasks)) db.revisions
        (new_revision s i now t ∷ [])
        (All-HasTask (is_open s) (decide s i now) (λ x. refl) db.tasks db.revisions v.owned)
        (
          owned-update (is_open s) (decide s i now) (λ x. refl) t.review_task_id db.tasks
              ∙ any_of_find s.review_task_id db.tasks t f,
          tt,
        );
}

pub submit-IsValid :
    (s : Submission) (i : String) (now : ℕ) (seen db : ReviewDb)
    → IsValid db
    → IsValid (after_reply (submit s i now seen db) db)
submit-IsValid s i now seen db v =
    submit-rule IsValid s i now db v (decided_db-IsValid s i now db v) seen
