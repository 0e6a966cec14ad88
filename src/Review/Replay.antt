-- ===== src/Review/Replay.antt =====
-- Submits that are repeated, and submits that race.
use servicecheck.Base.{
  ℕ, String, ◌≡◌, refl, ap, ◌∙◌, subst, inl, inr, true, Option, none, some, List, [], ◌∷◌, ◌++◌,
  arith, ◌==◌, same, same→eq, same_refl, Bool-cases, Option-cases, any, All, find, count,
  find-append_none, find_fits, find-update, find-append_some,
}
use servicecheck.Review.Models.{is_pending}
use servicecheck.Review.Tables.{
  ReviewTaskRow, ReviewRevisionRow, ReviewDb, is_task, replays, task_checks, revision_clashes,
  TaskDetail, task_detail,
}
use servicecheck.Review.Submit.{
  Reply, replied, raised, Submission, new_revision, decide, is_open, replay, recover, write, locked,
  submit,
}
use servicecheck.Review.Decisions.{HasTask, IsValid}
use servicecheck.Review.Valid.{decided_db}

-- A task that owns a revision is found.
any_task :
    (i : String) (ts : List ReviewTaskRow)
    → any (is_task i) ts ≡ true
    → (t : ReviewTaskRow) × (find (is_task i) ts ≡ some t)
any_task i [] h = absurd (cc)
any_task i (x ∷ ts) h = elim (Bool-cases (is_task i x)) [
  | inl e ↦ (x, rw e refl)
  | inr e ↦ let (t, f) = any_task i ts (rw e at h) in (t, rw e f)
]

owner :
    (n key : String) (ts : List ReviewTaskRow) (rs : List ReviewRevisionRow) (r : ReviewRevisionRow)
    → All (HasTask ts) rs
    → find (replays n key) rs ≡ some r
    → (t : ReviewTaskRow) × (find (is_task n) ts ≡ some t)
owner n key ts [] r h f = absurd (cc)
owner n key ts (x ∷ rs) r h f = elim (Bool-cases (replays n key x)) [
  | inl e ↦ any_task n ts (rw (← same→eq x.task_id n (ground arith)) h.0)
  | inr e ↦ owner n key ts rs r h.1 (rw e at f)
]

-- The first read of a submit may be of any earlier moment: as revisions are only ever added, the
-- reply and the tables are those of a submit that runs alone under the lock.
pub submit_race :
    (s : Submission) (i : String) (now : ℕ) (seen db : ReviewDb) (more : List ReviewRevisionRow)
    → IsValid db
    → db.revisions ≡ seen.revisions ++ more
    → submit s i now seen db ≡ submit s i now db db
unfolding submit
submit_race s i now seen db more v grown =
    elim (Option-cases (find (replays s.review_task_id s.idempotency_key) seen.revisions)) [
      | inl e ↦
          elim (Option-cases (find (replays s.review_task_id s.idempotency_key) db.revisions)) [
            | inl e' ↦ rw (e, e') (rw e' refl)
            | inr (r, e') ↦
                let (t, f) =
                  owner s.review_task_id s.idempotency_key db.tasks db.revisions r v.owned e' in
                rw (e, e', f) refl
          ]
      | inr (r, e) ↦
          let e' : find (replays s.review_task_id s.idempotency_key) db.revisions ≡ some r =
            ap (find (replays s.review_task_id s.idempotency_key)) grown
            ∙ find-append_some (replays s.review_task_id s.idempotency_key) seen.revisions more r
                e in
          rw (e, e') refl
    ]

-- What a reply that is not an error leaves: the revision with the key and the hash, and the task
-- whose detail was returned.
abbrev Recorded : Submission → Reply → Type 0
Recorded s (raised e) = Unit
Recorded s (replied d db) =
    (r : ReviewRevisionRow) × (t : ReviewTaskRow) × (find
        (replays s.review_task_id s.idempotency_key) db.revisions
      ≡ some r)
    × (same r.request_hash s.request_hash ≡ true)
    × (find (is_task s.review_task_id) db.tasks ≡ some t)
    × (d ≡ task_detail db t)

module _ (s : Submission) (db : ReviewDb) where
  replay-Recorded :
      (r : ReviewRevisionRow) (o : Option ReviewTaskRow)
      → find (replays s.review_task_id s.idempotency_key) db.revisions ≡ some r
      → find (is_task s.review_task_id) db.tasks ≡ o
      → Recorded s (replay s db o r)
  replay-Recorded r none f g = elim (Bool-cases (same r.request_hash s.request_hash)) [
    | inl e ↦ rw e tt
    | inr e ↦ rw e tt
  ]
  replay-Recorded r (some t) f g = elim (Bool-cases (same r.request_hash s.request_hash)) [
    | inl e ↦ rw e (r, t, f, e, g, refl)
    | inr e ↦ rw e tt
  ]

  recover-Recorded :
      (r : Option ReviewRevisionRow) (o : Option ReviewTaskRow)
      → find (replays s.review_task_id s.idempotency_key) db.revisions ≡ r
      → find (is_task s.review_task_id) db.tasks ≡ o
      → Recorded s (recover s db r o)
  recover-Recorded (some r) o f g = replay-Recorded r o f g
  recover-Recorded none none f g = tt
  recover-Recorded none (some t) f g = elim (Bool-cases (is_pending t.status)) [
    | inl e ↦ rw e tt
    | inr e ↦ rw e tt
  ]

  module _ (i : String) (now : ℕ) where
    decided-Recorded :
        (t : ReviewTaskRow)
        → find (replays s.review_task_id s.idempotency_key) db.revisions ≡ none
        → find (is_task s.review_task_id) db.tasks ≡ some t
        → is_open s t ≡ true
        → Recorded s (
            replied
              (task_detail (decided_db s i now t db) (decide s i now t))
              (decided_db s i now t db))
    decided-Recorded t f g o = (
      new_revision s i now t,
      decide s i now t,
      find-append_none (replays s.review_task_id s.idempotency_key) db.revisions
            (new_revision s i now t ∷ []) f
          ∙ ground (
            arith,
            find_fits (is_task s.review_task_id) db.tasks t g,
            same_refl s.idempotency_key,
          ),
      same_refl s.request_hash,
      find-update (is_task s.review_task_id) (is_open s) (decide s i now) (λ x. refl) db.tasks
          ∙ ground (arith, g),
      refl,
    )

    write-Recorded :
        (t : ReviewTaskRow)
        → find (replays s.review_task_id s.idempotency_key) db.revisions ≡ none
        → find (is_task s.review_task_id) db.tasks ≡ some t
        → is_open s t ≡ true
        → Recorded s (write s i now db t)
    write-Recorded t f g o =
        let again =
          recover-Recorded (find (replays s.review_task_id s.idempotency_key) db.revisions)
            (find (is_task s.review_task_id) db.tasks) refl refl in
        elim (Bool-cases (any (revision_clashes (new_revision s i now t)) db.revisions)) [
          | inl e ↦ rw e again
          | inr e ↦ elim (Bool-cases (task_checks (decide s i now t))) [
            | inl c ↦ elim (Bool-cases (count (is_open s) db.tasks == 1)) [
              | inl one ↦ rw (e, c, one) (decided-Recorded t f g o)
              | inr no_one ↦ rw (e, c, no_one) tt
            ]
            | inr c ↦ rw (e, c) again
          ]
        ]

    locked-Recorded :
        (o : Option ReviewTaskRow) (r : Option ReviewRevisionRow)
        → find (is_task s.review_task_id) db.tasks ≡ o
        → find (replays s.review_task_id s.idempotency_key) db.revisions ≡ r
        → Recorded s (locked s i now db o r)
    locked-Recorded none r g f = tt
    locked-Recorded (some t) (some r) g f = replay-Recorded r (some t) f g
    locked-Recorded (some t) none g f = elim (Bool-cases (is_pending t.status)) [
      | inl p ↦ elim (Bool-cases (t.version == s.expected_version)) [
        | inl w ↦
            rw (p, w)
              (write-Recorded t f g
                (ground (arith, find_fits (is_task s.review_task_id) db.tasks t g)))
        | inr w ↦ rw (p, w) tt
      ]
      | inr p ↦ rw p tt
    ]

submit-Recorded :
    (s : Submission) (i : String) (now : ℕ) (db : ReviewDb) → Recorded s (submit s i now db db)
unfolding submit
submit-Recorded s i now db =
    elim (Option-cases (find (replays s.review_task_id s.idempotency_key) db.revisions)) [
      | inl e ↦
          rw e (
            rw e
              (locked-Recorded s db i now (find (is_task s.review_task_id) db.tasks) none refl e))
      | inr (r, e) ↦ rw e (replay-Recorded s db r (find (is_task s.review_task_id) db.tasks) e refl)
    ]

-- A submit that was answered is answered alike when it is sent again, with whatever identifier and
-- clock: the same detail is returned, and the tables stay as they are.
pub submit_again :
    (s : Submission) (i j : String) (now later : ℕ) (db : ReviewDb) {d : TaskDetail}
    {db' : ReviewDb}
    → submit s i now db db ≡ replied d db'
    → submit s j later db' db' ≡ replied d db'
unfolding submit
submit_again s i j now later db {d} {db'} e =
    let (r, t, f, h, g, same_detail) : Recorded s (replied d db') =
      subst (Recorded s) (unfold submit in e) (submit-Recorded s i now db) in
    rw (f, g, h) (ground arith)
