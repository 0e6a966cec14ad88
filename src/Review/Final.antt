-- ===== src/Review/Final.antt =====
-- Decisions are final, and repeated or racing submits agree.
use servicecheck.Base.{
  ℕ, String, ◌≡◌, refl, ◌∙◌, inl, inr, true, false, Option, none, some, List, [], ◌∷◌, arith, same,
  same→eq, Bool-cases, any, select, find, find_fits, find-update, find-append_some,
}
use servicecheck.Review.Models.{is_pending}
use servicecheck.Review.Tables.{
  RouteReason, ReviewTaskRow, ReviewRevisionRow, ReviewDb, is_task, is_run, of_task,
}
use servicecheck.Review.Submit.{
  Submission, new_revision, decide, is_open, new_task, ensure_from, ensure_review_task,
  attach_batch_item,
}
use servicecheck.Review.Decisions.{select-append_other}
use servicecheck.Review.Valid.{submit-rule, decided_db}
use servicecheck.Review.Steps.{Step, submits, ensures, attaches, apply, run, ensured}

-- The decision of a task, as far as its row and its revisions record it.
abbrev pub SameDecision : ReviewTaskRow → ReviewTaskRow → Type 0
SameDecision t u =
    (u.review_task_id ≡ t.review_task_id)
    × (u.status ≡ t.status)
    × (u.version ≡ t.version)
    × (u.effective_revision_id ≡ t.effective_revision_id)
    × (u.unresolved_reason ≡ t.unresolved_reason)

abbrev pub Keeps : String → ReviewTaskRow → List ReviewRevisionRow → ReviewDb → Type 0
Keeps n t hs d =
    ((u : ReviewTaskRow) × (find (is_task n) d.tasks ≡ some u) × SameDecision t u)
    × (select (of_task n) d.revisions ≡ hs)

module _ (n : String) (t : ReviewTaskRow) (hs : List ReviewRevisionRow)
    (closed : is_pending t.status ≡ false) where
  decided-Keeps :
      (s : Submission) (i : String) (now : ℕ) (db : ReviewDb) (t' : ReviewTaskRow)
      → Keeps n t hs db
      → find (is_task s.review_task_id) db.tasks ≡ some t'
      → is_open s t' ≡ true
      → Keeps n t hs (decided_db s i now t' db)
  decided-Keeps s i now db t' ((u, f, same_u), h) f' o =
      elim (Bool-cases (same s.review_task_id n)) [
        | inl e ↦ absurd (
            let named : s.review_task_id ≡ n = same→eq s.review_task_id n e in
            let found : find (is_task n) db.tasks ≡ some t' = rw named at f' in ground arith)
        | inr e ↦ (
          (
            u,
            find-update (is_task n) (is_open s) (decide s i now) (λ x. refl) db.tasks
                ∙ ground (arith, f),
            same_u,
          ),
          select-append_other n db.revisions (new_revision s i now t') (
                rw
                  (same→eq t'.review_task_id s.review_task_id
                    (find_fits (is_task s.review_task_id) db.tasks t' f'))
                  e)
              ∙ h,
        )
      ]

  ensure_from-Keeps :
      (x r : String) (reasons : List RouteReason) (now : ℕ) (db : ReviewDb)
      (found : Option ReviewTaskRow)
      → Keeps n t hs db
      → Keeps n t hs (ensured (ensure_from x r reasons now db found) db)
  ensure_from-Keeps x r reasons now db (some y) k = k
  ensure_from-Keeps x r reasons now db none ((u, f, same_u), h) =
      elim (Bool-cases (any (is_task x) db.tasks)) [
        | inl e ↦ rw e ((u, f, same_u), h)
        | inr e ↦ rw e (
          (u, find-append_some (is_task n) db.tasks (new_task x r reasons now ∷ []) u f, same_u),
          h,
        )
      ]

  attach-Keeps :
      (r : String) (item now : ℕ) (db : ReviewDb)
      → Keeps n t hs db
      → Keeps n t hs (attach_batch_item r item now db)
  unfolding attach_batch_item
  attach-Keeps r item now db ((u, f, same_u), h) =
      let g : ReviewTaskRow → ReviewTaskRow =
        λ y. record y { batch_item_id = some item; updated_at = now } in
      let after_update = find-update (is_task n) (is_run r) g (λ y. refl) db.tasks in
      elim (Bool-cases (is_run r u)) [
        | inl e ↦ ((g u, after_update ∙ ground (arith, f), same_u), h)
        | inr e ↦ ((u, after_update ∙ ground (arith, f), same_u), h)
      ]

  apply-Keeps : (s : Step) (db : ReviewDb) → Keeps n t hs db → Keeps n t hs (apply s db)
  unfolding apply
  apply-Keeps (submits s i now seen) db k =
      submit-rule (Keeps n t hs) s i now db k (λ t' f o fresh. decided-Keeps s i now db t' k f o)
        seen
  apply-Keeps (ensures x r reasons now) db k =
      unfold ensure_review_task in
      (ensure_from-Keeps x r reasons now db (find (is_run r) db.tasks) k)
  apply-Keeps (attaches r item now) db k = attach-Keeps r item now db k

  run-Keeps : (ss : List Step) (db : ReviewDb) → Keeps n t hs db → Keeps n t hs (run ss db)
  unfolding run
  run-Keeps [] db k = k
  run-Keeps (s ∷ ss) db k = run-Keeps ss (apply s db) (apply-Keeps s db k)

-- Once a task is decided, its decision stands: through every run of submits, by whatever reviewer,
-- key or version, of new tasks and of attached items, the task keeps its status, version, revision
-- in force and reason, and its history is the same list of revisions.
pub decision_final :
    (ss : List Step) (db : ReviewDb) (n : String) (t : ReviewTaskRow)
    → find (is_task n) db.tasks ≡ some t
    → is_pending t.status ≡ false
    → Keeps n t (select (of_task n) db.revisions) (run ss db)
decision_final ss db n t f closed =
    run-Keeps n t (select (of_task n) db.revisions) closed ss db
      ((t, f, (refl, refl, refl, refl, refl)), refl)
