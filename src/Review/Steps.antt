-- ===== src/Review/Steps.antt =====
-- The writes of human review as data, runs of them, and the invariant along every run.
use servicecheck.Base.{
  ℕ, String, ◌≡◌, refl, ◌∙◌, inl, inr, Bool, true, false, Option, none, some, List, [], ◌∷◌, ◌++◌,
  arith, same, same→eq, same_comm, Bool-cases, any, All, All-map_impl, All-append, select, find,
  All-update, Unique-append, Unique-update,
}
use servicecheck.Review.Models.{ReviewTaskStatus}
use servicecheck.Review.Tables.{
  RouteReason, ReviewTaskRow, ReviewRevisionRow, ReviewDb, is_task, is_run, of_task,
}
use servicecheck.Review.Submit.{
  after_reply, Submission, submit, new_task, ensure_from, ensure_review_task, attach_batch_item,
}
use servicecheck.Review.Decisions.{Accounts, IsAccounted, same_task, same_run, HasTask, IsValid}
use servicecheck.Review.Valid.{submit-IsValid, All-HasTask}

-- A submit carries the tables that its first read saw; they may be of any earlier moment.
pub data Step : Type 0 where
  submits : Submission → String → ℕ → ReviewDb → Step
  ensures : String → String → List RouteReason → ℕ → Step
  attaches : String → ℕ → ℕ → Step

abbrev pub ensured : Option (String × ReviewDb) → ReviewDb → ReviewDb
ensured none db = db
ensured (some (t, db')) db = db'

unfoldable pub apply : Step → ReviewDb → ReviewDb
apply (submits s i now seen) db = after_reply (submit s i now seen db) db
apply (ensures t r reasons now) db = ensured (ensure_review_task t r reasons now db) db
apply (attaches r item now) db = attach_batch_item r item now db

unfoldable pub run : List Step → ReviewDb → ReviewDb
run [] db = db
run (s ∷ ss) db = run ss (apply s db)

no_history :
    (i : String) (ts : List ReviewTaskRow) (rs : List ReviewRevisionRow)
    → All (HasTask ts) rs
    → any (is_task i) ts ≡ false
    → select (of_task i) rs ≡ []
no_history i ts [] h e = refl
no_history i ts (r ∷ rs) h e = elim (Bool-cases (same r.task_id i)) [
  | inl k ↦ absurd (
      let n : r.task_id ≡ i = same→eq r.task_id i k in
      let held : any (is_task i) ts ≡ true = rw n at h.0 in cc)
  | inr k ↦ rw k (no_history i ts rs h.1 e)
]

any-append :
    (p : ReviewTaskRow → Bool) (ts : List ReviewTaskRow) (t : ReviewTaskRow)
    → any p ts ≡ true
    → any p (ts ++ t ∷ []) ≡ true
any-append p [] t h = absurd (cc)
any-append p (x ∷ ts) t h = ground (arith, any-append p ts t)

any_of_none :
    (p : ReviewTaskRow → Bool) (ts : List ReviewTaskRow) → find p ts ≡ none → any p ts ≡ false
any_of_none p [] h = refl
any_of_none p (t ∷ ts) h = ground (arith, any_of_none p ts)

flip_any :
    (i : String) (f : ReviewTaskRow → String) (ts : List ReviewTaskRow)
    → any (λ t. same i (f t)) ts ≡ any (λ t. same (f t) i) ts
flip_any i f [] = refl
flip_any i f (t ∷ ts) = rw (same_comm i (f t), flip_any i f ts) refl

ensure_from-IsValid :
    (t r : String) (reasons : List RouteReason) (now : ℕ) (db : ReviewDb)
    → IsValid db
    → (found : Option ReviewTaskRow) → find (is_run r) db.tasks ≡ found
    → IsValid (ensured (ensure_from t r reasons now db found) db)
ensure_from-IsValid t r reasons now db v (some x) f = v
ensure_from-IsValid t r reasons now db v none f = elim (Bool-cases (any (is_task t) db.tasks)) [
  | inl e ↦ rw e v
  | inr e ↦
      let row = new_task t r reasons now in
      rw e (record {
        accounted =
            All-append (IsAccounted db.revisions) db.tasks (row ∷ []) v.accounted
              (rw (no_history t db.tasks db.revisions v.owned e) (refl, refl, refl), tt);
        tasks_unique =
            Unique-append same_task (λ x y. same_comm x.review_task_id y.review_task_id) db.tasks
              row (flip_any t ReviewTaskRow.review_task_id db.tasks ∙ e) v.tasks_unique;
        runs_unique =
            Unique-append same_run (λ x y. same_comm x.run_id y.run_id) db.tasks row
              (flip_any r ReviewTaskRow.run_id db.tasks ∙ any_of_none (is_run r) db.tasks f)
              v.runs_unique;
        revisions_unique = v.revisions_unique;
        owned =
            All-map_impl (HasTask db.tasks) (HasTask (db.tasks ++ row ∷ []))
              (λ q h. any-append (is_task q.task_id) db.tasks row h) db.revisions v.owned;
      })
]

attached-IsAccounted :
    (p : ReviewTaskRow → Bool) (item now : ℕ) (rs : List ReviewRevisionRow) (x : ReviewTaskRow)
    → p x ≡ true
    → IsAccounted rs x
    → IsAccounted rs (record x { batch_item_id = some item; updated_at = now })
attached-IsAccounted p item now rs x h a =
    same_accounts x.status (select (of_task x.review_task_id) rs) a
  where
    same_accounts :
        (st : ReviewTaskStatus) (hs : List ReviewRevisionRow)
        → Accounts st x hs
        → Accounts st (record x { batch_item_id = some item; updated_at = now }) hs
    same_accounts ReviewTaskStatus.pending [] k = k
    same_accounts ReviewTaskStatus.pending (r ∷ rs) k = k
    same_accounts ReviewTaskStatus.resolved [] k = k
    same_accounts ReviewTaskStatus.resolved (r ∷ []) k = k
    same_accounts ReviewTaskStatus.resolved (r ∷ q ∷ rs) k = k
    same_accounts ReviewTaskStatus.unresolved [] k = k
    same_accounts ReviewTaskStatus.unresolved (r ∷ []) k = k
    same_accounts ReviewTaskStatus.unresolved (r ∷ q ∷ rs) k = k

attach-IsValid :
    (r : String) (item now : ℕ) (db : ReviewDb)
    → IsValid db
    → IsValid (attach_batch_item r item now db)
unfolding attach_batch_item
attach-IsValid r item now db v =
    let f : ReviewTaskRow → ReviewTaskRow =
      λ t. record t { batch_item_id = some item; updated_at = now } in
    record {
      accounted =
          All-update (IsAccounted db.revisions) (is_run r) f
            (attached-IsAccounted (is_run r) item now db.revisions) db.tasks v.accounted;
      tasks_unique =
          Unique-update same_task (is_run r) f (λ x y. refl) (λ x y. refl) db.tasks v.tasks_unique;
      runs_unique =
          Unique-update same_run (is_run r) f (λ x y. refl) (λ x y. refl) db.tasks v.runs_unique;
      revisions_unique = v.revisions_unique;
      owned = All-HasTask (is_run r) f (λ x. refl) db.tasks db.revisions v.owned;
    }

-- Whatever is submitted, ensured or attached, valid review tables stay valid: a PENDING task has
-- version 1, no revision and no revision in force; a RESOLVED task has version 2 and exactly one
-- revision, of a definite outcome, which is in force; an UNRESOLVED task has version 2, exactly one
-- revision, of outcome UNRESOLVED, none in force and a reason; and the keys are unique.
pub apply-IsValid : (s : Step) (db : ReviewDb) → IsValid db → IsValid (apply s db)
unfolding apply
apply-IsValid (submits s i now seen) db v = submit-IsValid s i now seen db v
apply-IsValid (ensures t r reasons now) db v =
    unfold ensure_review_task in
    (ensure_from-IsValid t r reasons now db v (find (is_run r) db.tasks) refl)
apply-IsValid (attaches r item now) db v = attach-IsValid r item now db v

pub run-IsValid : (ss : List Step) (db : ReviewDb) → IsValid db → IsValid (run ss db)
unfolding run
run-IsValid [] db v = v
run-IsValid (s ∷ ss) db v = run-IsValid ss (apply s db) (apply-IsValid s db v)
