-- ===== src/Review/Samples.antt =====
-- Concrete review tables, submits on them, and the theorems at these inputs.
use servicecheck.Base.{◌≡◌, refl, List, [], ◌∷◌, same, select}
use servicecheck.Review.Models.{HumanOutcome, ReviewTaskStatus}
use servicecheck.Review.Tables.{
  ReviewTaskRow, ReviewDb, review_state_conflict, of_task, task_detail,
}
use servicecheck.Review.Submit.{replied, raised, Submission, new_revision, decide, submit, new_task}
use servicecheck.Review.Models.{insufficient_evidence, violation_confirmed, configured_demo}
use servicecheck.Review.Decisions.{IsValid}
use servicecheck.Review.Steps.{Step, submits, ensures, attaches, apply, run, apply-IsValid}
use servicecheck.Review.Final.{Keeps, decision_final}
use servicecheck.Review.Replay.{submit_race, submit_again}

abbrev open_task : ReviewTaskRow
open_task = new_task "REVIEW-1" "RUN-1" [] 5

abbrev verdict : Submission
verdict = record {
  review_task_id = "REVIEW-1";
  expected_version = 1;
  outcome = HumanOutcome.confirmed_violation;
  reason_code = violation_confirmed;
  note = "";
  idempotency_key = "key-1";
  request_hash = "h1";
  reviewer_id = "configured-demo-reviewer";
  context_source = configured_demo;
}

abbrev unsure : Submission
unsure = record verdict {
  outcome = HumanOutcome.unresolved;
  reason_code = insufficient_evidence;
  idempotency_key = "key-2";
  request_hash = "h2";
}

abbrev open_db : ReviewDb
open_db = record { tasks = open_task ∷ []; revisions = [] }

abbrev closed_db : ReviewDb
closed_db = record {
  tasks = decide verdict "REV-1" 7 open_task ∷ [];
  revisions = new_revision verdict "REV-1" 7 open_task ∷ [];
}

open_db-IsValid : IsValid open_db
open_db-IsValid = record {
  accounted = ((refl, refl, refl), tt);
  tasks_unique = (refl, tt);
  runs_unique = (refl, tt);
  revisions_unique = tt;
  owned = tt;
}

closed_db-IsValid : IsValid closed_db
unfolding same
closed_db-IsValid = record {
  accounted = ((refl, refl, refl), tt);
  tasks_unique = (refl, tt);
  runs_unique = (refl, tt);
  revisions_unique = (refl, tt);
  owned = (refl, tt);
}

accepted :
    submit verdict "REV-1" 7 open_db open_db
    ≡ replied (task_detail closed_db (decide verdict "REV-1" 7 open_task)) closed_db
unfolding submit same
accepted = refl

-- A second decision is refused whatever version it expects.
refused :
    submit (record unsure { expected_version = 2 }) "REV-2" 8 closed_db closed_db
    ≡ raised (review_state_conflict ReviewTaskStatus.resolved)
unfolding submit same
refused = refl

apply-IsValid_example : IsValid (apply (submits verdict "REV-1" 7 open_db) open_db)
apply-IsValid_example = apply-IsValid (submits verdict "REV-1" 7 open_db) open_db open_db-IsValid

abbrev later_steps : List Step
later_steps =
    submits unsure "REV-2" 8 open_db ∷ ensures "REVIEW-2" "RUN-1" [] 9 ∷ attaches "RUN-1" 3 9 ∷ []

decision_final_example :
    Keeps "REVIEW-1"
      (decide verdict "REV-1" 7 open_task)
      (select (of_task "REVIEW-1") closed_db.revisions)
      (run later_steps closed_db)
decision_final_example =
    decision_final later_steps closed_db "REVIEW-1" (decide verdict "REV-1" 7 open_task)
      (unfold same in refl) refl

submit_race_example :
    submit unsure "REV-2" 8 open_db closed_db ≡ submit unsure "REV-2" 8 closed_db closed_db
submit_race_example =
    submit_race unsure "REV-2" 8 open_db closed_db closed_db.revisions closed_db-IsValid refl

submit_again_example :
    submit verdict "REV-9" 9 closed_db closed_db
    ≡ replied (task_detail closed_db (decide verdict "REV-1" 7 open_task)) closed_db
submit_again_example = submit_again verdict "REV-1" "REV-9" 7 9 open_db accepted
