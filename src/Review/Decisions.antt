-- ===== src/Review/Decisions.antt =====
-- The invariant of human review: a pending task has no decision, and a decided one exactly one.
use servicecheck.Base.{
  ℕ, String, ◌≡◌, refl, ◌∙◌, subst, inl, inr, Bool, true, false, none, some, List, [], ◌∷◌, ◌++◌,
  arith, if◌then◌else◌, same, same→eq, same_refl, same_comm, Bool-cases, is_some, any, All, select,
  find, update, find_fits, Unique,
}
use servicecheck.Review.Models.{ReviewTaskStatus, outcome_is_unresolved, is_pending}
use servicecheck.Review.Tables.{
  ReviewTaskRow, ReviewRevisionRow, ReviewDb, is_task, of_task, revision_clashes,
}
use servicecheck.Review.Submit.{Submission, new_revision, decide, is_open}

-- What a task and its revisions say of one another.
abbrev pub Accounts : ReviewTaskStatus → ReviewTaskRow → List ReviewRevisionRow → Type 0
Accounts ReviewTaskStatus.pending t [] =
    (t.version ≡ 1) × (t.effective_revision_id ≡ none) × (t.unresolved_reason ≡ none)
Accounts ReviewTaskStatus.resolved t (r ∷ []) =
    (t.version ≡ 2)
    × (t.effective_revision_id ≡ some r.revision_id)
    × (outcome_is_unresolved r.outcome ≡ false)
Accounts ReviewTaskStatus.unresolved t (r ∷ []) =
    (t.version ≡ 2)
    × (t.effective_revision_id ≡ none)
    × (is_some t.unresolved_reason ≡ true)
    × (outcome_is_unresolved r.outcome ≡ true)
Accounts _ t _ = ⊥

abbrev pub IsAccounted : List ReviewRevisionRow → ReviewTaskRow → Type 0
IsAccounted rs t = Accounts t.status t (select (of_task t.review_task_id) rs)

abbrev pub same_task : ReviewTaskRow → ReviewTaskRow → Bool
same_task x y = same x.review_task_id y.review_task_id

abbrev pub same_run : ReviewTaskRow → ReviewTaskRow → Bool
same_run x y = same x.run_id y.run_id

-- A revision belongs to a task that is there.
abbrev pub HasTask : List ReviewTaskRow → ReviewRevisionRow → Type 0
HasTask ts r = any (is_task r.task_id) ts ≡ true

pub record IsValid (db : ReviewDb) : Type 0 where
  pub accounted : All (IsAccounted db.revisions) db.tasks
  pub tasks_unique : Unique same_task db.tasks
  pub runs_unique : Unique same_run db.tasks
  pub revisions_unique : Unique revision_clashes db.revisions
  pub owned : All (HasTask db.tasks) db.revisions

-- A revision of another task is not in the history.
pub select-append_other :
    (t : String) (rs : List ReviewRevisionRow) (r : ReviewRevisionRow)
    → same r.task_id t ≡ false
    → select (of_task t) (rs ++ r ∷ []) ≡ select (of_task t) rs
select-append_other t [] r h = ground arith
select-append_other t (x ∷ rs) r h = ground (arith, select-append_other t rs r h)

pub select-append_one :
    (t : String) (rs : List ReviewRevisionRow) (r : ReviewRevisionRow)
    → same r.task_id t ≡ true
    → select (of_task t) rs ≡ []
    → select (of_task t) (rs ++ r ∷ []) ≡ r ∷ []
select-append_one t [] r h e = ground arith
select-append_one t (x ∷ rs) r h e = ground (arith, select-append_one t rs r h)

pending-nil :
    (st : ReviewTaskStatus) (t : ReviewTaskRow) (hs : List ReviewRevisionRow)
    → is_pending st ≡ true
    → Accounts st t hs
    → (hs ≡ []) × (t.version ≡ 1)
pending-nil ReviewTaskStatus.pending t [] p h = (refl, h.0)
pending-nil ReviewTaskStatus.pending t (r ∷ rs) p h = absurd h
pending-nil ReviewTaskStatus.resolved t hs p h = absurd (cc)
pending-nil ReviewTaskStatus.unresolved t hs p h = absurd (cc)

module _ (s : Submission) (revision_id : String) (now : ℕ) (rs : List ReviewRevisionRow) where
  -- A task apart from the decided one.
  other-IsAccounted :
      (r : ReviewRevisionRow) (x : ReviewTaskRow)
      → same r.task_id x.review_task_id ≡ false
      → same x.review_task_id s.review_task_id ≡ false
      → IsAccounted rs x
      → IsAccounted (rs ++ r ∷ []) (if is_open s x then decide s revision_id now x else x)
  other-IsAccounted r x a b h = rw (b, select-append_other x.review_task_id rs r a) h

  others-IsAccounted :
      (t : ReviewTaskRow) (xs : List ReviewTaskRow)
      → same t.review_task_id s.review_task_id ≡ true
      → any (same_task t) xs ≡ false
      → All (IsAccounted rs) xs
      → All
          (IsAccounted (rs ++ new_revision s revision_id now t ∷ []))
          (update (is_open s) (decide s revision_id now) xs)
  others-IsAccounted t [] e u h = tt
  others-IsAccounted t (x ∷ xs) e u h = (
    other-IsAccounted (new_revision s revision_id now t) x (ground arith)
        (rw (← same→eq t.review_task_id s.review_task_id e)
          (same_comm x.review_task_id t.review_task_id ∙ ground arith))
        h.0,
    others-IsAccounted t xs e (ground arith) h.1,
  )

  decided-IsAccounted :
      (t : ReviewTaskRow)
      → is_open s t ≡ true
      → IsAccounted rs t
      → IsAccounted (rs ++ new_revision s revision_id now t ∷ []) (decide s revision_id now t)
  decided-IsAccounted t o h =
      let (none_yet, first) =
        pending-nil t.status t (select (of_task t.review_task_id) rs) (ground arith) h in
      let one =
        select-append_one t.review_task_id rs (new_revision s revision_id now t)
          (same_refl t.review_task_id) none_yet in
      elim (Bool-cases (outcome_is_unresolved s.outcome)) [
        | inl e ↦ rw (e, one) (omega (arith, first), refl, refl, e)
        | inr e ↦ rw (e, one) (omega (arith, first), refl, e)
      ]

  head-IsAccounted :
      (t : ReviewTaskRow) (xs : List ReviewTaskRow)
      → is_open s t ≡ true
      → any (same_task t) xs ≡ false
      → IsAccounted rs t
      → All (IsAccounted rs) xs
      → All
          (IsAccounted (rs ++ new_revision s revision_id now t ∷ []))
          (update (is_open s) (decide s revision_id now) (t ∷ xs))
  head-IsAccounted t xs o u h hs =
      rw o (decided-IsAccounted t o h, others-IsAccounted t xs (ground arith) u hs)

  -- The tasks after a decision.
  pub All-IsAccounted :
      (t : ReviewTaskRow) (xs : List ReviewTaskRow)
      → find (is_task s.review_task_id) xs ≡ some t
      → is_open s t ≡ true
      → Unique same_task xs
      → All (IsAccounted rs) xs
      → All
          (IsAccounted (rs ++ new_revision s revision_id now t ∷ []))
          (update (is_open s) (decide s revision_id now) xs)
  All-IsAccounted t [] f o u h = tt
  All-IsAccounted t (x ∷ xs) f o u h = elim (Bool-cases (same x.review_task_id s.review_task_id)) [
    | inl e ↦
        let it : x ≡ t = ground arith in
        subst
          (λ y.
            All (IsAccounted (rs ++ new_revision s revision_id now y ∷ []))
              (update (is_open s) (decide s revision_id now) (x ∷ xs)))
          it (head-IsAccounted x xs (rw it o) u.0 h.0 h.1)
    | inr e ↦
        let f' : find (is_task s.review_task_id) xs ≡ some t = ground arith in
        let named : t.review_task_id ≡ s.review_task_id =
          same→eq t.review_task_id s.review_task_id
            (find_fits (is_task s.review_task_id) xs t f') in
        (
          other-IsAccounted (new_revision s revision_id now t) x
              (rw named (same_comm s.review_task_id x.review_task_id ∙ e)) e h.0,
          All-IsAccounted t xs f' o u.1 h.1,
        )
  ]
