-- ===== src/Agent/Revised.antt =====
-- What a revision of the report by the agent loop (`_revise_report` of qc/agent_loop.py) achieves.
use servicecheck.Base.{
  ◌<◌, String, ◌≡◌, refl, subst, inl, inr, Bool, true, List, [], ◌∷◌, arith, Bool-cases, ok-inj,
  length, all, All, select, ok, >>=-eq-ok, ℤ,
}
use servicecheck.Quality.Models.{ClaimFactStatus, TranscriptTurn, Violation, is_in}
use servicecheck.Quality.Score.{calculate_score}
use servicecheck.Quality.Check.{turn_ids_of}
use servicecheck.Agent.Executor.{LoopContext, Tools, has_evidence, disposition_of, revise}

-- Evidence that cites turns, all of the transcript.
abbrev pub IsEvidenced : List TranscriptTurn → Violation → Type 0
IsEvidenced t v =
    (0 < length v.evidence_turn_ids)
    × All (λ (id : String). is_in id (turn_ids_of t) ≡ true) v.evidence_turn_ids

All-all :
    (p : String → Bool) (xs : List String) → all p xs ≡ true → All (λ (x : String). p x ≡ true) xs
All-all p [] h = tt
All-all p (x ∷ xs) h = (ground arith, All-all p xs (ground arith))

All-select :
    {A : Type 0} (P : A → Type 0) (p : A → Bool)
    → ((x : A) → p x ≡ true → P x)
    → (xs : List A) → All P (select p xs)
All-select P p f [] = tt
All-select P p f (x ∷ xs) = elim (Bool-cases (p x)) [
  | inl e ↦ rw e (f x e, All-select P p f xs)
  | inr e ↦ rw e (All-select P p f xs)
]

select-select : {A : Type 0} (p : A → Bool) (xs : List A) → select p (select p xs) ≡ select p xs
select-select p [] = refl
select-select p (x ∷ xs) = ground (arith, select-select p xs)

has_evidence-IsEvidenced :
    (t : List TranscriptTurn) (v : Violation)
    → has_evidence (turn_ids_of t) v ≡ true
    → IsEvidenced t v
has_evidence-IsEvidenced t v h =
    (ground arith, All-all (λ id. is_in id (turn_ids_of t)) v.evidence_turn_ids (ground arith))

-- A report that was revised.
pub record IsRevised (tools : Tools) (c c' : LoopContext) : Type 0 where
  pub evidenced : All (IsEvidenced c'.transcript) c'.report.violations
  pub scored :
      calculate_score c'.report.violations tools.rules c'.call_started_at c'.report.events
      ≡ ok c'.report.score
  pub unchecked : c'.report.business_fact ≡ ClaimFactStatus.not_checked
  pub same_call : (c'.transcript ≡ c.transcript) × (c'.report.events ≡ c.report.events)
  pub again : revise tools c' ≡ ok c'

abbrev revised : LoopContext → ℤ → LoopContext
revised c score =
    let kept = select (has_evidence (turn_ids_of c.transcript)) c.report.violations in
    record c {
      report = record c.report {
        violations = kept;
        score = score;
        business_fact = ClaimFactStatus.not_checked;
        disposition = disposition_of kept c.report;
      };
    }

same_disposition :
    (vs : List Violation) (c : LoopContext) (s : ℤ)
    → disposition_of vs (revised c s).report ≡ disposition_of vs c.report
same_disposition [] c s = refl
same_disposition (v ∷ vs) c s = refl

revised-IsRevised :
    (tools : Tools) (c : LoopContext) (s : ℤ)
    → calculate_score
        (select (has_evidence (turn_ids_of c.transcript)) c.report.violations)
        tools.rules
        c.call_started_at
        c.report.events
      ≡ ok s
    → IsRevised tools c (revised c s)
unfolding revise
revised-IsRevised tools c s h = record {
  evidenced =
      All-select (IsEvidenced c.transcript) (has_evidence (turn_ids_of c.transcript))
        (has_evidence-IsEvidenced c.transcript) c.report.violations;
  scored = h;
  unchecked = refl;
  same_call = (refl, refl);
  again =
      rw
        (
          select-select (has_evidence (turn_ids_of c.transcript)) c.report.violations,
          h,
          same_disposition (select (has_evidence (turn_ids_of c.transcript)) c.report.violations) c
              s,
        )
        refl;
}

-- After a revision that returns: every violation cites turns, all of the transcript; the score is the one
-- computed from the violations left; the business fact is unchecked; transcript and events are as before;
-- and revising again changes nothing.
pub revise-IsRevised :
    (tools : Tools) (c : LoopContext) {c' : LoopContext}
    → revise tools c ≡ ok c'
    → IsRevised tools c c'
unfolding revise
revise-IsRevised tools c h =
    let (s, scored, same_c) =
      >>=-eq-ok
        (calculate_score (select (has_evidence (turn_ids_of c.transcript)) c.report.violations)
          tools.rules c.call_started_at c.report.events)
        _ h in
    subst (IsRevised tools c) (ok-inj same_c) (revised-IsRevised tools c s scored)
