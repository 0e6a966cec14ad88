-- ===== src/Quality/Settled.antt =====
-- qc/quality_gate.py: the disposition, the audit and the business fact of a report that passes.
use servicecheck.Base.{◌≡◌, refl, ◌⊎◌, inl, inr, false, not, ◌&&◌, List, [], ◌∷◌, arith, any}
use servicecheck.Quality.Models.{
  Violation, QualityReport, not_checked, unverified, auto_pass, auto_violation,
  human_review_required, ReviewDisposition, ClaimFactStatus,
}
use servicecheck.Quality.Gate.{is_empty}
use servicecheck.Quality.Check.{
  disposition_issues, has_audit_errors, is_disposition, is_not_checked,
}
use servicecheck.Quality.Passing.{++-eq-[], when-eq-[]}

-- The disposition agrees with the violations, and nothing is left to a person.
pub record IsSettled (report : QualityReport) : Type 0 where
  pub verdict :
      ((report.violations ≡ []) × (report.disposition ≡ auto_pass))
      ⊎ ((is_empty report.violations ≡ false) × (report.disposition ≡ auto_violation))
  pub clear : any (λ e. e.ambiguous) report.events ≡ false
  pub audited : has_audit_errors report.audit_snapshot ≡ false
  pub in_scope : report.business_fact ≡ not_checked

verdict_of :
    (vs : List Violation) (d : ReviewDisposition)
    → is_disposition d human_review_required ≡ false
    → (not (is_empty vs) && is_disposition d auto_pass) ≡ false
    → (is_empty vs && is_disposition d auto_violation) ≡ false
    → ((vs ≡ []) × (d ≡ auto_pass)) ⊎ ((is_empty vs ≡ false) × (d ≡ auto_violation))
verdict_of [] auto_pass h p v = inl (refl, refl)
verdict_of [] auto_violation h p v = absurd (cc)
verdict_of [] human_review_required h p v = absurd (cc)
verdict_of (x ∷ xs) auto_pass h p v = absurd (cc)
verdict_of (x ∷ xs) auto_violation h p v = inr (refl, refl)
verdict_of (x ∷ xs) human_review_required h p v = absurd (cc)

not_checked_of : (s : ClaimFactStatus) → not (is_not_checked s) ≡ false → s ≡ not_checked
not_checked_of not_checked h = refl
not_checked_of unverified h = absurd (cc)

pub disposition-IsSettled :
    (report : QualityReport) → disposition_issues report ≡ [] → IsSettled report
unfolding disposition_issues
disposition-IsSettled report h =
    let a = ++-eq-[] _ _ h in
    let b = ++-eq-[] _ _ a.1 in
    let c = ++-eq-[] _ _ b.1 in
    let d = ++-eq-[] _ _ c.1 in
    let e = ++-eq-[] _ _ d.1 in
    let f = ++-eq-[] _ _ e.1 in
    let human = when-eq-[] _ _ _ a.0 in
    record {
      verdict =
          verdict_of report.violations report.disposition human (when-eq-[] _ _ _ b.0)
            (when-eq-[] _ _ _ c.0);
      clear = ground (arith, human, when-eq-[] _ _ _ d.0);
      audited = when-eq-[] _ _ _ e.0;
      in_scope = not_checked_of report.business_fact (when-eq-[] _ _ _ f.1);
    }
