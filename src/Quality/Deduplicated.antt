-- ===== src/Quality/Deduplicated.antt =====
-- qc/rules.py, `deduplicate_violations`: one violation for each key.
use servicecheck.Base.{
  ℕ, ◌+◌, String, ◌≡◌, refl, sym, ap, ◌∙◌, subst, inl, inr, Bool, false, ◌&&◌, ◌||◌, Option, none,
  some, List, [], ◌∷◌, map, arith, same, same_comm, Bool-cases, any, all, Unique,
}
use servicecheck.Quality.Models.{is_in, QualityEvent, Violation}
use servicecheck.Quality.Score.{
  same_set, ViolationKey, by_event, legacy, violation_key, key_from, event_ref, same_key,
  extend_documents, merge, merge_all, comes_before, insert_sorted, sort, deduplicate_violations,
}

abbrev pub same_keys : Violation → Violation → Bool
same_keys v w = same_key (violation_key v) (violation_key w)

abbrev same_entry : Violation × ℕ → Violation × ℕ → Bool
same_entry x y = same_keys x.0 y.0

&&-comm : (a b : Bool) → (a && b) ≡ (b && a)
&&-comm a b = ground arith

same_set_comm : (xs ys : List String) → same_set xs ys ≡ same_set ys xs
same_set_comm xs ys = &&-comm (all (λ x. is_in x ys) xs) (all (λ y. is_in y xs) ys)

same_key_comm : (k l : ViolationKey) → same_key k l ≡ same_key l k
same_key_comm (by_event e r) (by_event f s) = rw (same_comm e f, same_comm r s) refl
same_key_comm (legacy r xs) (legacy s ys) =
    ap (λ b. b && same_set xs ys) (same_comm r s) ∙ ap (λ b. same s r && b) (same_set_comm xs ys)
same_key_comm (by_event e r) (legacy s ys) = refl
same_key_comm (legacy r xs) (by_event f s) = refl

key_kept : (c v : Violation) (o : Option String) → key_from (extend_documents c v) o ≡ key_from c o
key_kept c v none = refl
key_kept c v (some e) = refl

violation_key-extend_documents :
    (c v : Violation) → violation_key (extend_documents c v) ≡ violation_key c
violation_key-extend_documents c v = key_kept c v (event_ref c.event_id)

any-merge :
    (x : Violation × ℕ) (p : ℕ) (v : Violation) (xs : List (Violation × ℕ))
    → same_keys x.0 v ≡ false
    → any (same_entry x) xs ≡ false
    → any (same_entry x) (merge p v xs) ≡ false
unfolding merge
any-merge x p v [] e h = ground (arith, e)
any-merge x p v ((c, q) ∷ rest) e h = elim (Bool-cases (same_keys c v)) [
  | inl f ↦ rw (f, violation_key-extend_documents c v) h
  | inr f ↦ rw f (ground (arith, any-merge x p v rest e, h))
]

merge-Unique :
    (p : ℕ) (v : Violation) (xs : List (Violation × ℕ))
    → Unique same_entry xs
    → Unique same_entry (merge p v xs)
unfolding merge
merge-Unique p v [] u = (refl, tt)
merge-Unique p v ((c, q) ∷ rest) u = elim (Bool-cases (same_keys c v)) [
  | inl f ↦ rw f (
    subst (λ k. any (λ y. same_key k (violation_key y.0)) rest ≡ false)
        (sym (violation_key-extend_documents c v)) u.0,
    u.1,
  )
  | inr f ↦ rw f (any-merge (c, q) p v rest f u.0, merge-Unique p v rest u.1)
]

merge_all-Unique :
    (p : ℕ) (vs : List Violation) (xs : List (Violation × ℕ))
    → Unique same_entry xs
    → Unique same_entry (merge_all p vs xs)
unfolding merge_all
merge_all-Unique p [] xs u = u
merge_all-Unique p (v ∷ vs) xs u =
    merge_all-Unique (p + 1) vs (merge p v xs) (merge-Unique p v xs u)

any-insert_sorted :
    (events : List QualityEvent) (y x : Violation × ℕ) (xs : List (Violation × ℕ))
    → any (same_entry y) (insert_sorted events x xs) ≡ (same_entry y x || any (same_entry y) xs)
unfolding insert_sorted
any-insert_sorted events y x [] = refl
any-insert_sorted events y x (z ∷ zs) = elim (Bool-cases (comes_before events x z)) [
  | inl e ↦ rw e refl
  | inr e ↦ rw (e, any-insert_sorted events y x zs) (ground arith)
]

insert_sorted-Unique :
    (events : List QualityEvent) (x : Violation × ℕ) (xs : List (Violation × ℕ))
    → any (same_entry x) xs ≡ false
    → Unique same_entry xs
    → Unique same_entry (insert_sorted events x xs)
unfolding insert_sorted
insert_sorted-Unique events x [] h u = (refl, tt)
insert_sorted-Unique events x (z ∷ zs) h u = elim (Bool-cases (comes_before events x z)) [
  | inl e ↦ rw e (h, u)
  | inr e ↦ rw e (
    any-insert_sorted events z x zs
        ∙ ground (arith, same_key_comm (violation_key z.0) (violation_key x.0), h, u.0),
    insert_sorted-Unique events x zs (ground (arith, h)) u.1,
  )
]

any-sort :
    (events : List QualityEvent) (y : Violation × ℕ) (xs : List (Violation × ℕ))
    → any (same_entry y) (sort events xs) ≡ any (same_entry y) xs
unfolding sort
any-sort events y [] = refl
any-sort events y (x ∷ xs) =
    any-insert_sorted events y x (sort events xs) ∙ rw (any-sort events y xs) refl

sort-Unique :
    (events : List QualityEvent) (xs : List (Violation × ℕ))
    → Unique same_entry xs
    → Unique same_entry (sort events xs)
unfolding sort
sort-Unique events [] u = tt
sort-Unique events (x ∷ xs) u =
    insert_sorted-Unique events x (sort events xs) (any-sort events x xs ∙ u.0)
      (sort-Unique events xs u.1)

any-entries :
    (v : Violation) (xs : List (Violation × ℕ))
    → any (same_keys v) (map (λ (w, p). w) xs) ≡ any (λ x. same_keys v x.0) xs
any-entries v [] = refl
any-entries v (x ∷ xs) = rw (any-entries v xs) refl

Unique-entries :
    (xs : List (Violation × ℕ)) → Unique same_entry xs → Unique same_keys (map (λ (w, p). w) xs)
Unique-entries [] u = tt
Unique-entries (x ∷ xs) u = (any-entries x.0 xs ∙ u.0, Unique-entries xs u.1)

-- After deduplication no two violations have the same key: the same event and rule, or, without an
-- event, the same rule and set of evidence turns. So a score counts no key twice.
pub deduplicate_violations-Unique :
    (violations : List Violation) (events : List QualityEvent)
    → Unique same_keys (deduplicate_violations violations events)
unfolding deduplicate_violations
deduplicate_violations-Unique violations events =
    Unique-entries _
      (sort-Unique events (merge_all 0 violations []) (merge_all-Unique 0 violations [] tt))
