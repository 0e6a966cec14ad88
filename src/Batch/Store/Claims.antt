-- ===== src/Batch/Store/Claims.antt =====
-- Claims and finalisation in `BatchStore`: one claim of a file wins, and its result is written once.
use servicecheck.Base.{
  ℕ, suc, ◌≡◌, refl, inl, inr, Bool, true, false, some, List, [], ◌∷◌, arith, ◌==◌, if◌then◌else◌,
  Bool-cases, find, update, count, update_id, ok, Ascends, count_below,
}
use servicecheck.Batch.Models.{BatchFileStatus, running, same_status}
use servicecheck.Batch.Store.Tables.{FileRow, Db}
use servicecheck.Batch.Store.Files.{has_id, has_status, is_claimable, set_running, claim}
use servicecheck.Batch.Store.Validity.{IsValid}

-- The file is there, in this status.
abbrev pub HasStatus : ℕ → BatchFileStatus → List FileRow → Type 0
HasStatus n s xs = (f : FileRow) × (find (has_id n) xs ≡ some f) × (f.status ≡ s)

id_of : (n : ℕ) (s : BatchFileStatus) (x : FileRow) → has_status n s x ≡ true → x.file_id ≡ n
id_of n s x h = ground arith

module _ (n : ℕ) where
  -- Other rows do not have the id, so the one that is found decides the row count.
  pub count_of_other :
      (s t : BatchFileStatus)
      → same_status t s ≡ false
      → (lo hi : ℕ) (xs : List FileRow) → Ascends FileRow.file_id lo hi xs
      → HasStatus n t xs
      → count (has_status n s) xs ≡ 0
  count_of_other s t d lo hi [] a h = refl
  count_of_other s t d lo hi (x ∷ xs) a (f, e, k) = elim (Bool-cases (x.file_id == n)) [
    | inl i ↦ ground (
      arith,
      count_below FileRow.file_id n (has_status n s) (id_of n s) (suc x.file_id) hi xs
          (ground arith) a.1,
    )
    | inr i ↦ ground (arith, count_of_other s t d (suc x.file_id) hi xs a.1 (f, ground arith, k))
  ]

  pub count_of_same :
      (s : BatchFileStatus) (lo hi : ℕ) (xs : List FileRow)
      → Ascends FileRow.file_id lo hi xs
      → HasStatus n s xs
      → count (has_status n s) xs ≡ 1
  count_of_same s lo hi [] a (f, e, k) = absurd (cc)
  count_of_same s lo hi (x ∷ xs) a (f, e, k) = elim (Bool-cases (x.file_id == n)) [
    | inl i ↦ ground (
      arith,
      count_below FileRow.file_id n (has_status n s) (id_of n s) (suc x.file_id) hi xs
          (ground arith) a.1,
    )
    | inr i ↦ ground (arith, count_of_same s (suc x.file_id) hi xs a.1 (f, ground arith, k))
  ]

  -- A change of the one row in status `s`: it is found, changed.
  pub find-update_one :
      (Q : FileRow → Type 0) (s : BatchFileStatus) (g : FileRow → FileRow)
      → ((x : FileRow) → ((g x).file_id ≡ x.file_id) × Q (g x))
      → (lo hi : ℕ) (xs : List FileRow) → Ascends FileRow.file_id lo hi xs
      → count (has_status n s) xs ≡ 1
      → (f : FileRow) × (find (has_id n) (update (has_status n s) g xs) ≡ some f) × Q f
  find-update_one Q s g keep lo hi [] a c = absurd (cc)
  find-update_one Q s g keep lo hi (x ∷ xs) a c = elim (Bool-cases (x.file_id == n)) [
    | inl i ↦ (
      g x,
      ground (
        arith,
        (keep x).0,
        count_below FileRow.file_id n (has_status n s) (id_of n s) (suc x.file_id) hi xs
            (ground arith) a.1,
      ),
      (keep x).1,
    )
    | inr i ↦
        let (f, e, k) = find-update_one Q s g keep (suc x.file_id) hi xs a.1 (ground arith) in
        (f, ground arith, k)
  ]

  -- Claims of any file leave a running file running.
  pub HasStatus-set_running :
      (p : FileRow → Bool) (xs : List FileRow)
      → HasStatus n running xs
      → HasStatus n running (update p set_running xs)
  HasStatus-set_running p [] h = h
  HasStatus-set_running p (x ∷ xs) (f, e, k) = elim (Bool-cases (x.file_id == n)) [
    | inl i ↦ ((if p x then set_running x else x), ground arith, ground arith)
    | inr i ↦
        let (g, e', k') = HasStatus-set_running p xs (f, ground arith, k) in (g, ground arith, k')
  ]

pub claim_running :
    (n : ℕ) (s : BatchFileStatus) (db : Db)
    → IsValid db
    → HasStatus n running db.files
    → claim n s db ≡ ok (false, db)
claim_running n s db v h = elim (Bool-cases (is_claimable s)) [
  | inl c ↦
      let none_left =
        count_of_other n s running (ground arith) 1 db.next_file db.files v.files_ascend h in
      rw (c, none_left, update_id (has_status n s) set_running db.files none_left) refl
  | inr c ↦ rw c refl
]
