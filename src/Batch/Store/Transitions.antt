-- ===== src/Batch/Store/Transitions.antt =====
-- What the operations of `BatchStore` do to the rows of `batch_files`: rows are never removed,
-- keep their identity, and change their status only along `VALID_FILE_TRANSITIONS`.
use servicecheck.Base.{
  ℕ, String, ◌≡◌, refl, ◌⊎◌, inl, inr, Bool, true, Option, some, List, [], ◌∷◌, ◌++◌, arith, ◌==◌,
  Bool-cases, All, find, update, after,
}
use servicecheck.Batch.Models.{BatchFileStatus, pending, running, valid_transition, FileRecord}
use servicecheck.Batch.Store.Tables.{FileRow, Db}
use servicecheck.Batch.Store.Files.{
  StatusArg, add_file, claim_file, set_file_status, finalize_file, mark_interrupted_running, has_id,
  has_status, is_claimable, set_running, is_writable_final, set_status, set_result, is_running_in,
  set_interrupted, new_file,
}
use servicecheck.Batch.Store.Rules.{
  claim_file-rule, set_file_status-rule, finalize_file-rule, add_file-rule,
}

-- The columns that no operation writes.
abbrev pub SameFile : FileRow → FileRow → Type 0
SameFile x y =
    (y.file_id ≡ x.file_id)
    × (y.batch_id ≡ x.batch_id)
    × (y.source_uri ≡ x.source_uri)
    × (y.idempotency_key ≡ x.idempotency_key)

-- A row stays as it is, or its status moves along a transition.
abbrev pub Moves : FileRow → FileRow → Type 0
Moves x y = SameFile x y × ((y ≡ x) ⊎ (valid_transition x.status y.status ≡ true))

-- The rows after follow the rows before, one by one; any further row is new and PENDING.
abbrev pub Follows : List FileRow → List FileRow → Type 0
Follows [] ys = All (λ y. y.status ≡ pending) ys
Follows (x ∷ xs) [] = ⊥
Follows (x ∷ xs) (y ∷ ys) = Moves x y × Follows xs ys

Moves-refl : (x : FileRow) → Moves x x
Moves-refl x = ((refl, refl, refl, refl), inl refl)

pub Follows-refl : (xs : List FileRow) → Follows xs xs
Follows-refl [] = tt
Follows-refl (x ∷ xs) = (Moves-refl x, Follows-refl xs)

Follows-append : (xs : List FileRow) (y : FileRow) → y.status ≡ pending → Follows xs (xs ++ y ∷ [])
Follows-append [] y e = (e, tt)
Follows-append (x ∷ xs) y e = (Moves-refl x, Follows-append xs y e)

pub Follows-update :
    (p : FileRow → Bool) (f : FileRow → FileRow)
    → ((x : FileRow) → p x ≡ true → Moves x (f x))
    → (xs : List FileRow) → Follows xs (update p f xs)
Follows-update p f moves [] = tt
Follows-update p f moves (x ∷ xs) = elim (Bool-cases (p x)) [
  | inl e ↦ rw e (moves x e, Follows-update p f moves xs)
  | inr e ↦ rw e (Moves-refl x, Follows-update p f moves xs)
]

-- A row that is found before is found after, moved.
pub find-Follows :
    (n : ℕ) (xs ys : List FileRow) (f : FileRow)
    → Follows xs ys
    → find (has_id n) xs ≡ some f
    → (g : FileRow) × (find (has_id n) ys ≡ some g) × Moves f g
find-Follows n [] ys f h e = absurd (cc)
find-Follows n (x ∷ xs) [] f h e = absurd h
find-Follows n (x ∷ xs) (y ∷ ys) f h e = elim (Bool-cases (x.file_id == n)) [
  | inl t ↦ (y, ground arith, ground arith)
  | inr t ↦
      let (g, found, moved) = find-Follows n xs ys f h.1 (ground arith) in (g, ground arith, moved)
]

claim-Moves :
    (n : ℕ) (s : BatchFileStatus)
    → is_claimable s ≡ true
    → (x : FileRow) → has_status n s x ≡ true
    → Moves x (set_running x)
claim-Moves n s c x h = ground arith

set-Moves :
    (n : ℕ) (s t : BatchFileStatus) (r : Option String)
    → valid_transition s t ≡ true
    → (x : FileRow) → has_status n s x ≡ true
    → Moves x (set_status t r x)
set-Moves n s t r v x h = ground arith

finalize-Moves :
    (n : ℕ) (t : BatchFileStatus) (q r : String) (w : Option String)
    → is_writable_final t ≡ true
    → (x : FileRow) → has_status n running x ≡ true
    → Moves x (set_result t q r w x)
finalize-Moves n t q r w v x h = ground arith

interrupt-Moves :
    (b : String) (x : FileRow) → is_running_in b x ≡ true → Moves x (set_interrupted x)
interrupt-Moves b x h = ground arith

-- The files after follow those before.
abbrev pub FilesFollow : Db → Db → Type 0
FilesFollow db db' = Follows db.files db'.files

module _ (db : Db) where
  pub claim_file-Follows : (n : ℕ) (a : StatusArg) → FilesFollow db (after (claim_file n a db) db)
  claim_file-Follows n a =
      claim_file-rule (FilesFollow db) db (Follows-refl db.files) n a
        λ s c. Follows-update (has_status n s) set_running (claim-Moves n s c) db.files

  pub set_file_status-Follows :
      (n : ℕ) (a : StatusArg) (r : Option String)
      → FilesFollow db (after (set_file_status n a r db) db)
  set_file_status-Follows n a r =
      set_file_status-rule (FilesFollow db) db (Follows-refl db.files) n a r
        λ s t v. Follows-update (has_status n s) (set_status t r) (set-Moves n s t r v) db.files

  pub finalize_file-Follows :
      (n : ℕ) (a : StatusArg) (q r : String) (w : Option String)
      → FilesFollow db (after (finalize_file n a q r w db) db)
  finalize_file-Follows n a q r w =
      finalize_file-rule (FilesFollow db) db (Follows-refl db.files) n a q r w λ t v.
        Follows-update (has_status n running) (set_result t q r w) (finalize-Moves n t q r w v)
          db.files

  pub add_file-Follows : (b : String) (r : FileRecord) → FilesFollow db (after (add_file b r db) db)
  add_file-Follows b r =
      add_file-rule (FilesFollow db) db (Follows-refl db.files) b r
        λ _. Follows-append db.files (new_file db.next_file b r) refl

  pub mark_interrupted_running-Follows :
      (b : String) → FilesFollow db (after (mark_interrupted_running b db) db)
  unfolding mark_interrupted_running
  mark_interrupted_running-Follows b =
      Follows-update (is_running_in b) set_interrupted (interrupt-Moves b) db.files
