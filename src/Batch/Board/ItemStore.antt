-- ===== src/Batch/Board/ItemStore.antt =====
-- The interface between a worker and its store: the operations that qc/batch/worker.py calls, and what
-- each promises of the board.
use servicecheck.Base.{
  ℕ, String, ◌≡◌, inl, inr, Bool, true, Option, none, some, Bool-cases, key_error, Result, ok, err,
}
use servicecheck.Batch.Models.{BatchFileStatus, failed_final, running}
use servicecheck.Batch.Store.Files.{is_writable_final}
use servicecheck.Batch.Store.Stages.{FileView}
use servicecheck.Batch.Board
use servicecheck.Batch.Board.{Shows}
use servicecheck.Batch.Board.Rows.{Entry, Board, is_at, set_at}

-- What a worker says of a file that failed for good.
pub record DeadLetter : Type 0 where
  pub message_id : Option String
  pub stage : String
  pub error_code : String
  pub attempts : ℕ
  pub last_error : String
  pub reason : String

-- A row read is that of the board; a missing one raises KeyError.
abbrev pub Reads : Result FileView → Option Entry → Type 0
Reads (ok f) (some e) = (f.row.status ≡ e.status)
Reads (err x) none = x ≡ key_error
Reads _ _ = ⊥

-- The operations of a store, at an instant each. A store may lack those of dead letters.
pub record ItemStore (D : Type 0) : Type 1 where
  pub get_file : ℕ → D → Result FileView
  pub claim_file : ℕ → BatchFileStatus → ℕ → D → Result (Bool × D)
  pub set_file_status : ℕ → BatchFileStatus → Option String → ℕ → D → Result (Unit {0} × D)
  pub finalize_file :
      ℕ → BatchFileStatus → String → String → Option String → ℕ → D → Result (Unit {0} × D)
  pub finalize_file_with_dead_letter :
      Option (ℕ → String → String → Option String → DeadLetter → ℕ → D → Result (Unit {0} × D))
  pub record_dead_letter : Option (String → ℕ → DeadLetter → ℕ → D → Result (Unit {0} × D))

-- Of an operation that a store may lack.
abbrev pub IfAny {ℓ κ} : {A : Type ℓ} → (A → Type κ) → Option A → Type κ
IfAny P none = Unit
IfAny P (some a) = P a

module _ {D : Type 0} (IsSound : D → Type 0) (view : D → Board) where
  -- The outcome of a final result that was written: the entry was RUNNING and now is final.
  abbrev pub Wrote : ℕ → BatchFileStatus → D → Result (Unit {0} × D) → Type 0
  Wrote n t d (err e) = Unit
  Wrote n t d (ok (_, d')) =
      IsSound d'
      × (is_writable_final t ≡ true)
      × (is_at running (view d n) ≡ true)
      × ((m : ℕ) → view d' m ≡ set_at n t (view d) m)

  -- The outcome of an operation that leaves the board alone.
  abbrev pub Leaves : D → Result (Unit {0} × D) → Type 0
  Leaves d (err e) = Unit
  Leaves d (ok (_, d')) = IsSound d' × ((m : ℕ) → view d' m ≡ view d m)

-- The store refines the board: claims and changes of status exactly, final results where they are written,
-- and always where the store accepts their texts.
pub record Refines {D : Type 0} (s : ItemStore D) : Type 1 where
  pub IsSound : D → Type 0
  pub IsAccepted : D → String → String → Type 0
  pub view : D → Board
  pub reads : (n : ℕ) (d : D) → IsSound d → Reads (s.get_file n d) (view d n)
  pub claims :
      (n : ℕ) (e : BatchFileStatus) (now : ℕ) (d : D)
      → IsSound d
      → (d' : D) × (s.claim_file n e now d ≡ ok ((Board.claim n e (view d)).0, d'))
        × IsSound d'
        × ((m : ℕ) → view d' m ≡ (Board.claim n e (view d)).1 m)
  pub moves :
      (n : ℕ) (t : BatchFileStatus) (reason : Option String) (now : ℕ) (d : D)
      → IsSound d
      → Shows IsSound view (s.set_file_status n t reason now d) (Board.move n t (view d))
  pub writes :
      (n : ℕ) (t : BatchFileStatus) (q r : String) (reason : Option String) (now : ℕ) (d : D)
      → IsSound d
      → Wrote IsSound view n t d (s.finalize_file n t q r reason now d)
  pub finishes :
      (n : ℕ) (t : BatchFileStatus) (q r : String) (reason : Option String) (now : ℕ) (d : D)
      → IsSound d
      → IsAccepted d q r
      → Shows IsSound view (s.finalize_file n t q r reason now d) (Board.finish n t (view d))
  pub writes_letter :
      IfAny
        (λ op.
          (n : ℕ) (q r : String) (reason : Option String) (l : DeadLetter) (now : ℕ) (d : D)
          → IsSound d
          → Wrote IsSound view n failed_final d (op n q r reason l now d))
        s.finalize_file_with_dead_letter
  pub finishes_letter :
      IfAny
        (λ op.
          (n : ℕ) (q r : String) (reason : Option String) (l : DeadLetter) (now : ℕ) (d : D)
          → IsSound d
          → IsAccepted d q r
          → Shows IsSound view (op n q r reason l now d) (Board.finish n failed_final (view d)))
        s.finalize_file_with_dead_letter
  pub letters :
      IfAny
        (λ op.
          (b : String) (n : ℕ) (l : DeadLetter) (now : ℕ) (d : D)
          → IsSound d
          → Leaves IsSound view d (op b n l now d))
        s.record_dead_letter

module _ {D : Type 0} (IsSound : D → Type 0) (view : D → Board) where
  -- A final result that succeeds and raises as on the board was written, if it succeeds.
  pub Shows-Wrote :
      (n : ℕ) (t : BatchFileStatus) (d : D) (o : Result (Unit {0} × D))
      → Shows IsSound view o (Board.finish n t (view d))
      → Wrote IsSound view n t d o
  Shows-Wrote n t d (err e) h = tt
  Shows-Wrote n t d (ok (_, d')) h = elim (Bool-cases (is_writable_final t)) [
    | inl f ↦ elim (Bool-cases (is_at running (view d n))) [
      | inl r ↦ let k = rw (f, r) at h in (k.0, f, r, k.1)
      | inr r ↦ absurd (rw (f, r) at h)
    ]
    | inr f ↦ absurd (rw f at h)
  ]
