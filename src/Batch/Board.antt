-- ===== src/Batch/Board.antt =====
-- What a store of batch files promises of their statuses, apart from its tables: a board of entries
-- by id, and the operations on it. The stores of qc/batch/store.py and qc/batch/postgres_store.py
-- refine it, and qc/batch/worker.py is a client of it.
pub mod Rows
pub mod ItemStore
pub mod Final
use servicecheck.Base.{
  ℕ, zero, suc, ◌+◌, ◌-◌, ◌*◌, ◌/◌, ◌%◌, ◌^◌, ◌≤◌, ◌<◌, min, max, String, ◌≡◌, refl, sym, ap, ◌∙◌,
  subst, ◌≢◌, ◌↔◌, ◌⊎◌, inl, inr, Bool, true, false, not, ◌&&◌, ◌||◌, Option, none, some, List, [],
  ◌∷◌, ◌++◌, map, arith, ltb, leb, ◌==◌, if◌then◌else◌, same, same→eq, same_refl, same_of_eq,
  truthy, same_comm, Bool-cases, Option-cases, taken, ok-inj, is_some, length, take, drop, any, all,
  All, length-append, All-map_impl, All-append, select, find, or_else, find_last, update, count,
  count-eq-length-select, count-append, update_id, All-update, find-append_none,
  find_last-append_one, find_last-append_skip, find_fits, Failure, key_error, value_error,
  state_conflict, integrity_error, type_error, capacity_error, idempotency_conflict, Result, ok,
  err, ◌>>=◌, after, Result-cases, >>=-eq-ok, ℤ, pos, negsuc, pos_part, neg_part, sub_ℕ, ◌+ℤ◌,
  same_int, Ascends, Ascends-append, Ascends-update, count_below, count_one, Unique, Unique-append,
  Unique-update, map_option, find_last-update, find_last_fits, find_last_unique, count_of_id,
  count_of_id_none, find-update, find-append_some,
}
use servicecheck.Batch.Models.{BatchFileStatus, running, interrupted, same_status, valid_transition}
use servicecheck.Batch.Store.Files.{is_claimable, is_final, is_writable_final}
use servicecheck.Batch.Board.Rows.{Entry, Board, is_at, map_entry, set_at}

-- A claim: exactly when the entry waits in the expected status.
abbrev pub claim : ℕ → BatchFileStatus → Board → Bool × Board
claim n s b = if is_claimable s && is_at s (b n) then (true, set_at n running b) else (false, b)

abbrev pub move_entry : ℕ → BatchFileStatus → Board → Option Entry → Result Board
move_entry n t b none = err key_error
move_entry n t b (some e) =
    if valid_transition e.status t then ok (set_at n t b) else err state_conflict

-- A change of status along the transitions, to a status that is not final.
abbrev pub move : ℕ → BatchFileStatus → Board → Result Board
move n t b = if is_final t then err state_conflict else move_entry n t b (b n)

-- The final status, written over RUNNING.
abbrev pub finish : ℕ → BatchFileStatus → Board → Result Board
finish n t b =
    if is_writable_final t
    then if is_at running (b n) then ok (set_at n t b) else err state_conflict
    else err value_error

abbrev pub interrupt_if : String → Entry → Entry
interrupt_if batch e =
    if same e.batch batch && same_status e.status running
    then record e { status = interrupted }
    else e

-- Every RUNNING entry of a batch is INTERRUPTED.
abbrev pub interrupt : String → Board → Board
interrupt batch b m = map_option (interrupt_if batch) (b m)

-- An outcome of a store, seen on the board: the same error, or sound tables that show the same board.
abbrev pub Shows {ℓ} :
    {D : Type 0} {A : Type ℓ} (IsSound : D → Type 0) (view : D → Board)
    → Result (A × D)
    → Result Board
    → Type 0
Shows IsSound view (ok (_, d)) (ok b) = IsSound d × ((m : ℕ) → view d m ≡ b m)
Shows IsSound view (err e) (err f) = e ≡ f
Shows IsSound view _ _ = ⊥

module _ {ℓ κ} {D : Type 0} {A : Type ℓ} {B : Type κ} (IsSound : D → Type 0)
    (view : D → Board) where
  -- Statements after an operation that change neither the soundness nor the board.
  pub Shows-then :
      (next : A × D → Result (B × D)) (r : Result (A × D)) (b : Result Board)
      → ((a : A) (d : D)
          → IsSound d
          → (x : B) × (d' : D) × (next (a, d) ≡ ok (x, d'))
            × IsSound d'
            × ((m : ℕ) → view d' m ≡ view d m))
      → Shows IsSound view r b
      → Shows IsSound view (r >>= next) b
  Shows-then next (err e) b keep h = h
  Shows-then next (ok (a, d)) (err e) keep h = absurd h
  Shows-then next (ok (a, d)) (ok b) keep h =
      let (x, d', e, v, same) = keep a d h.0 in rw e (v, λ m. same m ∙ h.1 m)
