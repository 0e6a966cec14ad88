-- ===== src/Batch/Worker/Progress.antt =====
-- A worker (qc/batch/worker.py) that is left alone, with an executor that returns, finishes what it reclaims.
use servicecheck.Base.{
  ℕ, ◌+◌, String, ◌≡◌, refl, ap, ◌∙◌, inl, inr, true, Option, none, some, arith, ◌==◌, Bool-cases,
  Option-cases, ok-inj, is_some, Result, ok, err,
}
use servicecheck.Batch.Models.{BatchFileStatus}
use servicecheck.Batch.Store.Files.{is_claimable, is_writable_final}
use servicecheck.Batch.Store.Stages.{FileView}
use servicecheck.Batch.Board as Spec
use servicecheck.Batch.Board.{Shows}
use servicecheck.Batch.Board.Rows.{Entry, Board, is_at, map_entry, set_at}
use servicecheck.Batch.Board.ItemStore.{DeadLetter, ItemStore, Refines, Reads, IfAny}
use servicecheck.Batch.Worker.{
  Execution, Surroundings, call, finalize_plain, finalize_dead, mark_interrupted,
}
use servicecheck.Batch.Worker.{World, BatchMessage, settle}

-- Some entry, in a status.
abbrev pub At : Board → ℕ → BatchFileStatus → Type 0
At b n s = (e : Entry) × (b n ≡ some e) × (e.status ≡ s)

-- The entries there stay there.
abbrev pub Remains : Board → Board → Type 0
Remains b c = (j : ℕ) → is_some (b j) ≡ true → is_some (c j) ≡ true

pub Remains-set_at : (n : ℕ) (t : BatchFileStatus) (b : Board) → Remains b (set_at n t b)
Remains-set_at n t b j h = elim (Bool-cases (j == n)) [
  | inl e ↦ elim (Option-cases (b j)) [
    | inl k ↦ absurd (ground arith)
    | inr (x, k) ↦ rw (e, k) refl
  ]
  | inr e ↦ rw e h
]

pub At-set_at : (n : ℕ) (s t : BatchFileStatus) (b : Board) → At b n s → At (set_at n t b) n t
At-set_at n s t b (e, found, is) = (map_entry t e, rw found (ground arith), refl)

is_at-At : (n : ℕ) (s : BatchFileStatus) (b : Board) → At b n s → is_at s (b n) ≡ true
is_at-At n s b (e, found, is) = rw (found, is) (ground arith)

module _ {D : Type 0} {store : ItemStore D} (r : Refines store) (env : Surroundings D) where
  -- No other process, and an executor that returns a final result that the store accepts, and changes no
  -- status. A store that writes FAILED_FINAL does so with the dead letter at once.
  pub record IsCalm (x : FileView → Execution) : Type 0 where
    pub alone : (k : ℕ) (d : D) → env.others k d ≡ d
    pub returns : (k : ℕ) (row : FileView) (d : D) → (env.execute k row d).0 ≡ ok (x row)
    pub sound : (k : ℕ) (row : FileView) (d : D) → r.IsSound d → r.IsSound (env.execute k row d).1
    pub unmoved :
        (k : ℕ) (row : FileView) (d : D)
        → r.IsSound d
        → (j : ℕ) → r.view (env.execute k row d).1 j ≡ r.view d j
    pub accepted :
        (k : ℕ) (row : FileView) (d : D)
        → r.IsSound d
        → r.IsAccepted (env.execute k row d).1 (x row).request_json (x row).result_json
    pub final : (row : FileView) → is_writable_final (x row).status ≡ true
    pub letters : is_some store.finalize_file_with_dead_letter ≡ true

  -- A statement that returned what it should, and left the messages and the entries there.
  pub record Does {A : Type 0} (a : A) (b : Board) (w : World D) (p : Result A × World D)
      : Type 0 where
    pub returned : p.0 ≡ ok a
    pub is_sound : r.IsSound p.1.db
    pub shown : (j : ℕ) → r.view p.1.db j ≡ b j
    pub unacked : p.1.acked ≡ w.acked

  pub read_found :
      (n : ℕ) (d : D) (s : BatchFileStatus)
      → r.IsSound d
      → At (r.view d) n s
      → (row : FileView) × (store.get_file n d ≡ ok row) × (row.row.status ≡ s)
  read_found n d s v (e, found, is) = found_in (store.get_file n d) (rw found at (r.reads n d v))
    where
      found_in :
          (o : Result FileView)
          → Reads o (some e)
          → (row : FileView) × (o ≡ ok row) × (row.row.status ≡ s)
      found_in (ok row) h = (row, refl, h ∙ is)
      found_in (err z) h = absurd h

  settle-Does :
      {A : Type 0} (w : World D) (a : A) (d : D) (b : Board) (o : Result (A × D))
      → o ≡ ok (a, d)
      → r.IsSound d
      → ((j : ℕ) → r.view d j ≡ b j)
      → Does a b w (settle w o)
  settle-Does w a d b o e v h =
      rw e (record { returned = refl; is_sound = v; shown = h; unacked = refl })

  Shows-Does :
      (w : World D) (c : Board) (o : Result (Unit {0} × D)) (b : Result Board)
      → b ≡ ok c
      → Shows r.IsSound r.view o b
      → Does tt c w (settle w o)
  Shows-Does w c (ok (_, d)) (ok c') e h = record {
    returned = refl;
    is_sound = h.0;
    shown = λ j. h.1 j ∙ ap {B = Option Entry} (λ f. f j) (ok-inj e);
    unacked = refl;
  }
  Shows-Does w c (ok (_, d)) (err z) e h = absurd h
  Shows-Does w c (err z) (ok c') e h = absurd h
  Shows-Does w c (err z) (err z') e h = absurd (cc)

  module _ (x : FileView → Execution) (calm : IsCalm x) where
    abbrev pub later : World D → World D
    later w = record w { calls = w.calls + 1 }

    call-Does :
        {A : Type 0} (op : ℕ → D → Result (A × D)) (a : A) (b : Board) (w : World D)
        → Does a b (later w) (settle (later w) (op (env.clock w.calls) w.db))
        → Does a b w (call store env op w)
    call-Does op a b w k = rw (calm.alone w.calls w.db) (record {
      returned = k.returned;
      is_sound = k.is_sound;
      shown = k.shown;
      unacked = k.unacked;
    })

    pub claim-Does :
        (n : ℕ) (s : BatchFileStatus) (w : World D)
        → r.IsSound w.db
        → is_claimable s ≡ true
        → At (r.view w.db) n s
        → Does true
            (set_at n BatchFileStatus.running (r.view w.db))
            w
            (call store env (store.claim_file n s) w)
    claim-Does n s w v c at = call-Does (store.claim_file n s) true _ w (
        let (d, eq, v', shown) = r.claims n s (env.clock w.calls) w.db v in
        let here = is_at-At n s (r.view w.db) at in
        (settle-Does (later w) true d (set_at n BatchFileStatus.running (r.view w.db)) _
          (rw (c, here) at eq) v' (λ j. rw (c, here) at (shown j))))

    pub mark-Does :
        (m : BatchMessage) (reason : String) (w : World D)
        → r.IsSound w.db
        → At (r.view w.db) m.item_id BatchFileStatus.running
        → Does tt
            (set_at m.item_id BatchFileStatus.interrupted (r.view w.db))
            w
            (mark_interrupted store env m reason w)
    mark-Does m reason w v (e, found, is) =
        call-Does (store.set_file_status m.item_id BatchFileStatus.interrupted (some reason)) tt _ w
          (Shows-Does (later w) (set_at m.item_id BatchFileStatus.interrupted (r.view w.db)) _
            (Spec.move m.item_id BatchFileStatus.interrupted (r.view w.db)) (rw (found, is) refl)
            (r.moves m.item_id BatchFileStatus.interrupted (some reason) (env.clock w.calls) w.db
              v))

    finish-ok :
        (n : ℕ) (t : BatchFileStatus) (b : Board)
        → is_writable_final t ≡ true
        → At b n BatchFileStatus.running
        → Spec.finish n t b ≡ ok (set_at n t b)
    finish-ok n t b f at = rw (f, is_at-At n BatchFileStatus.running b at) refl

    pub plain-Does :
        (m : BatchMessage) (z : Execution) (w : World D)
        → r.IsSound w.db
        → r.IsAccepted w.db z.request_json z.result_json
        → is_writable_final z.status ≡ true
        → At (r.view w.db) m.item_id BatchFileStatus.running
        → Does tt (set_at m.item_id z.status (r.view w.db)) w (finalize_plain store env m z w)
    plain-Does m z w v acc f at =
        call-Does
          (store.finalize_file m.item_id z.status z.request_json z.result_json z.failed_reason) tt _
          w
          (Shows-Does (later w) (set_at m.item_id z.status (r.view w.db)) _
            (Spec.finish m.item_id z.status (r.view w.db))
            (finish-ok m.item_id z.status (r.view w.db) f at)
            (r.finishes m.item_id z.status z.request_json z.result_json z.failed_reason
              (env.clock w.calls) w.db v acc))

    pub letter-Does :
        (op : Option
          (ℕ → String → String → Option String → DeadLetter → ℕ → D → Result (Unit {0} × D)))
        → is_some op ≡ true
        → IfAny
            (λ f.
              (n : ℕ) (q z : String) (reason : Option String) (l : DeadLetter) (now : ℕ) (d : D)
              → r.IsSound d
              → r.IsAccepted d q z
              → Shows r.IsSound r.view
                  (f n q z reason l now d)
                  (Spec.finish n BatchFileStatus.failed_final (r.view d)))
            op
        → (m : BatchMessage) (z : Execution) (l : DeadLetter) (w : World D) → r.IsSound w.db
        → r.IsAccepted w.db z.request_json z.result_json
        → At (r.view w.db) m.item_id BatchFileStatus.running
        → Does tt
            (set_at m.item_id BatchFileStatus.failed_final (r.view w.db))
            w
            (finalize_dead store env op m z l w)
    letter-Does none h law m z l w v acc at = absurd (cc)
    letter-Does (some op) h law m z l w v acc at =
        call-Does (op m.item_id z.request_json z.result_json z.failed_reason l) tt _ w (
          Shows-Does (later w) (set_at m.item_id BatchFileStatus.failed_final (r.view w.db)) _
            (Spec.finish m.item_id BatchFileStatus.failed_final (r.view w.db))
            (finish-ok m.item_id BatchFileStatus.failed_final (r.view w.db) refl at)
            (law m.item_id z.request_json z.result_json z.failed_reason l (env.clock w.calls) w.db v
              acc))
