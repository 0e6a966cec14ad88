-- ===== src/Batch/Worker/Commits.antt =====
-- The calls that a worker (qc/batch/worker.py) makes of its store, and the final result it commits.
use servicecheck.Base.{
  ℕ, String, ◌≡◌, refl, true, Option, none, some, arith, Result, ok, err, map_option,
}
use servicecheck.Batch.Models.{BatchFileStatus}
use servicecheck.Batch.Store.Files.{is_writable_final}
use servicecheck.Batch.Board as Spec
use servicecheck.Batch.Board.{Shows}
use servicecheck.Batch.Board.Final.{
  is_final_at, StaysFinal-set_at, not_final_at, claim-StaysFinal, StaysFinalIfOk, move-StaysFinal,
}
use servicecheck.Batch.Board.Rows.{Entry, Board, is_at, map_entry}
use servicecheck.Batch.Board.ItemStore.{ItemStore, Refines, Wrote, Leaves}
use servicecheck.Batch.Worker.{Execution, Surroundings, arrive, call, finalize_plain}
use servicecheck.Batch.Worker.{World, BatchMessage, Step, settle, continue}
use servicecheck.Batch.Worker.Safe.{Respects, Quiet, Quiet-trans, Good, settle-Quiet}

module _ {D : Type 0} {store : ItemStore D} (r : Refines store) where
  pub Shows-Good :
      {A : Type 0} (d : D) (o : Result (A × D)) (b : Result Board)
      → StaysFinalIfOk (r.view d) b
      → Shows r.IsSound r.view o b
      → Good r d o
  Shows-Good d (err e) b k h = tt
  Shows-Good d (ok (a, d')) (err e) k h = absurd h
  Shows-Good d (ok (a, d')) (ok c) k h = (h.0, λ m f. rw (h.1 m) (k m f))

  pub claim_file-Good :
      (n : ℕ) (e : BatchFileStatus) (now : ℕ) (d : D)
      → r.IsSound d
      → Good r d (store.claim_file n e now d)
  claim_file-Good n e now d v =
      let (d', eq, v', shown) = r.claims n e now d v in
      rw eq (v', λ m f. rw (shown m) (claim-StaysFinal n e (r.view d) m f))

  pub set_file_status-Good :
      (n : ℕ) (t : BatchFileStatus) (reason : Option String) (now : ℕ) (d : D)
      → r.IsSound d
      → Good r d (store.set_file_status n t reason now d)
  set_file_status-Good n t reason now d v =
      Shows-Good d (store.set_file_status n t reason now d) (Spec.move n t (r.view d))
        (move-StaysFinal n t (r.view d)) (r.moves n t reason now d v)

  -- The item of a final result that was written is final.
  abbrev pub EndsFinal : ℕ → Result (Unit {0} × D) → Type 0
  EndsFinal n (ok (_, d')) = is_final_at (r.view d' n) ≡ true
  EndsFinal n (err e) = Unit

  set_at-final :
      (n : ℕ) (t : BatchFileStatus) (o : Option Entry)
      → is_writable_final t ≡ true
      → is_at BatchFileStatus.running o ≡ true
      → is_final_at (map_option (map_entry t) o) ≡ true
  set_at-final n t none f h = absurd (cc)
  set_at-final n t (some e) f h = ground arith

  pub Wrote-Good :
      (n : ℕ) (t : BatchFileStatus) (d : D) (o : Result (Unit {0} × D))
      → Wrote r.IsSound r.view n t d o
      → Good r d o × EndsFinal n o
  Wrote-Good n t d (err e) h = (tt, tt)
  Wrote-Good n t d (ok (_, d')) (v, f, at, shown) = (
    (
      v,
      λ m k. rw (shown m) (
          StaysFinal-set_at n t (r.view d)
            (not_final_at BatchFileStatus.running (r.view d n) refl at) m k),
    ),
    rw (shown n) (ground (arith, set_at-final n t (r.view d n) f at)),
  )

  pub Leaves-Good : (d : D) (o : Result (Unit {0} × D)) → Leaves r.IsSound r.view d o → Good r d o
  Leaves-Good d (err e) h = tt
  Leaves-Good d (ok (_, d')) (v, shown) = (v, λ m k. rw (shown m) k)

module _ {D : Type 0} {store : ItemStore D} (r : Refines store) (env : Surroundings D)
    (ok_env : Respects r env) where
  pub arrive-Quiet : (w : World D) → r.IsSound w.db → Quiet r w (arrive store env w)
  arrive-Quiet w v = (ok_env.others_keep w.calls w.db v, refl)

  pub call-Quiet :
      {A : Type 0} (op : ℕ → D → Result (A × D))
      → ((now : ℕ) (d : D) → r.IsSound d → Good r d (op now d))
      → (w : World D) → r.IsSound w.db
      → Quiet r w (call store env op w).1
  call-Quiet op good w v =
      let (k, e) = arrive-Quiet w v in
      Quiet-trans r w (arrive store env w) (call store env op w).1 (k, e)
        (settle-Quiet r (arrive store env w) (op (env.clock w.calls) (arrive store env w).db) k.0
          (good (env.clock w.calls) (arrive store env w).db k.0))

  -- Nothing acknowledged, and where the call returned the item is final.
  abbrev pub Commits : ℕ → World D → Result (Unit {0}) × World D → Type 0
  Commits n w (ok _, w') = Quiet r w w' × (is_final_at (r.view w'.db n) ≡ true)
  Commits n w (err e, w') = Quiet r w w'

  settle-Commits :
      (n : ℕ) (w : World D) (o : Result (Unit {0} × D))
      → r.IsSound w.db
      → Good r w.db o × EndsFinal r n o
      → Commits n w (settle w o)
  settle-Commits n w (ok (_, d)) v h = ((h.0, refl), h.1)
  settle-Commits n w (err e) v h = ((v, λ m f. f), refl)

  pub Quiet-Commits :
      (n : ℕ) (a b : World D) (p : Result (Unit {0}) × World D)
      → Quiet r a b
      → Commits n b p
      → Commits n a p
  Quiet-Commits n a b (ok _, c) h k = (Quiet-trans r a b c h k.0, k.1)
  Quiet-Commits n a b (err e, c) h k = Quiet-trans r a b c h k

  pub continue-Commits :
      {A : Type 0} (n : ℕ) (w : World D) (next : A → Step D (Unit {0})) (p : Result A × World D)
      → Quiet r w p.1
      → ((a : A) → p.0 ≡ ok a → Commits n p.1 (next a p.1))
      → Commits n w (continue next p)
  continue-Commits n w next (err e, w') h k = h
  continue-Commits n w next (ok a, w') h k = Quiet-Commits n w w' (next a w') h (k a refl)

  -- A final result, and statements after it that keep the store.
  pub call-Commits :
      (n : ℕ) (op : ℕ → D → Result (Unit {0} × D))
      → ((now : ℕ) (d : D) → r.IsSound d → Good r d (op now d) × EndsFinal r n (op now d))
      → (w : World D) → r.IsSound w.db
      → Commits n w (call store env op w)
  call-Commits n op good w v =
      let q = arrive-Quiet w v in
      Quiet-Commits n w (arrive store env w) (call store env op w) q (
        settle-Commits n (arrive store env w) (op (env.clock w.calls) (arrive store env w).db) q.0.0
          (good (env.clock w.calls) (arrive store env w).db q.0.0))

  pub finalize_plain-Commits :
      (m : BatchMessage) (x : Execution) (w : World D)
      → r.IsSound w.db
      → Commits m.item_id w (finalize_plain store env m x w)
  finalize_plain-Commits m x w v =
      call-Commits m.item_id
        (store.finalize_file m.item_id x.status x.request_json x.result_json x.failed_reason)
        (λ now d s.
          Wrote-Good r m.item_id x.status d _
            (r.writes m.item_id x.status x.request_json x.result_json x.failed_reason now d s))
        w v

  Commits-Quiet :
      (n : ℕ) (w w' : World D) (q : Result (Unit {0}) × World D)
      → Quiet r w w'
      → is_final_at (r.view w'.db n) ≡ true
      → Quiet r w' q.1
      → Commits n w q
  Commits-Quiet n w w' (ok _, w'') h f k = (Quiet-trans r w w' w'' h k, k.0.1 n f)
  Commits-Quiet n w w' (err e, w'') h f k = Quiet-trans r w w' w'' h k

  pub continue-Quiet-Commits :
      (n : ℕ) (w : World D) (next : Step D (Unit {0})) (p : Result (Unit {0}) × World D)
      → ((w' : World D) → r.IsSound w'.db → Quiet r w' (next w').1)
      → Commits n w p
      → Commits n w (continue (λ _. next) p)
  continue-Quiet-Commits n w next (err e, w') quiet h = h
  continue-Quiet-Commits n w next (ok _, w') quiet h =
      Commits-Quiet n w w' (next w') h.0 h.1 (quiet w' h.0.0.0)
