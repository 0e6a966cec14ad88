-- ===== src/Batch/Worker/Finished.antt =====
-- One round of `reclaim_once` (qc/batch/worker.py) by a worker that is left alone.
use servicecheck.Base.{
  ℕ, ◌≡◌, refl, sym, ◌∙◌, true, List, [], ◌∷◌, ◌++◌, is_some, All, All-map_impl, Result, ok, err,
}
use servicecheck.Batch.Store.Stages.{FileView}
use servicecheck.Batch.Board.ItemStore.{ItemStore, Refines}
use servicecheck.Batch.Worker.{Execution, Surroundings, reclaim_message, reclaim_once}
use servicecheck.Batch.Worker.{World, BatchMessage, Step, continue}
use servicecheck.Batch.Worker.Safe.{Respects}
use mathlib.Core.List.{append_assoc, append-nil, tail-eq_of_cons-eq}
use servicecheck.Batch.Worker.Loops.{AreFinal, reclaim_once-Serves}
use servicecheck.Batch.Worker.Progress.{IsCalm}
use servicecheck.Batch.Worker.Live.{Acked, reclaimed-Acked}

append-cancel : (xs bs cs : List BatchMessage) → xs ++ bs ≡ xs ++ cs → bs ≡ cs
append-cancel [] bs cs h = h
append-cancel (x ∷ xs) bs cs h = append-cancel xs bs cs (tail-eq_of_cons-eq h)

module _ {D : Type 0} {store : ItemStore D} (r : Refines store) (env : Surroundings D)
    (x : FileView → Execution) (calm : IsCalm r env x) where
  -- The items of messages are there.
  abbrev pub AreThere : D → List BatchMessage → Type 0
  AreThere d = All (λ (m : BatchMessage). is_some (r.view d m.item_id) ≡ true)

  abbrev pub Acknowledged : List BatchMessage → World D → Result ℕ × World D → Type 0
  Acknowledged ms w p = (n : ℕ) × (p.0 ≡ ok n) × (p.1.acked ≡ w.acked ++ ms)

  then-Acknowledged :
      (m : BatchMessage) (ms : List BatchMessage) (w : World D) (next : ℕ → Step D ℕ)
      (p : Result ℕ × World D)
      → Acked r env x calm m w p
      → ((j : ℕ) → Acknowledged ms p.1 (next j p.1))
      → Acknowledged (m ∷ ms) w (continue next p)
  then-Acknowledged m ms w next (err z, w') q rest = absurd (let e = q.returned.1 in cc)
  then-Acknowledged m ms w next (ok j, w') q rest =
      let (n, e, a) = rest j in (n, e, a ∙ rw q.acked (append_assoc w.acked (m ∷ []) ms))

  pub reclaim_once-Acknowledged :
      (ms : List BatchMessage) (k : ℕ) (w : World D)
      → r.IsSound w.db
      → AreThere w.db ms
      → Acknowledged ms w (reclaim_once store env ms k w)
  unfolding reclaim_once
  reclaim_once-Acknowledged [] k w v h = (k, refl, sym (append-nil w.acked))
  reclaim_once-Acknowledged (m ∷ ms) k w v h =
      let q = reclaimed-Acked r env x calm m k w v h.0 in
      then-Acknowledged m ms w (reclaim_once store env ms) (reclaim_message store env m k w) q λ j.
        reclaim_once-Acknowledged ms j (reclaim_message store env m k w).1 q.is_sound
          (All-map_impl _ _ (λ y f. q.remains y.item_id f) ms h.1)

  calm-Respects : Respects r env
  calm-Respects = record {
    others_keep = λ k d v. rw (calm.alone k d) (v, λ m f. f);
    execute_keeps = λ k row d v. (calm.sound k row d v, λ m f. rw (calm.unmoved k row d v m) f);
  }

  -- Over a store that refines the board, a worker that is alone and whose executor returns final results
  -- that the store accepts: one round of `reclaim_once` over messages whose items are there returns a count,
  -- acknowledges all of them in their order, and leaves all their items final. The items may be RUNNING under
  -- a lost lease, and one item may have several messages.
  pub reclaim_once_finishes :
      (ms : List BatchMessage) (w : World D)
      → r.IsSound w.db
      → AreThere w.db ms
      → (n : ℕ) × ((reclaim_once store env ms 0 w).0 ≡ ok n)
        × ((reclaim_once store env ms 0 w).1.acked ≡ w.acked ++ ms)
        × AreFinal r (reclaim_once store env ms 0 w).1.db ms
  reclaim_once_finishes ms w v h =
      let (n, e, a) = reclaim_once-Acknowledged ms 0 w v h in
      let s = reclaim_once-Serves r env calm-Respects ms 0 w v in
      let same_messages = append-cancel w.acked s.news ms (sym s.acked ∙ a) in
      (n, e, a, rw same_messages at s.final)
