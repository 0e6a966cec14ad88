-- ===== src/Batch/Worker/Acknowledges.antt =====
-- A worker (qc/batch/worker.py) acknowledges a message only when its item is final.
use servicecheck.Base.{
  ℕ, String, ◌≡◌, refl, ◌∙◌, inl, inr, Bool, true, false, not, ◌&&◌, Option, none, some, arith,
  if◌then◌else◌, Bool-cases, ok-inj, Result, ok, err,
}
use servicecheck.Batch.Models.{BatchFileStatus, same_status}
use servicecheck.Batch.Store.Files.{is_final, is_writable_final}
use servicecheck.Batch.Store.Stages.{FileView}
use servicecheck.Batch.Board.Final.{is_final_at}
use servicecheck.Batch.Board.Rows.{Entry}
use servicecheck.Batch.Board.ItemStore.{DeadLetter, ItemStore, Refines, Reads, Wrote, Leaves, IfAny}
use servicecheck.Batch.Worker.{
  Execution, Surroundings, dead_letter_for, arrive, call, read, finalize_plain, record_if_able,
  finalize_dead, commit, executed, mark_interrupted, concluded, work, ack_if, lost, claimed,
  is_waiting, dispatch, handle_message,
}
use servicecheck.Batch.Worker.{World, BatchMessage, continue, ◌then◌}
use servicecheck.Batch.Worker.Safe.{Respects, Quiet, Acks, Keeps-trans, continue-Acks}
use servicecheck.Batch.Worker.Commits.{
  claim_file-Good, set_file_status-Good, Wrote-Good, Leaves-Good, arrive-Quiet, call-Quiet, Commits,
  continue-Commits, call-Commits, finalize_plain-Commits, continue-Quiet-Commits,
}

module _ {D : Type 0} {store : ItemStore D} (r : Refines store) (env : Surroundings D)
    (ok_env : Respects r env) where
  record_if_able-Quiet :
      (op : Option (String → ℕ → DeadLetter → ℕ → D → Result (Unit {0} × D)))
      → IfAny
          (λ f.
            (b : String) (n : ℕ) (l : DeadLetter) (now : ℕ) (d : D)
            → r.IsSound d
            → Leaves r.IsSound r.view d (f b n l now d))
          op
      → (m : BatchMessage) (l : DeadLetter) (w : World D) → r.IsSound w.db
      → Quiet r w (record_if_able store env op m l w).1
  record_if_able-Quiet none law m l w v = ((v, λ n f. f), refl)
  record_if_able-Quiet (some op) law m l w v =
      call-Quiet r env ok_env (op m.batch_id m.item_id l)
        (λ now d s. Leaves-Good r d _ (law m.batch_id m.item_id l now d s)) w v

  finalize_dead-Commits :
      (op : Option
        (ℕ → String → String → Option String → DeadLetter → ℕ → D → Result (Unit {0} × D)))
      → IfAny
          (λ f.
            (n : ℕ) (q z : String) (reason : Option String) (l : DeadLetter) (now : ℕ) (d : D)
            → r.IsSound d
            → Wrote r.IsSound r.view n BatchFileStatus.failed_final d (f n q z reason l now d))
          op
      → (m : BatchMessage) (x : Execution) (l : DeadLetter) (w : World D) → r.IsSound w.db
      → Commits r env ok_env m.item_id w (finalize_dead store env op m x l w)
  finalize_dead-Commits (some op) law m x l w v =
      call-Commits r env ok_env m.item_id
        (op m.item_id x.request_json x.result_json x.failed_reason l)
        (λ now d s.
          Wrote-Good r m.item_id BatchFileStatus.failed_final d _
            (law m.item_id x.request_json x.result_json x.failed_reason l now d s))
        w v
  finalize_dead-Commits none law m x l w v =
      continue-Quiet-Commits r env ok_env m.item_id w
        (record_if_able store env store.record_dead_letter m l) (finalize_plain store env m x w)
        (λ w' s. record_if_able-Quiet store.record_dead_letter r.letters m l w' s)
        (finalize_plain-Commits r env ok_env m x w v)

  commit-Commits :
      (m : BatchMessage) (x : Execution) (w : World D)
      → r.IsSound w.db
      → Commits r env ok_env m.item_id w (commit store env m x w)
  commit-Commits m x w v = elim (Bool-cases (same_status x.status BatchFileStatus.failed_final)) [
    | inl e ↦ rw e (
        continue-Commits r env ok_env m.item_id w
          (λ latest.
            finalize_dead store env store.finalize_file_with_dead_letter m x
              (dead_letter_for m x latest))
          (read store env (store.get_file m.item_id) w) (arrive-Quiet r env ok_env w v)
          λ latest h.
            finalize_dead-Commits store.finalize_file_with_dead_letter r.writes_letter m x
              (dead_letter_for m x latest) (arrive store env w) (arrive-Quiet r env ok_env w v).0.0)
    | inr e ↦ rw e (finalize_plain-Commits r env ok_env m x w v)
  ]

  pub mark_interrupted-Quiet :
      (m : BatchMessage) (reason : String) (w : World D)
      → r.IsSound w.db
      → Quiet r w (mark_interrupted store env m reason w).1
  mark_interrupted-Quiet m reason w v =
      call-Quiet r env ok_env
        (store.set_file_status m.item_id BatchFileStatus.interrupted (some reason))
        (λ now d s.
          set_file_status-Good r m.item_id BatchFileStatus.interrupted (some reason) now d s)
        w v

  concluded-Acks :
      (m : BatchMessage) (w : World D) (p : Result (Unit {0}) × World D)
      → Commits r env ok_env m.item_id w p
      → Acks r m w (concluded store env m p)
  concluded-Acks m w (ok _, w') (h, f) = (h.0, inr (rw h.1 refl, f))
  concluded-Acks m w (err e, w') h =
      let k = mark_interrupted-Quiet m "WORKER_EXECUTION_INTERRUPTED" w' h.0.0 in
      (Keeps-trans r w.db w'.db _ h.0 k.0, inl (k.1 ∙ h.1, refl))

  executed-Quiet :
      (row : FileView) (w : World D) → r.IsSound w.db → Quiet r w (executed store env row w).1
  executed-Quiet row w v =
      let k = (arrive-Quiet r env ok_env w v).0 in
      (
        Keeps-trans r w.db (arrive store env w).db _ k
            (ok_env.execute_keeps w.calls row (arrive store env w).db k.0),
        refl,
      )

  work-Acks :
      (m : BatchMessage) (row : FileView) (w : World D)
      → r.IsSound w.db
      → Acks r m w (work store env m row w)
  work-Acks m row w v =
      let q = executed-Quiet row w v in
      concluded-Acks m w ((executed store env row then commit store env m) w) (
        continue-Commits r env ok_env m.item_id w (commit store env m) (executed store env row w) q
          λ x h. commit-Commits m x (executed store env row w).1 q.0.0)

  -- An acknowledgement on what was read of the item.
  ack_if-Acks :
      (m : BatchMessage) (b : Bool) (w : World D)
      → r.IsSound w.db
      → (b ≡ true → is_final_at (r.view w.db m.item_id) ≡ true)
      → Acks r m w (ack_if store env m b w)
  ack_if-Acks m true w v f = ((v, λ n k. k), inr (refl, f refl))
  ack_if-Acks m false w v f = ((v, λ n k. k), inl (refl, refl))

  -- What was read is the entry of the board.
  pub read_status :
      (o : Result FileView) (e : Option Entry) (row : FileView)
      → Reads o e
      → o ≡ ok row
      → is_final row.row.status ≡ true
      → is_final_at e ≡ true
  read_status (ok f) (some e) row h k t = ground (arith, h, ok-inj k)
  read_status (ok f) none row h k t = absurd h
  read_status (err x) e row h k t = absurd (cc)

  lost-Acks : (m : BatchMessage) (w : World D) → r.IsSound w.db → Acks r m w (lost store env m w)
  lost-Acks m w v =
      let q = arrive-Quiet r env ok_env w v in
      continue-Acks r m w (λ latest. ack_if store env m (is_writable_final latest.row.status))
        (read store env (store.get_file m.item_id) w) q
        λ row h. ack_if-Acks m (is_writable_final row.row.status) (arrive store env w) q.0.0 λ t.
          read_status (store.get_file m.item_id (arrive store env w).db)
            (r.view (arrive store env w).db m.item_id) row
            (r.reads m.item_id (arrive store env w).db q.0.0) h (ground arith)

  dispatch-Acks :
      (b : Bool) (m : BatchMessage) (row : FileView) (w : World D)
      → r.IsSound w.db
      → (is_final row.row.status ≡ true → is_final_at (r.view w.db m.item_id) ≡ true)
      → Acks r m w (dispatch store env b m row w)
  dispatch-Acks b m row w v f =
      elim (Bool-cases (same_status row.row.status BatchFileStatus.running && not b)) [
        | inl e ↦ rw e ((v, λ n k. k), inl (refl, refl))
        | inr e ↦ elim (Bool-cases (is_waiting store env row.row.status)) [
          | inl k ↦
              rw (e, k)
                (waiting (
                  call-Quiet r env ok_env (store.claim_file m.item_id row.row.status)
                    (λ now d s. claim_file-Good r m.item_id row.row.status now d s) w v))
          | inr k ↦
              rw (e, k)
                (ack_if-Acks m (not (same_status row.row.status BatchFileStatus.running)) w v
                  λ t. f (ground arith))
        ]
      ]
    where
      waiting :
          Quiet r w (call store env (store.claim_file m.item_id row.row.status) w).1
          → Acks r m w (
              continue
                (claimed store env m row)
                (call store env (store.claim_file m.item_id row.row.status) w))
      waiting q =
          continue-Acks r m w (claimed store env m row)
            (call store env (store.claim_file m.item_id row.row.status) w) q
            λ won h.
              either won (call store env (store.claim_file m.item_id row.row.status) w).1 q.0.0
        where
          either :
              (won : Bool) (w' : World D)
              → r.IsSound w'.db
              → Acks r m w' (claimed store env m row won w')
          either true w' s = work-Acks m row w' s
          either false w' s = lost-Acks m w' s

  -- Over a store that refines the board, with other processes and an executor that leave final entries
  -- final, one call of `handle_message`, whatever happens in it: either it acknowledges nothing and does not
  -- return True, or it acknowledges its message once and the item of the message is final at that time.
  -- Entries that were final stay final.
  pub handle_message-Acks :
      (reclaimed : Bool) (m : BatchMessage) (w : World D)
      → r.IsSound w.db
      → Acks r m w (handle_message store env reclaimed m w)
  unfolding handle_message
  handle_message-Acks b m w v =
      let q = arrive-Quiet r env ok_env w v in
      continue-Acks r m w (dispatch store env b m) (read store env (store.get_file m.item_id) w) q
        λ row h. dispatch-Acks b m row (arrive store env w) q.0.0 λ t.
          read_status (store.get_file m.item_id (arrive store env w).db)
            (r.view (arrive store env w).db m.item_id) row
            (r.reads m.item_id (arrive store env w).db q.0.0) h t
