-- ===== src/Batch/Worker/Live.antt =====
-- A worker (qc/batch/worker.py) that is left alone acknowledges what it reclaims.
use servicecheck.Base.{
  ℕ, ◌+◌, ◌≡◌, refl, sym, ap, ◌∙◌, inl, inr, Bool, true, false, Option, some, [], ◌∷◌, ◌++◌, arith,
  Bool-cases, Option-cases, is_some, Result, ok, err,
}
use servicecheck.Batch.Models.{BatchFileStatus, same_status, same_status→eq}
use servicecheck.Batch.Store.Files.{is_writable_final}
use servicecheck.Batch.Store.Stages.{FileView}
use servicecheck.Batch.Board.Rows.{Entry, map_entry, set_at}
use servicecheck.Batch.Board.ItemStore.{ItemStore, Refines}
use servicecheck.Batch.Worker.{
  Execution, Surroundings, dead_letter_for, call, read, commit, mark_interrupted, concluded, work,
  claimed, is_waiting, dispatch, handle_message, added, served, taken_over, reclaimed_row,
  reclaim_message,
}
use servicecheck.Batch.Worker.{World, BatchMessage, continue}
use servicecheck.Batch.Worker.Progress.{
  At, Remains, Remains-set_at, IsCalm, Does, read_found, later, claim-Does, mark-Does, plain-Does,
  letter-Does,
}

module _ {D : Type 0} {store : ItemStore D} (r : Refines store) (env : Surroundings D)
    (x : FileView → Execution) (calm : IsCalm r env x) where
  -- A statement that returned, and acknowledged the message.
  pub record Acked {A : Type 0} (m : BatchMessage) (w : World D) (p : Result A × World D)
      : Type 0 where
    pub returned : (a : A) × (p.0 ≡ ok a)
    pub is_sound : r.IsSound p.1.db
    pub remains : Remains (r.view w.db) (r.view p.1.db)
    pub acked : p.1.acked ≡ w.acked ++ m ∷ []

  commit-Does :
      (m : BatchMessage) (z : Execution) (w : World D)
      → r.IsSound w.db
      → r.IsAccepted w.db z.request_json z.result_json
      → is_writable_final z.status ≡ true
      → At (r.view w.db) m.item_id BatchFileStatus.running
      → Does r env tt (set_at m.item_id z.status (r.view w.db)) w (commit store env m z w)
  commit-Does m z w v acc f at =
      elim (Bool-cases (same_status z.status BatchFileStatus.failed_final)) [
        | inl e ↦
            let (row, found, is) = read_found r env m.item_id w.db BatchFileStatus.running v at in
            let s : z.status ≡ BatchFileStatus.failed_final =
              same_status→eq z.status BatchFileStatus.failed_final e in
            let k =
              letter-Does r env x calm store.finalize_file_with_dead_letter calm.letters
                r.finishes_letter m z (dead_letter_for m z row) (later r env x calm w) v acc at in
            rw (e, calm.alone w.calls w.db, found)
              (record {
                returned = k.returned;
                is_sound = k.is_sound;
                shown = λ j.
                    k.shown j
                    ∙ ap {B = Option Entry} (λ t. set_at m.item_id t (r.view w.db) j) (sym s);
                unacked = k.unacked;
              })
        | inr e ↦ rw e (plain-Does r env x calm m z w v acc f at)
      ]

  concluded-Acked :
      (m : BatchMessage) (w w' : World D) (t : BatchFileStatus) (p : Result (Unit {0}) × World D)
      → Remains (r.view w.db) (r.view w'.db)
      → w'.acked ≡ w.acked
      → Does r env tt (set_at m.item_id t (r.view w'.db)) w' p
      → Acked m w (concluded store env m p)
  concluded-Acked m w w' t (err z, w'') h a k = absurd (let q = k.returned in cc)
  concluded-Acked m w w' t (ok _, w'') h a k = record {
    returned = (true, refl);
    is_sound = k.is_sound;
    remains = λ j s. rw (k.shown j) (Remains-set_at m.item_id t (r.view w'.db) j (h j s));
    acked = rw (k.unacked, a) refl;
  }

  work-Acked :
      (m : BatchMessage) (row : FileView) (w : World D)
      → r.IsSound w.db
      → At (r.view w.db) m.item_id BatchFileStatus.running
      → Acked m w (work store env m row w)
  work-Acked m row w v (e, found, is) =
      let shown = calm.unmoved w.calls row w.db v in
      let sound = calm.sound w.calls row w.db v in
      let ran : World D = record (later r env x calm w) { db = (env.execute w.calls row w.db).1 } in
      rw (calm.alone w.calls w.db, calm.returns w.calls row w.db)
        (concluded-Acked m w ran (x row).status (commit store env m (x row) ran)
          (λ j s. rw (shown j) s) refl
          (commit-Does m (x row) ran sound (calm.accepted w.calls row w.db v) (calm.final row)
            (e, shown m.item_id ∙ found, is)))

  after-Acked :
      {A : Type 0} (m : BatchMessage) (w w' : World D) (p : Result A × World D)
      → Remains (r.view w.db) (r.view w'.db)
      → w'.acked ≡ w.acked
      → Acked m w' p
      → Acked m w p
  after-Acked m w w' p h a k = record {
    returned = k.returned;
    is_sound = k.is_sound;
    remains = λ j s. k.remains j (h j s);
    acked = k.acked ∙ rw a refl;
  }

  claimed-Acked :
      (m : BatchMessage) (row : FileView) (w : World D) (p : Result Bool × World D)
      → Does r env true (set_at m.item_id BatchFileStatus.running (r.view w.db)) w p
      → is_some (r.view w.db m.item_id) ≡ true
      → Acked m w (continue (claimed store env m row) p)
  claimed-Acked m row w (err z, w') k h = absurd (let q = k.returned in cc)
  claimed-Acked m row w (ok false, w') k h = absurd (let q = k.returned in ground arith)
  claimed-Acked m row w (ok true, w') k h = elim (Option-cases (r.view w.db m.item_id)) [
    | inl none_there ↦ absurd (ground arith)
    | inr (e, found) ↦
        after-Acked m w w' (work store env m row w')
          (λ j s.
            rw (k.shown j) (Remains-set_at m.item_id BatchFileStatus.running (r.view w.db) j s))
          k.unacked
          (work-Acked m row w' k.is_sound (
            map_entry BatchFileStatus.running e,
            k.shown m.item_id ∙ rw found (ground arith),
            refl,
          ))
  ]

  -- A waiting item is worked on; a final one is acknowledged.
  dispatch-Acked :
      (b : Bool) (m : BatchMessage) (row : FileView) (w : World D) (e : Entry)
      → r.IsSound w.db
      → r.view w.db m.item_id ≡ some e
      → row.row.status ≡ e.status
      → same_status e.status BatchFileStatus.running ≡ false
      → Acked m w (dispatch store env b m row w)
  dispatch-Acked b m row w e v found is s =
      let s' : same_status row.row.status BatchFileStatus.running ≡ false = ground (arith, is) in
      elim (Bool-cases (is_waiting store env row.row.status)) [
        | inl k ↦
            rw (s', k)
              (claimed-Acked m row w (call store env (store.claim_file m.item_id row.row.status) w)
                (claim-Does r env x calm m.item_id row.row.status w v (ground arith)
                  (e, found, sym is))
                (rw found refl))
        | inr k ↦
            rw (s', k)
              (record { returned = (false, refl); is_sound = v; remains = λ j f. f; acked = refl })
      ]

  -- With the row read.
  handle-Acked :
      (b : Bool) (m : BatchMessage) (w : World D) (e : Entry)
      → r.IsSound w.db
      → r.view w.db m.item_id ≡ some e
      → same_status e.status BatchFileStatus.running ≡ false
      → Acked m w (handle_message store env b m w)
  unfolding handle_message
  handle-Acked b m w e v found s =
      let (row, read, is) = read_found r env m.item_id w.db e.status v (e, found, refl) in
      let k = dispatch-Acked b m row (later r env x calm w) e v found is s in
      rw (calm.alone w.calls w.db, read)
        (after-Acked m w (later r env x calm w) (dispatch store env b m row (later r env x calm w))
          (λ j f. f) refl k)

  added-Acked :
      (m : BatchMessage) (k : ℕ) (w : World D) (p : Result Bool × World D)
      → Acked m w p
      → Acked m w (continue (added store env k) p)
  added-Acked m k w (err z, w') h = absurd (let q = h.returned.1 in cc)
  added-Acked m k w (ok true, w') h = record {
    returned = (k + 1, refl);
    is_sound = h.is_sound;
    remains = h.remains;
    acked = h.acked;
  }
  added-Acked m k w (ok false, w') h = record {
    returned = (k, refl);
    is_sound = h.is_sound;
    remains = h.remains;
    acked = h.acked;
  }

  served-Acked :
      (b : Bool) (m : BatchMessage) (k : ℕ) (w : World D) (e : Entry)
      → r.IsSound w.db
      → r.view w.db m.item_id ≡ some e
      → same_status e.status BatchFileStatus.running ≡ false
      → Acked m w (served store env b m k w)
  unfolding served
  served-Acked b m k w e v found s =
      added-Acked m k w (handle_message store env b m w) (handle-Acked b m w e v found s)

  -- An item that is RUNNING is taken over.
  taken_over-Acked :
      (m : BatchMessage) (k : ℕ) (w : World D) (e : Entry) (p : Result (Unit {0}) × World D)
      → r.view w.db m.item_id ≡ some e
      → Does r env tt (set_at m.item_id BatchFileStatus.interrupted (r.view w.db)) w p
      → Acked m w (taken_over store env m k p)
  taken_over-Acked m k w e (err z, w') found h = absurd (let q = h.returned in cc)
  taken_over-Acked m k w e (ok _, w') found h =
      after-Acked m w w' (served store env true m k w')
        (λ j s.
          rw (h.shown j) (Remains-set_at m.item_id BatchFileStatus.interrupted (r.view w.db) j s))
        h.unacked
        (served-Acked true m k w' (map_entry BatchFileStatus.interrupted e) h.is_sound
          (h.shown m.item_id ∙ rw found (ground arith)) refl)

  pub reclaimed-Acked :
      (m : BatchMessage) (k : ℕ) (w : World D)
      → r.IsSound w.db
      → is_some (r.view w.db m.item_id) ≡ true
      → Acked m w (reclaim_message store env m k w)
  reclaimed-Acked m k w v there = elim (Option-cases (r.view w.db m.item_id)) [
    | inl none_there ↦ absurd (ground arith)
    | inr (e, found) ↦
        let (row, read, is) = read_found r env m.item_id w.db e.status v (e, found, refl) in
        rw (calm.alone w.calls w.db, read)
          (after-Acked m w (later r env x calm w)
            (reclaimed_row store env m k row (later r env x calm w)) (λ j f. f) refl
            (elim (Bool-cases (same_status e.status BatchFileStatus.running)) [
              | inl s ↦
                  rw (is, s)
                    (taken_over-Acked m k (later r env x calm w) e
                      (mark_interrupted store env m "WORKER_LEASE_EXPIRED" (later r env x calm w))
                      found
                      (mark-Does r env x calm m "WORKER_LEASE_EXPIRED" (later r env x calm w) v
                        (e, found, same_status→eq e.status BatchFileStatus.running s)))
              | inr s ↦ rw (is, s) (served-Acked true m k (later r env x calm w) e v found s)
            ]))
  ]
