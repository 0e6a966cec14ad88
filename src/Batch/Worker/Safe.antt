-- ===== src/Batch/Worker/Safe.antt =====
-- What a worker (qc/batch/worker.py) acknowledges, over any store that refines the board.
use servicecheck.Base.{
  ℕ, ◌≡◌, refl, ◌∙◌, ◌⊎◌, inl, inr, Bool, true, false, [], ◌∷◌, ◌++◌, Result, ok, err,
}
use servicecheck.Batch.Store.Stages.{FileView}
use servicecheck.Batch.Board.Final.{is_final_at, StaysFinal}
use servicecheck.Batch.Board.ItemStore.{ItemStore, Refines}
use servicecheck.Batch.Worker.{Surroundings}
use servicecheck.Batch.Worker.{World, BatchMessage, Step, settle, continue}

-- The outcome of a call of `handle_message`, as its caller sees it.
abbrev pub is_done : Result Bool → Bool
is_done (ok b) = b
is_done (err e) = false

module _ {D : Type 0} {store : ItemStore D} (r : Refines store) where
  -- Sound tables, whose final entries are those of before, and perhaps more.
  abbrev pub Keeps : D → D → Type 0
  Keeps d d' = r.IsSound d' × StaysFinal (r.view d) (r.view d')

  -- The surroundings of a worker: the other processes and the executor keep the tables sound and final
  -- entries final.
  pub record Respects (env : Surroundings D) : Type 0 where
    pub others_keep : (k : ℕ) (d : D) → r.IsSound d → Keeps d (env.others k d)
    pub execute_keeps :
        (k : ℕ) (row : FileView) (d : D) → r.IsSound d → Keeps d (env.execute k row d).1

  -- Nothing was acknowledged.
  abbrev pub Quiet : World D → World D → Type 0
  Quiet w w' = Keeps w.db w'.db × (w'.acked ≡ w.acked)

  -- The message was not acknowledged, and the call did not return True; or it was, once, and its item is
  -- final.
  abbrev pub Acks : BatchMessage → World D → Result Bool × World D → Type 0
  Acks m w (o, w') =
      Keeps w.db w'.db
      × (((w'.acked ≡ w.acked) × (is_done o ≡ false))
          ⊎ ((w'.acked ≡ w.acked ++ m ∷ []) × (is_final_at (r.view w'.db m.item_id) ≡ true)))

  pub Keeps-trans : (a b c : D) → Keeps a b → Keeps b c → Keeps a c
  Keeps-trans a b c h k = (k.0, λ n f. k.1 n (h.1 n f))

  pub Quiet-trans : (a b c : World D) → Quiet a b → Quiet b c → Quiet a c
  Quiet-trans a b c h k = (Keeps-trans a.db b.db c.db h.0 k.0, k.1 ∙ h.1)

  pub Quiet-Acks :
      (m : BatchMessage) (a b : World D) (p : Result Bool × World D)
      → Quiet a b
      → Acks m b p
      → Acks m a p
  Quiet-Acks m a b (o, c) h (k, inl (e, f)) = (Keeps-trans a.db b.db c.db h.0 k, inl (e ∙ h.1, f))
  Quiet-Acks m a b (o, c) h (k, inr (e, f)) =
      (Keeps-trans a.db b.db c.db h.0 k, inr (rw (h.1) at e, f))

  -- The outcome of a call of the store.
  abbrev pub Good : {A : Type 0} → D → Result (A × D) → Type 0
  Good d (ok (a, d')) = Keeps d d'
  Good d (err e) = Unit

  pub settle-Quiet :
      {A : Type 0} (w : World D) (o : Result (A × D))
      → r.IsSound w.db
      → Good w.db o
      → Quiet w (settle w o).1
  settle-Quiet w (ok (a, d)) v h = (h, refl)
  settle-Quiet w (err e) v h = ((v, λ n f. f), refl)

  -- Statements after one that acknowledged nothing.
  pub continue-Acks :
      {A : Type 0} (m : BatchMessage) (w : World D) (next : A → Step D Bool)
      (p : Result A × World D)
      → Quiet w p.1
      → ((a : A) → p.0 ≡ ok a → Acks m p.1 (next a p.1))
      → Acks m w (continue next p)
  continue-Acks m w next (err e, w') h k = (h.0, inl (h.1, refl))
  continue-Acks m w next (ok a, w') h k = Quiet-Acks m w w' (next a w') h (k a refl)

  pub continue-Quiet :
      {A B : Type 0} (w : World D) (next : A → Step D B) (p : Result A × World D)
      → Quiet w p.1
      → ((a : A) → p.0 ≡ ok a → Quiet p.1 (next a p.1).1)
      → Quiet w (continue next p).1
  continue-Quiet w next (err e, w') h k = h
  continue-Quiet w next (ok a, w') h k = Quiet-trans w w' (next a w').1 h (k a refl)
