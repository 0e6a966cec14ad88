-- ===== src/Batch/Worker/Loops.antt =====
-- The two loops of a worker (`run_once` and `reclaim_once` of qc/batch/worker.py) over the messages read.
use servicecheck.Base.{
  ℕ, ◌+◌, ◌≤◌, ◌≡◌, refl, sym, ◌∙◌, ◌⊎◌, inl, inr, Bool, true, false, List, [], ◌∷◌, ◌++◌, arith,
  Bool-cases, length, All, length-append, All-map_impl, All-append, Result, ok, err,
}
use servicecheck.Batch.Models.{BatchFileStatus, same_status}
use servicecheck.Batch.Store.Stages.{FileView}
use servicecheck.Batch.Board.Final.{is_final_at}
use servicecheck.Batch.Board.ItemStore.{ItemStore, Refines}
use servicecheck.Batch.Worker.{
  Surroundings, arrive, mark_interrupted, handle_message, added, served, run_once, taken_over,
  reclaimed_row, reclaim_message, reclaim_once,
}
use servicecheck.Batch.Worker.{World, BatchMessage, Step, continue}
use servicecheck.Batch.Worker.Safe.{Keeps, Respects, Quiet, Acks, Keeps-trans}
use servicecheck.Batch.Worker.Commits.{arrive-Quiet}
use servicecheck.Batch.Worker.Acknowledges.{handle_message-Acks, mark_interrupted-Quiet}
use mathlib.Core.List.{append_assoc, append-nil}

-- Messages picked from others, in their order.
abbrev pub Picks : List BatchMessage → List BatchMessage → Type 0
Picks [] ms = Unit
Picks (x ∷ xs) [] = ⊥
Picks (x ∷ xs) (m ∷ ms) = ((x ≡ m) × Picks xs ms) ⊎ Picks (x ∷ xs) ms

Picks-skip :
    (xs : List BatchMessage) (m : BatchMessage) (ms : List BatchMessage)
    → Picks xs ms
    → Picks xs (m ∷ ms)
Picks-skip [] m ms h = tt
Picks-skip (x ∷ xs) m ms h = inr h

Picks-cons :
    (xs ys : List BatchMessage) (m : BatchMessage) (ms : List BatchMessage)
    → Picks xs (m ∷ [])
    → Picks ys ms
    → Picks (xs ++ ys) (m ∷ ms)
Picks-cons [] ys m ms h k = Picks-skip ys m ms k
Picks-cons (x ∷ []) ys m ms (inl (e, h)) k = inl (e, k)
Picks-cons (x ∷ y ∷ xs) ys m ms (inl (e, h)) k = absurd h
Picks-cons (x ∷ xs) ys m ms (inr h) k = absurd h

-- The count that a loop has reached.
abbrev pub counted : ℕ → Result ℕ → ℕ
counted k (ok n) = n
counted k (err e) = k

count_rises : (k n : ℕ) (o : Result ℕ) → k ≤ n → n ≤ counted n o → k ≤ counted k o
count_rises k n (ok j) h l = omega arith
count_rises k n (err e) h l = omega arith

count_bound :
    (k n a b : ℕ) (o : Result ℕ) → n ≤ k + a → counted n o ≤ n + b → counted k o ≤ k + (a + b)
count_bound k n a b (ok j) h l = omega arith
count_bound k n a b (err e) h l = omega arith

module _ {D : Type 0} {store : ItemStore D} (r : Refines store) where
  abbrev pub AreFinal : D → List BatchMessage → Type 0
  AreFinal d = All (λ (m : BatchMessage). is_final_at (r.view d m.item_id) ≡ true)

  -- Of the messages, some were acknowledged, in their order, and all their items are final; the count rose
  -- at most by their number.
  pub record Serves (ms : List BatchMessage) (k : ℕ) (w : World D) (p : Result ℕ × World D)
      : Type 0 where
    pub news : List BatchMessage
    pub keeps : Keeps r w.db p.1.db
    pub picked : Picks news ms
    pub acked : p.1.acked ≡ w.acked ++ news
    pub final : AreFinal p.1.db news
    pub at_least : k ≤ counted k p.0
    pub at_most : counted k p.0 ≤ k + length news

  Serves-none :
      (ms : List BatchMessage) (k : ℕ) (w w' : World D) (o : Result ℕ)
      → Quiet r w w'
      → counted k o ≡ k
      → Serves ms k w (o, w')
  Serves-none ms k w w' o h e = record {
    news = [];
    keeps = h.0;
    picked = tt;
    acked = h.1 ∙ sym (append-nil w.acked);
    final = tt;
    at_least = omega (arith, e);
    at_most = omega (arith, e);
  }

  Serves-trans :
      (m : BatchMessage) (ms : List BatchMessage) (k : ℕ) (w : World D) (next : ℕ → Step D ℕ)
      (p : Result ℕ × World D)
      → Serves (m ∷ []) k w p
      → ((n : ℕ) → Serves ms n p.1 (next n p.1))
      → Serves (m ∷ ms) k w (continue next p)
  Serves-trans m ms k w next (err e, w') h rest = record {
    news = h.news;
    keeps = h.keeps;
    picked = rw (append-nil h.news) at (Picks-cons h.news [] m ms h.picked tt);
    acked = h.acked;
    final = h.final;
    at_least = omega arith;
    at_most = omega arith;
  }
  Serves-trans m ms k w next (ok n, w') h rest = join (next n w') (rest n)
    where
      join : (q : Result ℕ × World D) → Serves ms n w' q → Serves (m ∷ ms) k w q
      join (o, w'') t = record {
        news = h.news ++ t.news;
        keeps = Keeps-trans r w.db w'.db w''.db h.keeps t.keeps;
        picked = Picks-cons h.news t.news m ms h.picked t.picked;
        acked = rw h.acked at t.acked ∙ append_assoc w.acked h.news t.news;
        final =
            All-append _ h.news t.news
              (All-map_impl _ _ (λ x f. t.keeps.1 x.item_id f) h.news h.final) t.final;
        at_least = count_rises k n o h.at_least t.at_least;
        at_most =
            rw (length-append h.news t.news)
              (count_bound k n (length h.news) (length t.news) o h.at_most t.at_most);
      }

module _ {D : Type 0} {store : ItemStore D} (r : Refines store) (env : Surroundings D)
    (ok_env : Respects r env) where
  one-Serves :
      (m : BatchMessage) (k : ℕ) (w w' : World D) (o : Result ℕ)
      → Keeps r w.db w'.db
      → w'.acked ≡ w.acked ++ m ∷ []
      → is_final_at (r.view w'.db m.item_id) ≡ true
      → k ≤ counted k o
      → counted k o ≤ k + 1
      → Serves r (m ∷ []) k w (o, w')
  one-Serves m k w w' o h e f lo hi = record {
    news = m ∷ [];
    keeps = h;
    picked = inl (refl, tt);
    acked = e;
    final = (f, tt);
    at_least = lo;
    at_most = hi;
  }

  added-Serves :
      (m : BatchMessage) (k : ℕ) (w : World D) (p : Result Bool × World D)
      → Acks r m w p
      → Serves r (m ∷ []) k w (continue (added store env k) p)
  added-Serves m k w (err e, w') (h, inl (a, f)) = Serves-none r (m ∷ []) k w w' (err e) (h, a) refl
  added-Serves m k w (err e, w') (h, inr (a, f)) =
      one-Serves m k w w' (err e) h a f (omega arith) (omega arith)
  added-Serves m k w (ok false, w') (h, inl (a, f)) =
      Serves-none r (m ∷ []) k w w' (ok k) (h, a) refl
  added-Serves m k w (ok false, w') (h, inr (a, f)) =
      one-Serves m k w w' (ok k) h a f (omega arith) (omega arith)
  added-Serves m k w (ok true, w') (h, inl (a, f)) = absurd (cc)
  added-Serves m k w (ok true, w') (h, inr (a, f)) =
      one-Serves m k w w' (ok (k + 1)) h a f (omega arith) (omega arith)

  served-Serves :
      (b : Bool) (m : BatchMessage) (k : ℕ) (w : World D)
      → r.IsSound w.db
      → Serves r (m ∷ []) k w (served store env b m k w)
  unfolding served
  served-Serves b m k w v =
      added-Serves m k w (handle_message store env b m w) (handle_message-Acks r env ok_env b m w v)

  -- Over a store that refines the board, with other processes and an executor that leave final entries
  -- final: after `run_once` over messages that were read, even if an exception left the loop, the messages
  -- acknowledged are some of these, in their order, all their items are final, and the count has risen by
  -- at most their number.
  pub run_once-Serves :
      (ms : List BatchMessage) (k : ℕ) (w : World D)
      → r.IsSound w.db
      → Serves r ms k w (run_once store env ms k w)
  unfolding run_once
  run_once-Serves [] k w v = Serves-none r [] k w w (ok k) ((v, λ n f. f), refl) refl
  run_once-Serves (m ∷ ms) k w v =
      let first = served-Serves false m k w v in
      Serves-trans r m ms k w (run_once store env ms) (served store env false m k w) first
        λ n. run_once-Serves ms n (served store env false m k w).1 first.keeps.0

  -- Serving after statements that acknowledge nothing.
  later-Serves :
      (m : BatchMessage) (k : ℕ) (w w' : World D) (p : Result ℕ × World D)
      → Quiet r w w'
      → Serves r (m ∷ []) k w' p
      → Serves r (m ∷ []) k w p
  later-Serves m k w w' (o, w'') h s = record {
    news = s.news;
    keeps = Keeps-trans r w.db w'.db w''.db h.0 s.keeps;
    picked = s.picked;
    acked = rw h.1 at s.acked;
    final = s.final;
    at_least = s.at_least;
    at_most = s.at_most;
  }

  taken_over-Serves :
      (m : BatchMessage) (k : ℕ) (w : World D) (p : Result (Unit {0}) × World D)
      → Quiet r w p.1
      → Serves r (m ∷ []) k w (taken_over store env m k p)
  taken_over-Serves m k w (err e, w') h = Serves-none r (m ∷ []) k w w' (ok k) h refl
  taken_over-Serves m k w (ok _, w') h =
      later-Serves m k w w' (served store env true m k w') h (served-Serves true m k w' h.0.0)

  reclaimed_row-Serves :
      (m : BatchMessage) (k : ℕ) (row : FileView) (w : World D)
      → r.IsSound w.db
      → Serves r (m ∷ []) k w (reclaimed_row store env m k row w)
  reclaimed_row-Serves m k row w v =
      elim (Bool-cases (same_status row.row.status BatchFileStatus.running)) [
        | inl e ↦ rw e (
            taken_over-Serves m k w (mark_interrupted store env m "WORKER_LEASE_EXPIRED" w)
              (mark_interrupted-Quiet r env ok_env m "WORKER_LEASE_EXPIRED" w v))
        | inr e ↦ rw e (served-Serves true m k w v)
      ]

  looked-Serves :
      (m : BatchMessage) (k : ℕ) (w w' : World D) (o : Result FileView)
      → Quiet r w w'
      → Serves r (m ∷ []) k w (continue (reclaimed_row store env m k) (o, w'))
  looked-Serves m k w w' (err e) h = Serves-none r (m ∷ []) k w w' (err e) h refl
  looked-Serves m k w w' (ok row) h =
      later-Serves m k w w' (reclaimed_row store env m k row w') h
        (reclaimed_row-Serves m k row w' h.0.0)

  -- So does the loop that reclaims messages.
  pub reclaim_once-Serves :
      (ms : List BatchMessage) (k : ℕ) (w : World D)
      → r.IsSound w.db
      → Serves r ms k w (reclaim_once store env ms k w)
  unfolding reclaim_once
  reclaim_once-Serves [] k w v = Serves-none r [] k w w (ok k) ((v, λ n f. f), refl) refl
  reclaim_once-Serves (m ∷ ms) k w v =
      let first =
        looked-Serves m k w (arrive store env w) (store.get_file m.item_id (arrive store env w).db)
          (arrive-Quiet r env ok_env w v) in
      Serves-trans r m ms k w (reclaim_once store env ms) (reclaim_message store env m k w) first
        λ n. reclaim_once-Serves ms n (reclaim_message store env m k w).1 first.keeps.0
