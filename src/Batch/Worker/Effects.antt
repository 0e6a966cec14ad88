-- ===== src/Batch/Worker/Effects.antt =====
-- The world of a worker (qc/batch/worker.py): the store, the calls made so far and the messages
-- acknowledged; and statements on it, of which an exception undoes only the call that raised it.
use servicecheck.Base.{ℕ, String, List, ◌∷◌, [], ◌++◌, Result, ok, err}

pub record BatchMessage : Type 0 where
  pub message_id : String
  pub batch_id : String
  pub item_id : ℕ

pub record World (D : Type 0) : Type 0 where
  pub db : D
  pub calls : ℕ
  pub acked : List BatchMessage

-- A statement: its outcome, and the world after it.
abbrev pub Step : Type 0 → Type 0 → Type 0
Step D A = World D → Result A × World D

module _ {D A : Type 0} where
  abbrev pub finish : A → Step D A
  finish a w = (ok a, w)

  abbrev pub settle : World D → Result (A × D) → Result A × World D
  settle w (ok (a, d)) = (ok a, record w { db = d })
  settle w (err e) = (err e, w)

  abbrev pub look : World D → Result A → Result A × World D
  look w r = (r, w)

module _ {D A B : Type 0} where
  abbrev pub continue : (A → Step D B) → Result A × World D → Result B × World D
  continue next (ok a, w) = next a w
  continue next (err e, w) = (err e, w)

  -- The statements after one that may raise.
  infixl 5 ◌then◌
  abbrev pub ◌then◌ : Step D A → (A → Step D B) → Step D B
  (s then next) w = continue next (s w)

-- xack
module _ {D : Type 0} where
  abbrev pub ack : BatchMessage → World D → World D
  ack m w = record w { acked = w.acked ++ m ∷ [] }
