-- ===== src/Batch/Board/Final.antt =====
-- Final entries of a board stay final under its operations.
use servicecheck.Base.{
  ℕ, ◌≡◌, refl, inl, inr, Bool, true, false, ◌&&◌, Option, none, some, arith, ◌==◌, Bool-cases,
  Option-cases, Result, ok, err,
}
use servicecheck.Batch.Models.{BatchFileStatus, running, valid_transition}
use servicecheck.Batch.Store.Files.{is_claimable, is_final}
use servicecheck.Batch.Board.{claim, move}
use servicecheck.Batch.Board.Rows.{Entry, Board, is_at, set_at}

abbrev pub is_final_at : Option Entry → Bool
is_final_at none = false
is_final_at (some e) = is_final e.status

-- The final entries of a board are final on another.
abbrev pub StaysFinal : Board → Board → Type 0
StaysFinal b c = (m : ℕ) → is_final_at (b m) ≡ true → is_final_at (c m) ≡ true

pub StaysFinal-set_at :
    (n : ℕ) (t : BatchFileStatus) (b : Board)
    → is_final_at (b n) ≡ false
    → StaysFinal b (set_at n t b)
StaysFinal-set_at n t b waits m h = elim (Bool-cases (m == n)) [
  | inl e ↦ let i : m ≡ n = ground arith in absurd (let k = rw i at h in ground arith)
  | inr e ↦ rw e h
]

pub not_final_at :
    (s : BatchFileStatus) (o : Option Entry)
    → is_final s ≡ false
    → is_at s o ≡ true
    → is_final_at o ≡ false
not_final_at s none f h = refl
not_final_at s (some e) f h = ground arith

pub claim-StaysFinal : (n : ℕ) (s : BatchFileStatus) (b : Board) → StaysFinal b (claim n s b).1
claim-StaysFinal n s b = elim (Bool-cases (is_claimable s && is_at s (b n))) [
  | inl e ↦
      rw e (StaysFinal-set_at n running b (not_final_at s (b n) (ground arith) (ground arith)))
  | inr e ↦ rw e (λ m h. h)
]

-- The board after a change of status that succeeds.
abbrev pub StaysFinalIfOk : Board → Result Board → Type 0
StaysFinalIfOk b (ok c) = StaysFinal b c
StaysFinalIfOk b (err e) = Unit

pub move-StaysFinal : (n : ℕ) (t : BatchFileStatus) (b : Board) → StaysFinalIfOk b (move n t b)
move-StaysFinal n t b = elim (Bool-cases (is_final t)) [
  | inl e ↦ rw e tt
  | inr e ↦ elim (Option-cases (b n)) [
    | inl k ↦ rw (e, k) tt
    | inr (x, k) ↦ elim (Bool-cases (valid_transition x.status t)) [
      | inl v ↦ rw (e, k, v) (StaysFinal-set_at n t b (ground arith))
      | inr v ↦ rw (e, k, v) tt
    ]
  ]
]
