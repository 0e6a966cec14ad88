-- ===== src/Batch/Store/Exclusive.antt =====
-- What workers rely on: a claim is exclusive, and the claimer writes one final result.
use servicecheck.Base.{
  ℕ, String, ◌≡◌, refl, inl, inr, Bool, true, false, Option, some, List, [], ◌∷◌, map, arith, ◌==◌,
  Bool-cases, find, update, count, state_conflict, ok, err, Result-cases,
}
use servicecheck.Batch.Models.{BatchFileStatus, running, same_status}
use servicecheck.Batch.Store.Tables.{FileRow, Db}
use servicecheck.Batch.Store.Files.{
  StatusArg, status_value, claim_file, finalize_file, has_id, has_status, is_claimable, set_running,
  is_writable_final, set_result, claim,
}
use servicecheck.Batch.Store.Commands.{Command, exec, run}
use servicecheck.Batch.Store.Validity.{IsValid}
use servicecheck.Batch.Store.Rules.{claim_file-rule}
use servicecheck.Batch.Store.Invariant.{exec-IsValid}
use servicecheck.Batch.Store.Claims.{
  HasStatus, claim_running, find-update_one, HasStatus-set_running, count_of_same, count_of_other,
}

claim_won :
    (n : ℕ) (s : BatchFileStatus) (db : Db) {db' : Db}
    → IsValid db
    → claim n s db ≡ ok (true, db')
    → HasStatus n running db'.files
claim_won n s db {db'} v h = elim (Bool-cases (is_claimable s)) [
  | inl c ↦ elim (Bool-cases (count (has_status n s) db.files == 1)) [
    | inl one ↦
        let now =
          find-update_one n (λ f. f.status ≡ running) s set_running (λ x. (refl, refl)) 1
            db.next_file db.files v.files_ascend (ground arith) in
        let e : db' ≡ record db { files = update (has_status n s) set_running db.files } =
          ground arith in
        rw e now
    | inr other ↦ absurd (ground arith)
  ]
  | inr c ↦ absurd (ground arith)
]

claim_file_won :
    (n : ℕ) (a : StatusArg) (db : Db) {db' : Db}
    → IsValid db
    → claim_file n a db ≡ ok (true, db')
    → HasStatus n running db'.files
unfolding claim_file
claim_file_won n a db v h = elim (Result-cases (status_value a)) [
  | inl (s, e) ↦ claim_won n s db v (rw e at h)
  | inr (x, e) ↦ absurd (cc)
]

-- The claims that other workers make meanwhile, of this file or of others.
abbrev pub claims : List (ℕ × StatusArg) → List Command
claims = map (λ (m, a). Command.claims_file m a)

claims_keep :
    (n : ℕ) (others : List (ℕ × StatusArg)) (db : Db)
    → IsValid db
    → HasStatus n running db.files
    → IsValid (run (claims others) db) × HasStatus n running (run (claims others) db).files
unfolding run exec
claims_keep n [] db v h = (v, h)
claims_keep n ((m, a) ∷ others) db v h =
    claims_keep n others (exec (Command.claims_file m a) db)
      (exec-IsValid (Command.claims_file m a) db v)
      (claim_file-rule (λ d. HasStatus n running d.files) db h m a
        λ s c. HasStatus-set_running n (has_status m s) db.files h)

claim_file-IsValid :
    (n : ℕ) (a : StatusArg) (db : Db) {b : Bool} {db' : Db}
    → IsValid db
    → claim_file n a db ≡ ok (b, db')
    → IsValid db'
unfolding exec
claim_file-IsValid n a db v h = rw h at (exec-IsValid (Command.claims_file n a) db v)

finalized-IsValid :
    (n : ℕ) (t : BatchFileStatus) (q r : String) (w : Option String) (db : Db) {db' : Db}
    → IsValid db
    → finalize_file n (StatusArg.member t) q r w db ≡ ok (tt, db')
    → IsValid db'
unfolding exec
finalized-IsValid n t q r w db v h =
    rw h at (exec-IsValid (Command.finalizes_file n (StatusArg.member t) q r w) db v)

abbrev written : ℕ → BatchFileStatus → String → String → Option String → Db → Db
written n t q r w db = record db {
  files = update (has_status n running) (set_result t q r w) db.files;
}

finalize_running :
    (n : ℕ) (t : BatchFileStatus) (q r : String) (w : Option String) (db : Db)
    → IsValid db
    → HasStatus n running db.files
    → is_writable_final t ≡ true
    → finalize_file n (StatusArg.member t) q r w db ≡ ok (tt, written n t q r w db)
unfolding finalize_file status_value
finalize_running n t q r w db v h ft =
    rw (ft, count_of_same n running 1 db.next_file db.files v.files_ascend h) refl

finalize_not_running :
    (n : ℕ) (s u : BatchFileStatus) (q r : String) (w : Option String) (db : Db)
    → IsValid db
    → HasStatus n s db.files
    → same_status s running ≡ false
    → is_writable_final u ≡ true
    → finalize_file n (StatusArg.member u) q r w db ≡ err state_conflict
unfolding finalize_file status_value
finalize_not_running n s u q r w db v h d fu =
    rw (fu, count_of_other n running s d 1 db.next_file db.files v.files_ascend h) refl

-- After a claim that returned True, and any claims of any files in between, every further claim of
-- the file returns False and changes nothing, whatever valid status it expects.
pub claim_exclusive :
    (db : Db) (n : ℕ) (a b : StatusArg) (others : List (ℕ × StatusArg)) {db' : Db}
    {s : BatchFileStatus}
    → IsValid db
    → claim_file n a db ≡ ok (true, db')
    → status_value b ≡ ok s
    → claim_file n b (run (claims others) db') ≡ ok (false, run (claims others) db')
unfolding claim_file
claim_exclusive db n a b others {db'} {s} v h e =
    let (v', found) =
      claims_keep n others db' (claim_file-IsValid n a db v h) (claim_file_won n a db v h) in
    rw e (claim_running n s (run (claims others) db') v' found)

-- The claimer can write the final result, and only once: the row then holds the status and both
-- snapshots, and writing a final result again raises StateConflictError.
pub finalize_once :
    (db : Db) (n : ℕ) (a : StatusArg) (t u : BatchFileStatus) (q r q' r' : String)
    (w w' : Option String) {db' : Db}
    → IsValid db
    → claim_file n a db ≡ ok (true, db')
    → is_writable_final t ≡ true
    → is_writable_final u ≡ true
    → (d : Db) × (finalize_file n (StatusArg.member t) q r w db' ≡ ok (tt, d))
      × (finalize_file n (StatusArg.member u) q' r' w' d ≡ err state_conflict)
      × ((f : FileRow) × (find (has_id n) d.files ≡ some f)
          × (f.status ≡ t)
          × (f.request_json ≡ some q)
          × (f.result_json ≡ some r)
          × (f.failed_reason ≡ w))
finalize_once db n a t u q r q' r' w w' {db'} v h ft fu =
    let v' : IsValid db' = claim_file-IsValid n a db v h in
    let held : HasStatus n running db'.files = claim_file_won n a db v h in
    let once = finalize_running n t q r w db' v' held ft in
    let (f, found, holds) =
      find-update_one n
        (λ f.
          (f.status ≡ t)
          × (f.request_json ≡ some q)
          × (f.result_json ≡ some r)
          × (f.failed_reason ≡ w))
        running (set_result t q r w) (λ x. (refl, (refl, refl, refl, refl))) 1 db'.next_file
        db'.files v'.files_ascend
        (count_of_same n running 1 db'.next_file db'.files v'.files_ascend held) in
    (
      written n t q r w db',
      once,
      finalize_not_running n t u q' r' w' (written n t q r w db')
          (finalized-IsValid n t q r w db' v' once) (f, found, holds.0) (ground arith) fu,
      (f, found, holds.0, holds.1, holds.2, holds.3),
    )
