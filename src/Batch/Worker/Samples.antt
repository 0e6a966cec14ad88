-- ===== src/Batch/Worker/Samples.antt =====
-- A worker over the tables of `PostgresBatchStore`, runs of it, and the theorems at these inputs.
use servicecheck.Base.{ℕ, ◌+◌, String, ◌≡◌, refl, true, false, none, List, [], ◌∷◌, same, ok}
use servicecheck.Batch.Models.{BatchFileStatus}
use servicecheck.Batch.Board.ItemStore.{ItemStore}
use servicecheck.Batch.Postgres.Tables.{PgDb}
use servicecheck.Batch.Postgres.Items.{get_file, file_payload, claim_file, set_file_status}
use servicecheck.Batch.Postgres.Finalize.{json_value, finalize_file, finalize_in_session}
use servicecheck.Batch.Postgres.Store.{postgres_store, postgres_refines}
use servicecheck.Batch.Postgres.Samples.{
  two_items, two_items-IsSound, one_running, one_running-IsSound, decode, accepts,
}
use servicecheck.Batch.Worker.{Execution, Surroundings, handle_message, run_once, reclaim_once}
use servicecheck.Batch.Worker.{World, BatchMessage}
use servicecheck.Batch.Worker.Safe.{Respects, Acks}
use servicecheck.Batch.Worker.Acknowledges.{handle_message-Acks}
use servicecheck.Batch.Worker.Loops.{Serves, AreFinal, run_once-Serves}
use servicecheck.Batch.Worker.Progress.{IsCalm}
use servicecheck.Batch.Worker.Finished.{reclaim_once_finishes}

abbrev store : ItemStore PgDb
store = postgres_store decode

-- An executor that returns at once.
abbrev executes : Execution → Surroundings PgDb
executes x = record { others = λ k d. d; clock = λ k. 100 + k; execute = λ k row d. (ok x, d) }

abbrev passed : Execution
passed = record {
  status = BatchFileStatus.done;
  request_json = "{}";
  result_json = "{}";
  failed_reason = none;
}

abbrev spoiled : Execution
spoiled = record {
  status = BatchFileStatus.done;
  request_json = "{}";
  result_json = "!";
  failed_reason = none;
}

abbrev message : String → ℕ → BatchMessage
message id n = record { message_id = id; batch_id = "night"; item_id = n }

abbrev start : PgDb → World PgDb
start db = record { db = db; calls = 0; acked = [] }

executes-Respects : (x : Execution) → Respects (postgres_refines decode) (executes x)
unfolding postgres_refines
executes-Respects x = record {
  others_keep = λ k d v. (v, λ m f. f);
  execute_keeps = λ k row d v. (v, λ m f. f);
}

handled :
    (handle_message store (executes passed) false (message "m1" 1) (start two_items)).0 ≡ ok true
unfolding handle_message get_file file_payload claim_file finalize_file finalize_in_session
    json_value same
handled = refl

-- A result that is no JSON: the message stays pending.
kept :
    (handle_message store (executes spoiled) false (message "m1" 1) (start two_items)).1.acked ≡ []
unfolding handle_message get_file file_payload claim_file finalize_file finalize_in_session
    set_file_status same
kept = refl

handle_message-Acks_example :
    Acks
      (postgres_refines decode)
      (message "m1" 1)
      (start two_items)
      (handle_message store (executes spoiled) false (message "m1" 1) (start two_items))
unfolding postgres_refines
handle_message-Acks_example =
    handle_message-Acks (postgres_refines decode) (executes spoiled) (executes-Respects spoiled)
      false (message "m1" 1) (start two_items) two_items-IsSound

run_once-Serves_example :
    Serves
      (postgres_refines decode)
      (message "m1" 1 ∷ message "m2" 2 ∷ [])
      0
      (start two_items)
      (run_once store (executes passed) (message "m1" 1 ∷ message "m2" 2 ∷ []) 0 (start two_items))
unfolding postgres_refines
run_once-Serves_example =
    run_once-Serves (postgres_refines decode) (executes passed) (executes-Respects passed)
      (message "m1" 1 ∷ message "m2" 2 ∷ []) 0 (start two_items) two_items-IsSound

calm : IsCalm (postgres_refines decode) (executes passed) (λ row. passed)
unfolding postgres_refines
calm = record {
  alone = λ k d. refl;
  returns = λ k row d. refl;
  sound = λ k row d v. v;
  unmoved = λ k row d v j. refl;
  accepted = λ k row d v. accepts d;
  final = λ row. refl;
  letters = refl;
}

-- The first item is RUNNING under a lost lease, and has two messages.
abbrev reclaimable : List BatchMessage
reclaimable = message "m1" 1 ∷ message "m2" 2 ∷ message "m3" 1 ∷ []

reclaim_once_finishes_example :
    (n : ℕ) × ((reclaim_once store (executes passed) reclaimable 0 (start one_running)).0 ≡ ok n)
    × ((reclaim_once store (executes passed) reclaimable 0 (start one_running)).1.acked
        ≡ reclaimable)
    × AreFinal
        (postgres_refines decode)
        (reclaim_once store (executes passed) reclaimable 0 (start one_running)).1.db
        reclaimable
unfolding postgres_refines
reclaim_once_finishes_example =
    reclaim_once_finishes (postgres_refines decode) (executes passed) (λ row. passed) calm
      reclaimable (start one_running) one_running-IsSound (refl, (refl, (refl, tt)))
