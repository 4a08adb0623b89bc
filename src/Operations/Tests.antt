-- ===== src/Operations/Tests.antt =====
-- The service at concrete inputs: tables and the replay of commands.
use seatd_v.Base.{◌+◌, ◌≡◌, refl, true, none, some, List, [], ◌∷◌, arith}
use seatd_v.Store.{Bytes, Database, occupied, Env, Outcome, ok, err, fault}
use seatd_v.Operations.Errors.{Error, database, writing_outbox, idempotency_conflict}
use seatd_v.Operations.Events.{write_operational_event}
use seatd_v.Operations.Commands.{CommandMeta, Reply, run_tenant_command, rolled_back}
use seatd_v.Operations.Commands.Idempotence.{run_tenant_command-replay, run_tenant_command-conflict}
use seatd_v.Operations.Tables.{TableResult, occupy_table_in_tx}
use seatd_v.Operations.Tables.Consistency.{IsConsistent, occupancy_at}
use seatd_v.Operations.Service.{
  Call, occupies, clears, caller_of, occupied_event, occupy_table_command, run,
}
use seatd_v.Operations.Service.Consistency.{run-IsConsistent}
use seatd_v.Operations.Service.Announcement.{Announces, occupy_table_command-Announces}
use seatd_v.Operations.Samples.{
  calm, failing, later, table_key, free_table, restaurant, restaurant-IsConsistent, occupying,
  clearing, command, machine,
}
use seatd_v.Operations.Samples.{value_of, reply_of}

-- A day: the table is occupied, cleared and occupied once more.
abbrev day : List (Env × Call)
day =
    (calm, occupies occupying (command 50) none)
    ∷ (later, clears clearing (command 51) none)
    ∷ (failing 4, occupies (record occupying { expected_version = 3 }) (command 52) none)
    ∷ (
      record calm { now = 3000; ids = λ k. 300 + k },
      occupies (record occupying { expected_version = 3 }) (command 53) none,
    )
    ∷ []

day_ends :
    occupancy_at (run restaurant day) 1
    ≡ some (record free_table {
      status = occupied;
      current_session_id = some 300;
      version = 4;
      updated_by = some "ana";
      updated_at = 3000;
    })
unfolding machine
day_ends = refl

run-IsConsistent_example : IsConsistent (run restaurant day)
run-IsConsistent_example = run-IsConsistent restaurant day restaurant-IsConsistent

abbrev first : Outcome Error (Reply TableResult) × Database
first = occupy_table_command occupying (command 50) none calm restaurant

first_executes :
    occupy_table_command occupying (command 50) none calm restaurant
    ≡ (ok (some (value_of first.0), reply_of first.0), first.1)
unfolding machine
first_executes = refl

occupy_table_command-Announces_example :
    Announces "table.occupied" "table" "operations.table" 7 8 1 2 "ana" restaurant first.1
occupy_table_command-Announces_example =
    occupy_table_command-Announces occupying (command 50) none calm restaurant first.1
      (value_of first.0) (reply_of first.0) first_executes

first_command :
    run_tenant_command
      (caller_of table_key "ana")
      (command 50)
      (occupy_table_in_tx occupying)
      (λ r. write_operational_event (occupied_event occupying (command 50) r))
      none
      calm
      restaurant
    ≡ (ok (some (value_of first.0), reply_of first.0), first.1)
unfolding machine
first_command = refl

-- Sent again with other work, the command answers from its record.
run_tenant_command-replay_example :
    (body : Bytes) × (some (reply_of first.0).response.body ≡ some body)
    × (run_tenant_command
          (caller_of table_key "ana")
          (command 50)
          (occupy_table_in_tx occupying)
          (λ r. write_operational_event (occupied_event occupying (command 50) r))
          none
          later
          first.1
        ≡ (
          ok (
            none,
            record {
              replayed = true;
              response = record { status = (reply_of first.0).response.status; body = body };
            },
          ),
          first.1,
        ))
run_tenant_command-replay_example =
    run_tenant_command-replay calm (caller_of table_key "ana") (command 50)
      (occupy_table_in_tx occupying)
      (λ r. write_operational_event (occupied_event occupying (command 50) r)) none restaurant
      (value_of first.0) (reply_of first.0) first.1 first_command (omega arith) later
      (occupy_table_in_tx occupying)
      (λ r. write_operational_event (occupied_event occupying (command 50) r)) none (λ k. refl)

abbrev other_command : CommandMeta
other_command = record (command 50) { kind = "table.clear" }

run_tenant_command-conflict_example :
    run_tenant_command
      (caller_of table_key "ana")
      other_command
      (occupy_table_in_tx occupying)
      (λ r. write_operational_event (occupied_event occupying other_command r))
      none
      later
      first.1
    ≡ (err (rolled_back later idempotency_conflict), first.1)
run_tenant_command-conflict_example =
    run_tenant_command-conflict calm (caller_of table_key "ana") (command 50)
      (occupy_table_in_tx occupying)
      (λ r. write_operational_event (occupied_event occupying (command 50) r)) none restaurant
      (value_of first.0) (reply_of first.0) first.1 first_command (omega arith) later other_command
      (occupy_table_in_tx occupying)
      (λ r. write_operational_event (occupied_event occupying other_command r)) none (λ k. refl)
      refl refl

failed_command :
    run_tenant_command
      (caller_of table_key "ana")
      (command 50)
      (occupy_table_in_tx occupying)
      (λ r. write_operational_event (occupied_event occupying (command 50) r))
      none
      (failing 8)
      restaurant
    ≡ (err (database writing_outbox fault), restaurant)
unfolding machine
failed_command = refl
