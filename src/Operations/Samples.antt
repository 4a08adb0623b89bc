-- ===== src/Operations/Samples.antt =====
-- A restaurant with one table, and the commands that the tests send to the service.
use seatd_v.Base.{
  ℕ, ◌+◌, refl, true, false, none, some, [], ◌∷◌, arith, find_row, update_rows, ◌==◌,
}
use seatd_v.Store.{
  Database, TableRow, TableOccupancy, TableSession, available, Env, Outcome, ok, err,
}
use seatd_v.Operations.Errors.{Error}
use seatd_v.Operations.Queries.{
  Key, create_table_session, mark_table_occupied, close_table_session, mark_table_available,
  get_table_state,
}
use seatd_v.Operations.Events.{write_operational_event, insert_event, write_outbox, insert_outbox}
use seatd_v.Operations.Commands.{
  CommandMeta, CommandReplay, Reply, empty_object, get_idempotency_replay, record_response,
  insert_idempotency_record, in_tenant_tx,
}
use seatd_v.Operations.Assists.{
  change_assist_in_tx, request_assist_in_tx, valid_assist_transition, lock_assist_request,
  acknowledge_assist_request, resolve_assist_request, cancel_assist_request, create_assist_request,
}
use seatd_v.Operations.Tables.{
  OccupyTableParams, ClearTableParams, TableResult, occupy_table_in_tx, clear_table_in_tx,
}
use seatd_v.Operations.Tables.Consistency.{IsConsistent}
use seatd_v.Operations.Service.{
  occupy_table_command, clear_table_command, change_assist_command, request_assist, run, step,
}

-- A connection that holds, and one that fails at a statement.
abbrev pub calm : Env
calm = record {
  now = 1000;
  wall = 1001;
  ids = λ k. 100 + k;
  faults = λ k. false;
  rollback_fails = false;
  commit_applied = false;
  traceparent = "";
  tracestate = "";
  encode_data = λ d. some empty_object;
  encode_envelope = λ e. some empty_object;
  to_jsonb = λ b. some b;
}

abbrev pub failing : ℕ → Env
failing n = record calm { faults = λ k. k == n }

abbrev pub later : Env
later = record calm { now = 2000; ids = λ k. 200 + k }

abbrev pub table_key : Key
table_key = record { id = 1; organisation_id = 7; location_id = 8 }

abbrev pub table_one : TableRow
table_one = record {
  id = 1;
  organisation_id = 7;
  location_id = 8;
  label = "T1";
  is_active = true;
  deleted_at = none;
  version = 1;
}

abbrev pub free_table : TableOccupancy
free_table = record {
  table_id = 1;
  organisation_id = 7;
  location_id = 8;
  status = available;
  current_session_id = none;
  version = 1;
  updated_by = none;
  updated_at = 0;
  created_at = 0;
}

abbrev pub restaurant : Database
restaurant = record {
  tables = table_one ∷ [];
  occupancies = free_table ∷ [];
  sessions = [];
  assists = [];
  idempotency = [];
  events = [];
  outbox = [];
  consumed = [];
}

pub restaurant-IsConsistent : IsConsistent restaurant
unfolding find_row
restaurant-IsConsistent = record {
  keyed_occupancies = (refl, tt);
  keyed_sessions = tt;
  available_free = λ k o h e. ground arith;
  occupied_held = λ k o h e. absurd (ground arith);
  open_named = λ k s h e. absurd (ground arith);
}

abbrev pub occupying : OccupyTableParams
occupying = record {
  table = table_key;
  expected_version = 1;
  party_size = some 4;
  actor_ref = "ana";
  source = "waiter_app";
}

abbrev pub clearing : ClearTableParams
clearing = record { table = table_key; expected_version = 2; actor_ref = "ana" }

abbrev pub command : ℕ → CommandMeta
command id = record {
  id = id;
  kind = "table.occupy";
  payload_hash =
      1 ∷ 2 ∷ 3 ∷ 4 ∷ 5 ∷ 6 ∷ 7 ∷ 8 ∷ 9 ∷ 10 ∷ 11 ∷ 12 ∷ 13 ∷ 14 ∷ 15 ∷ 16 ∷ 17 ∷ 18 ∷ 19 ∷ 20 ∷ 21
      ∷ 22 ∷ 23 ∷ 24 ∷ 25 ∷ 26 ∷ 27 ∷ 28 ∷ 29 ∷ 30 ∷ 31 ∷ 32 ∷ [];
  device_id = none;
  retention = 0;
}

-- All that a run computes with.
unfoldable pub machine : Unit {0}
unfolding run step change_assist_command request_assist change_assist_in_tx request_assist_in_tx
    lock_assist_request acknowledge_assist_request resolve_assist_request cancel_assist_request
    create_assist_request valid_assist_transition in_tenant_tx occupy_table_command
    clear_table_command occupy_table_in_tx clear_table_in_tx create_table_session
    mark_table_occupied close_table_session mark_table_available get_table_state
    get_idempotency_replay record_response insert_idempotency_record write_operational_event
    insert_event write_outbox insert_outbox find_row update_rows
machine = tt

abbrev pub moment : ℕ → Env
moment n = record calm { now = n; ids = λ k. n + k }

abbrev pub second_session : TableSession
second_session = record {
  id = 300;
  organisation_id = 7;
  location_id = 8;
  table_id = 1;
  started_at = 3000;
  ended_at = none;
  party_size = some 4;
  opened_by = some "ana";
  closed_by = none;
  source = "waiter_app";
  created_at = 3000;
  updated_at = 3000;
}

-- What a command returned, with a row for the case that it returned none.
abbrev pub no_reply : CommandReplay
no_reply = record { replayed = true; response = record { status = 0; body = [] } }

abbrev pub no_result : TableResult
no_result = record { table = table_one; occupancy = free_table; session = second_session }

abbrev pub value_of : Outcome Error (Reply TableResult) → TableResult
value_of (ok (some v, r)) = v
value_of (ok (none, r)) = no_result
value_of (err e) = no_result

abbrev pub reply_of : Outcome Error (Reply TableResult) → CommandReplay
reply_of (ok (v, r)) = r
reply_of (err e) = no_reply
