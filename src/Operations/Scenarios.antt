-- ===== src/Operations/Scenarios.antt =====
-- The service at concrete inputs: a guest who asks for assistance at an occupied table.
use seatd_v.Base.{ℕ, ◌≡◌, ◌≤◌, refl, true, none, some, List, [], ◌∷◌, arith}
use seatd_v.Store.{
  Database, TableOccupancy, TableSession, AssistRequest, occupied, pending, resolved, Env, Outcome,
  ok, err, is_ok,
}
use seatd_v.Operations.Errors.{Error}
use seatd_v.Operations.Commands.{CommandReplay, Reply, start}
use seatd_v.Operations.Tables.{TableResult, clear_table_in_tx}
use seatd_v.Operations.Tables.Consistency.{IsConsistent, session_at, occupancy_at}
use seatd_v.Operations.Service.{Call, occupies, clear_table_command, run}
use seatd_v.Operations.Service.Consistency.{run-IsConsistent}
use seatd_v.Store.{acknowledged}
use seatd_v.Operations.Assists.{RequestAssistParams, ChangeAssistParams, requested}
use seatd_v.Operations.Assists.Graph.{◌⟶*◌, ended_resolved}
use seatd_v.Operations.Service.{acknowledges, resolves, cancels, requests, change_assist_command}
use seatd_v.Operations.Service.AssistHistory.{assist_at, run-assist, run-assist_terminal}
use seatd_v.Operations.Service.Announcement.{
  Announces, acknowledging, clear_table_command-Announces, change_assist_command-Announces,
}
use seatd_v.Operations.Tables.Consistency.{table_at}
use seatd_v.Operations.Tables.Freeing.{CanClear, clear_table_in_tx_succeeds}
use seatd_v.Operations.Samples.{
  calm, failing, later, table_key, table_one, free_table, restaurant, restaurant-IsConsistent,
  occupying, clearing, command, machine,
}
use seatd_v.Operations.Samples.{moment, no_reply, value_of, reply_of}

-- An assist requested at the occupied table, acknowledged and resolved.
abbrev request_params : RequestAssistParams
request_params = record { table = table_key; requested_by = "qr"; source = "guest_web"; note = "" }

abbrev change : ℕ → ChangeAssistParams
change version = record {
  assist = record { id = 200; organisation_id = 7; location_id = 8 };
  expected_version = version;
  actor_ref = "ana";
}

abbrev asked : Database
asked =
    run restaurant
      ((calm, occupies occupying (command 50) none) ∷ (later, requests request_params) ∷ [])

abbrev asked_assist : AssistRequest
asked_assist = requested request_params (some 100) none 200 2000

asked_stored : assist_at asked 200 ≡ some asked_assist
unfolding machine
asked_stored = refl

abbrev service : List (Env × Call)
service =
    (moment 3000, acknowledges (change 1) (command 60) none)
    ∷ (failing 3, resolves (change 2) (command 61) none)
    ∷ (moment 4000, resolves (change 2) (command 62) none)
    ∷ (moment 5000, cancels (change 3) (command 63) none)
    ∷ []

run-assist_example :
    (b : AssistRequest) × (assist_at (run asked service) 200 ≡ some b)
    × (pending ⟶* b.status)
    × (1 ≤ b.version)
    × (b.table_id ≡ 1)
run-assist_example = run-assist 200 asked_assist asked service asked_stored

abbrev served : Database
served = run asked service

abbrev served_assist : AssistRequest
served_assist = record asked_assist {
  status = resolved;
  acknowledged_at = some 3000;
  acknowledged_by = some "ana";
  resolved_at = some 4000;
  resolved_by = some "ana";
  version = 3;
  updated_at = 4000;
}

served_stored : assist_at served 200 ≡ some served_assist
unfolding machine
served_stored = refl

run-assist_terminal_example :
    (b : AssistRequest) × (assist_at (run served service) 200 ≡ some b) × (b.status ≡ resolved)
run-assist_terminal_example =
    run-assist_terminal 200 served_assist served service served_stored ended_resolved

-- What the table looks like when it is occupied.
abbrev taken_table : TableOccupancy
taken_table = record free_table {
  status = occupied;
  current_session_id = some 100;
  version = 2;
  updated_by = some "ana";
  updated_at = 1000;
}

taken : occupancy_at asked 1 ≡ some taken_table
unfolding machine
taken = refl

one_session : (k : ℕ) (s : TableSession) → session_at asked k ≡ some s → s.started_at ≤ 3000
unfolding machine
one_session k s h = ground arith

asked_tables : table_at asked 1 ≡ some table_one
unfolding machine
asked_tables = refl

asked-IsConsistent : IsConsistent asked
asked-IsConsistent =
    run-IsConsistent restaurant
      ((calm, occupies occupying (command 50) none) ∷ (later, requests request_params) ∷ [])
      restaurant-IsConsistent

can_clear : CanClear (moment 3000) (start asked) clearing
can_clear = record {
  no_faults = λ k. refl;
  consistent = asked-IsConsistent;
  table = table_one;
  has_table = asked_tables;
  live = refl;
  table_organisation = refl;
  table_location = refl;
  occupancy = taken_table;
  has_occupancy = taken;
  occupancy_organisation = refl;
  occupancy_location = refl;
  in_use = refl;
  seen = refl;
  in_range = omega arith;
  clock = one_session;
}

clear_table_in_tx_succeeds_example :
    is_ok (clear_table_in_tx clearing (moment 3000) (start asked)) ≡ true
clear_table_in_tx_succeeds_example =
    clear_table_in_tx_succeeds (moment 3000) (start asked) clearing can_clear

-- What the clearing and the acknowledgement return.
abbrev second : Outcome Error (Reply TableResult) × Database
second = clear_table_command clearing (command 51) none (moment 3000) asked

second_executes :
    clear_table_command clearing (command 51) none (moment 3000) asked
    ≡ (ok (some (value_of second.0), reply_of second.0), second.1)
unfolding machine
second_executes = refl

clear_table_command-Announces_example :
    Announces "table.cleared" "table" "operations.table" 7 8 1 3 "ana" asked second.1
clear_table_command-Announces_example =
    clear_table_command-Announces clearing (command 51) none (moment 3000) asked second.1
      (value_of second.0) (reply_of second.0) second_executes

abbrev third : Outcome Error (Reply AssistRequest) × Database
third = change_assist_command acknowledged (change 1) (command 60) none (moment 3000) asked

abbrev assist_of : Outcome Error (Reply AssistRequest) → AssistRequest
assist_of (ok (some v, r)) = v
assist_of (ok (none, r)) = asked_assist
assist_of (err e) = asked_assist

abbrev change_reply_of : Outcome Error (Reply AssistRequest) → CommandReplay
change_reply_of (ok (v, r)) = r
change_reply_of (err e) = no_reply

third_executes :
    change_assist_command acknowledged (change 1) (command 60) none (moment 3000) asked
    ≡ (ok (some (assist_of third.0), change_reply_of third.0), third.1)
unfolding machine
third_executes = refl

change_assist_command-Announces_example :
    Announces "assist.acknowledged" "assist" "operations.assist" 7 8 200 2 "ana" asked third.1
change_assist_command-Announces_example =
    change_assist_command-Announces acknowledged "assist.acknowledged" (change 1) (command 60) none
      (moment 3000) asked third.1 (assist_of third.0) (change_reply_of third.0) acknowledging
      third_executes
