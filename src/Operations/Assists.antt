-- ===== src/Operations/Assists.antt =====
-- Assist requests: the statements of internal/store/db/operations.sql.go on `assist_requests`, and
-- `RequestAssist`, `changeAssistInTx` and `validAssistTransition` of
-- internal/domain/operations/service.go.
pub mod Requested
pub mod Graph
pub mod Returns
use seatd_v.Base.{
  ℕ, ◌+◌, Bool, true, false, not, ◌&&◌, String, Option, none, some, ◌∷◌, ltb, ◌==◌, is_empty,
  find_row, has_row, update_rows,
}
use seatd_v.Store.{
  Database, AssistRequest, AssistStatus, pending, acknowledged, resolved, cancelled, max_int32,
  Action, Query, ◌>>=◌, ◌>>◌, pure, throw, rows, environment, write, new_id, issue, check, one,
  handle, refuse_if,
}
use seatd_v.Operations.Errors.{
  Error, not_found, version_conflict, stale_version, invalid_assist_transition,
  assist_already_resolved, wrapped, missing, locking_assist, changing_assist, creating_assist,
}
use seatd_v.Operations.Queries.{Key, is_table}
use seatd_v.Operations.Tables.{nullable_text, lock_occupancy}

abbrev pub is_pending : AssistStatus → Bool
is_pending pending = true
is_pending _ = false

abbrev pub is_resolved : AssistStatus → Bool
is_resolved resolved = true
is_resolved _ = false

-- status IN ('pending', 'acknowledged')
abbrev pub is_active : AssistStatus → Bool
is_active pending = true
is_active acknowledged = true
is_active _ = false

abbrev pub is_assist : Key → AssistRequest → Bool
is_assist key a =
    a.id == key.id && a.organisation_id == key.organisation_id && a.location_id == key.location_id

unfoldable pub lock_assist_request : Key → Query AssistRequest
lock_assist_request key = do issue; db ← rows; one (find_row (is_assist key) db.assists)

-- UPDATE assist_requests SET … WHERE … AND status … AND version = $5 RETURNING *
unfoldable pub update_assist :
    Key → ℕ → (AssistStatus → Bool) → (ℕ → AssistRequest → AssistRequest) → Query AssistRequest
update_assist key version allowed change = do
  issue
  db ← rows
  env ← environment
  let test = λ (a : AssistRequest). is_assist key a && allowed a.status && a.version == version
  a ← one (find_row test db.assists)
  check (ltb a.version max_int32)
  write (record db { assists = update_rows test (change env.now) db.assists })
  pure (change env.now a)

abbrev pub acknowledged_by_at : Option String → ℕ → AssistRequest → AssistRequest
acknowledged_by_at by now a = record a {
  status = acknowledged;
  acknowledged_at = some now;
  acknowledged_by = by;
  version = a.version + 1;
  updated_at = now;
}

abbrev pub resolved_by_at : Option String → ℕ → AssistRequest → AssistRequest
resolved_by_at by now a = record a {
  status = resolved;
  resolved_at = some now;
  resolved_by = by;
  version = a.version + 1;
  updated_at = now;
}

abbrev pub cancelled_by_at : Option String → ℕ → AssistRequest → AssistRequest
cancelled_by_at by now a = record a {
  status = cancelled;
  cancelled_at = some now;
  cancelled_by = by;
  version = a.version + 1;
  updated_at = now;
}

unfoldable pub acknowledge_assist_request : Key → Option String → ℕ → Query AssistRequest
unfolding update_assist
acknowledge_assist_request key by version =
    update_assist key version is_pending (acknowledged_by_at by)

unfoldable pub resolve_assist_request : Key → Option String → ℕ → Query AssistRequest
unfolding update_assist
resolve_assist_request key by version = update_assist key version is_active (resolved_by_at by)

unfoldable pub cancel_assist_request : Key → Option String → ℕ → Query AssistRequest
unfolding update_assist
cancel_assist_request key by version = update_assist key version is_active (cancelled_by_at by)

-- validAssistTransition: from the current status to the next one.
unfoldable pub valid_assist_transition : AssistStatus → AssistStatus → Bool
valid_assist_transition current acknowledged = is_pending current
valid_assist_transition current resolved = is_active current
valid_assist_transition current cancelled = is_active current
valid_assist_transition current pending = false

pub record ChangeAssistParams : Type 0 where
  pub assist : Key  -- AssistID, OrganisationID, LocationID
  pub expected_version : ℕ
  pub actor_ref : String

-- `switch nextStatus`
unfoldable pub change_status : AssistStatus → ChangeAssistParams → Action Error AssistRequest
unfolding acknowledge_assist_request resolve_assist_request cancel_assist_request nullable_text
change_status acknowledged arg =
    handle (missing version_conflict changing_assist)
      (acknowledge_assist_request arg.assist (nullable_text arg.actor_ref) arg.expected_version)
change_status resolved arg =
    handle (missing version_conflict changing_assist)
      (resolve_assist_request arg.assist (nullable_text arg.actor_ref) arg.expected_version)
change_status cancelled arg =
    handle (missing version_conflict changing_assist)
      (cancel_assist_request arg.assist (nullable_text arg.actor_ref) arg.expected_version)
change_status pending arg = throw invalid_assist_transition

unfoldable pub change_assist_in_tx : AssistStatus → ChangeAssistParams → Action Error AssistRequest
unfolding lock_assist_request valid_assist_transition change_status
change_assist_in_tx next arg = do
  current ← handle (missing not_found locking_assist) (lock_assist_request arg.assist)
  refuse_if (not (current.version == arg.expected_version))
      (stale_version "assist_request" arg.assist.id arg.expected_version current.version)
  refuse_if (is_resolved current.status && is_resolved next) assist_already_resolved
  refuse_if (not (valid_assist_transition current.status next)) invalid_assist_transition
  change_status next arg

pub record RequestAssistParams : Type 0 where
  pub table : Key  -- TableID, OrganisationID, LocationID
  pub requested_by : String
  pub source : String
  pub note : String

abbrev pub requested : RequestAssistParams → Option ℕ → Option String → ℕ → ℕ → AssistRequest
requested arg session action_key id now = record {
  id = id;
  organisation_id = arg.table.organisation_id;
  location_id = arg.table.location_id;
  table_id = arg.table.id;
  table_session_id = session;
  status = pending;
  requested_at = now;
  acknowledged_at = none;
  resolved_at = none;
  cancelled_at = none;
  requested_by = nullable_text arg.requested_by;
  acknowledged_by = none;
  resolved_by = none;
  cancelled_by = none;
  source = arg.source;
  note = nullable_text arg.note;
  version = 1;
  created_at = now;
  updated_at = now;
  action_key = action_key;
}

-- FOREIGN KEY (table_session_id)
abbrev pub names_session : Database → Option ℕ → Bool
names_session db none = true
names_session db (some id) = has_row (λ s. s.id == id) db.sessions

unfoldable pub create_assist_request :
    RequestAssistParams → Option ℕ → Option String → Query AssistRequest
create_assist_request arg session action_key = do
  issue
  db ← rows
  env ← environment
  id ← new_id
  check (not (has_row (λ a. a.id == id) db.assists))
  check (has_row (is_table arg.table) db.tables && names_session db session)
  check (not (is_empty arg.source))
  let assist = requested arg session action_key id env.now
  write (record db { assists = assist ∷ db.assists })
  pure assist

-- What RequestAssist runs before it writes its event.
unfoldable pub request_assist_in_tx : RequestAssistParams → Action Error AssistRequest
unfolding lock_occupancy create_assist_request
request_assist_in_tx arg = do
  occupancy ← lock_occupancy arg.table
  handle (wrapped creating_assist) (create_assist_request arg occupancy.current_session_id none)
