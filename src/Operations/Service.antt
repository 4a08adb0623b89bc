-- ===== src/Operations/Service.antt =====
-- The exported commands of internal/domain/operations/service.go, each with its event, and the
-- service as a step on the committed rows. Tracing spans are left out.
pub mod Frame
pub mod Consistency
pub mod AssistHistory
pub mod Emission
pub mod Announcement
use seatd_v.Base.{ℕ, String, Option, none, some, List, [], ◌∷◌, if◌then◌else◌, ◌==◌, is_empty}
use seatd_v.Store.{
  Database, AssistRequest, AssistStatus, TableStatus, available, occupied, pending, acknowledged,
  resolved, cancelled, Data, DataValue, text, uuid, number, null, Env, Outcome, ◌>>=◌, ◌>>◌, pure,
}
use seatd_v.Operations.Errors.{Error}
use seatd_v.Operations.Queries.{Key}
use seatd_v.Operations.Events.{OperationalEvent, operation_destinations, write_operational_event}
use seatd_v.Operations.Commands.{
  Caller, CommandMeta, Response, Reply, run_tenant_command, in_tenant_tx,
}
use seatd_v.Operations.Tables.{
  OccupyTableParams, ClearTableParams, TableResult, occupy_table_in_tx, clear_table_in_tx,
}
use seatd_v.Operations.Assists.{
  ChangeAssistParams, RequestAssistParams, change_assist_in_tx, request_assist_in_tx,
}

-- nullableUUID
abbrev pub nullable_uuid : ℕ → Option ℕ
nullable_uuid value = if value == 0 then none else some value

-- nullableString
abbrev pub nullable_string : String → DataValue
nullable_string value = if is_empty value then null else text value

-- intPtr
abbrev pub int_ptr : Option ℕ → DataValue
int_ptr none = null
int_ptr (some n) = number n

abbrev pub table_status : TableStatus → String
table_status available = "available"
table_status occupied = "occupied"

abbrev pub assist_status : AssistStatus → String
assist_status pending = "pending"
assist_status acknowledged = "acknowledged"
assist_status resolved = "resolved"
assist_status cancelled = "cancelled"

abbrev pub caller_of : Key → String → Caller
caller_of key actor = record {
  organisation_id = key.organisation_id;
  location_id = key.location_id;
  actor_ref = actor;
}

abbrev pub table_event : String → Key → TableResult → String → CommandMeta → Data → OperationalEvent
table_event kind key result actor meta content = record {
  organisation_id = key.organisation_id;
  location_id = key.location_id;
  event_type = kind;
  entity_type = "table";
  entity_id = key.id;
  entity_version = result.occupancy.version;
  actor_ref = actor;
  device_id = meta.device_id;
  command_id = nullable_uuid meta.id;
  topic = "operations.table";
  destinations = operation_destinations;
  content = content;
}

abbrev pub table_data : Key → TableResult → Data
table_data key result =
    ("tableId", uuid key.id)
    ∷ ("sessionId", uuid result.session.id)
    ∷ ("status", text (table_status result.occupancy.status))
    ∷ []

abbrev pub occupied_event : OccupyTableParams → CommandMeta → TableResult → OperationalEvent
occupied_event arg meta result =
    table_event "table.occupied" arg.table result arg.actor_ref meta
      (("partySize", int_ptr arg.party_size) ∷ table_data arg.table result)

abbrev pub cleared_event : ClearTableParams → CommandMeta → TableResult → OperationalEvent
cleared_event arg meta result =
    table_event "table.cleared" arg.table result arg.actor_ref meta (table_data arg.table result)

abbrev pub Encoder : Type 0 → Type 0
Encoder T = Option (T → Option Response)

unfoldable pub occupy_table_command :
    OccupyTableParams
    → CommandMeta
    → Encoder TableResult
    → Env
    → Database
    → Outcome Error (Reply TableResult) × Database
unfolding run_tenant_command
occupy_table_command arg meta encode =
    run_tenant_command (caller_of arg.table arg.actor_ref) meta (occupy_table_in_tx arg)
      (λ result. write_operational_event (occupied_event arg meta result)) encode

unfoldable pub clear_table_command :
    ClearTableParams
    → CommandMeta
    → Encoder TableResult
    → Env
    → Database
    → Outcome Error (Reply TableResult) × Database
unfolding run_tenant_command
clear_table_command arg meta encode =
    run_tenant_command (caller_of arg.table arg.actor_ref) meta (clear_table_in_tx arg)
      (λ result. write_operational_event (cleared_event arg meta result)) encode

-- The event types that AcknowledgeAssistCommand and its siblings give.
abbrev pub assist_event_type : AssistStatus → String
assist_event_type pending = "assist.requested"
assist_event_type acknowledged = "assist.acknowledged"
assist_event_type resolved = "assist.resolved"
assist_event_type cancelled = "assist.cancelled"

abbrev pub changed_event :
    AssistStatus → ChangeAssistParams → CommandMeta → AssistRequest → OperationalEvent
changed_event next arg meta assist = record {
  organisation_id = arg.assist.organisation_id;
  location_id = arg.assist.location_id;
  event_type = assist_event_type next;
  entity_type = "assist";
  entity_id = arg.assist.id;
  entity_version = assist.version;
  actor_ref = arg.actor_ref;
  device_id = meta.device_id;
  command_id = nullable_uuid meta.id;
  topic = "operations.assist";
  destinations = operation_destinations;
  content =
      ("assistId", uuid arg.assist.id)
      ∷ ("tableId", uuid assist.table_id)
      ∷ ("status", text (assist_status assist.status))
      ∷ [];
}

-- changeAssistCommand
unfoldable pub change_assist_command :
    AssistStatus
    → ChangeAssistParams
    → CommandMeta
    → Encoder AssistRequest
    → Env
    → Database
    → Outcome Error (Reply AssistRequest) × Database
unfolding run_tenant_command
change_assist_command next arg meta encode =
    run_tenant_command (caller_of arg.assist arg.actor_ref) meta (change_assist_in_tx next arg)
      (λ assist. write_operational_event (changed_event next arg meta assist)) encode

abbrev pub requested_event : RequestAssistParams → AssistRequest → OperationalEvent
requested_event arg assist = record {
  organisation_id = arg.table.organisation_id;
  location_id = arg.table.location_id;
  event_type = "assist.requested";
  entity_type = "assist";
  entity_id = assist.id;
  entity_version = assist.version;
  actor_ref = arg.requested_by;
  device_id = none;
  command_id = none;
  topic = "operations.assist";
  destinations = operation_destinations;
  content =
      ("assistId", uuid assist.id)
      ∷ ("tableId", uuid arg.table.id)
      ∷ ("status", text (assist_status assist.status))
      ∷ ("source", text arg.source)
      ∷ ("note", nullable_string arg.note)
      ∷ [];
}

-- RequestAssist
unfoldable pub request_assist :
    RequestAssistParams → Env → Database → Outcome Error AssistRequest × Database
unfolding in_tenant_tx
request_assist arg = in_tenant_tx do
  assist ← request_assist_in_tx arg
  write_operational_event (requested_event arg assist)
  pure assist

-- A call of the service. AcknowledgeAssistCommand, ResolveAssistCommand and CancelAssistCommand
-- change an assist to `acknowledged`, `resolved` and `cancelled`.
pub data Call : Type 0 where
  occupies : OccupyTableParams → CommandMeta → Encoder TableResult → Call
  clears : ClearTableParams → CommandMeta → Encoder TableResult → Call
  acknowledges resolves cancels : ChangeAssistParams → CommandMeta → Encoder AssistRequest → Call
  requests : RequestAssistParams → Call

-- The rows after a call; transactions on the same rows run one after the other.
unfoldable pub step : Database → Env × Call → Database
step db (env, occupies arg meta encode) = (occupy_table_command arg meta encode env db).1
step db (env, clears arg meta encode) = (clear_table_command arg meta encode env db).1
step db (env, acknowledges arg meta encode) =
    (change_assist_command acknowledged arg meta encode env db).1
step db (env, resolves arg meta encode) = (change_assist_command resolved arg meta encode env db).1
step db (env, cancels arg meta encode) = (change_assist_command cancelled arg meta encode env db).1
step db (env, requests arg) = (request_assist arg env db).1

unfoldable pub run : Database → List (Env × Call) → Database
run db [] = db
run db (c ∷ cs) = run (step db c) cs
