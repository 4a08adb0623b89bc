-- ===== src/Store/Schema.antt =====
-- The rows that the operations service reads and writes (internal/store/db/models.go), with the
-- columns' types and CHECK constraints of infra/database/migrations. A uuid is a number, and
-- `uuid.Nil` is 0; a nullable column is an `Option`; times are microseconds; the version columns
-- are int4 with CHECK (version >= 1).
use seatd_v.Base.{ℕ, Bool, String, Option, List}
use seatd_v.Store.Events.{Bytes, EventRow, OutboxRow, ConsumerRow}

-- CHECK (status IN ('available', 'occupied'))
pub data TableStatus : Type 0 where
  available occupied : TableStatus

-- CHECK (status IN ('pending', 'acknowledged', 'resolved', 'cancelled'))
pub data AssistStatus : Type 0 where
  pending acknowledged resolved cancelled : AssistStatus

-- `tables`, without the columns of the floor plan (floor, zone, capacity, shape, geometry), which
-- the operations only copy into their result.
pub record TableRow : Type 0 where
  pub id : ℕ
  pub organisation_id : ℕ
  pub location_id : ℕ
  pub label : String
  pub is_active : Bool
  pub deleted_at : Option ℕ
  pub version : ℕ

pub record TableOccupancy : Type 0 where
  pub table_id : ℕ
  pub organisation_id : ℕ
  pub location_id : ℕ
  pub status : TableStatus
  pub current_session_id : Option ℕ
  pub version : ℕ
  pub updated_by : Option String
  pub updated_at : ℕ
  pub created_at : ℕ

pub record TableSession : Type 0 where
  pub id : ℕ
  pub organisation_id : ℕ
  pub location_id : ℕ
  pub table_id : ℕ
  pub started_at : ℕ
  pub ended_at : Option ℕ
  pub party_size : Option ℕ
  pub opened_by : Option String
  pub closed_by : Option String
  pub source : String
  pub created_at : ℕ
  pub updated_at : ℕ

pub record AssistRequest : Type 0 where
  pub id : ℕ
  pub organisation_id : ℕ
  pub location_id : ℕ
  pub table_id : ℕ
  pub table_session_id : Option ℕ
  pub status : AssistStatus
  pub requested_at : ℕ
  pub acknowledged_at : Option ℕ
  pub resolved_at : Option ℕ
  pub cancelled_at : Option ℕ
  pub requested_by : Option String
  pub acknowledged_by : Option String
  pub resolved_by : Option String
  pub cancelled_by : Option String
  pub source : String
  pub note : Option String
  pub version : ℕ
  pub created_at : ℕ
  pub updated_at : ℕ
  pub action_key : Option String

pub record IdempotencyRow : Type 0 where
  pub command_id : ℕ
  pub organisation_id : ℕ
  pub location_id : ℕ
  pub command_type : String
  pub payload_hash : Bytes
  pub response_status : ℕ
  pub response_body : Bytes
  pub created_at : ℕ
  pub expires_at : ℕ

pub record Database : Type 0 where
  pub tables : List TableRow
  pub occupancies : List TableOccupancy
  pub sessions : List TableSession
  pub assists : List AssistRequest
  pub idempotency : List IdempotencyRow
  pub events : List EventRow
  pub outbox : List OutboxRow
  pub consumed : List ConsumerRow

-- The largest int4.
abbrev pub max_int32 : ℕ
max_int32 = 2147483647
