-- ===== src/Store/Events.antt =====
-- The operational events and the transactional outbox: internal/domain/events/events.go and the
-- tables `operational_events`, `outbox_records` and `consumer_event_records`.
use seatd_v.Base.{ℕ, ◌≡◌, refl, arith, Bool, true, false, ◌&&◌, ◌==◌, String, Option, List, [], ◌∷◌}

-- []byte
abbrev pub Bytes : Type 0
Bytes = List ℕ

-- bytes.Equal
abbrev pub bytes_equal : Bytes → Bytes → Bool
bytes_equal [] [] = true
bytes_equal [] (b ∷ bs) = false
bytes_equal (a ∷ as_) [] = false
bytes_equal (a ∷ as_) (b ∷ bs) = a == b && bytes_equal as_ bs

pub bytes_equal_refl : (bs : Bytes) → bytes_equal bs bs ≡ true
bytes_equal_refl [] = refl
bytes_equal_refl (b ∷ bs) = ground (arith, bytes_equal_refl bs)

-- A value of `events.Data`, a map from text to any: what the operations put there.
pub data DataValue : Type 0 where
  text : String → DataValue
  uuid : ℕ → DataValue
  number : ℕ → DataValue
  null : DataValue

abbrev pub Data : Type 0
Data = List (String × DataValue)

-- const SchemaVersion
abbrev pub schema_version : ℕ
schema_version = 1

pub record Envelope : Type 0 where
  pub id : ℕ
  pub kind : String  -- Type
  pub schema : ℕ  -- SchemaVersion
  pub occurred_at : ℕ
  pub organisation_id : ℕ
  pub location_id : ℕ
  pub actor_ref : String
  pub device_id : Option ℕ
  pub entity_type : String
  pub entity_id : ℕ
  pub entity_version : Option ℕ
  pub command_id : Option ℕ
  pub correlation_id : Option ℕ
  pub traceparent : String
  pub tracestate : String
  pub content : Bytes  -- Data

-- `operational_events`; the columns `aggregate_*` repeat `entity_*`.
pub record EventRow : Type 0 where
  pub id : ℕ
  pub organisation_id : ℕ
  pub location_id : ℕ
  pub event_type : String
  pub schema : ℕ
  pub entity_type : String
  pub entity_id : ℕ
  pub entity_version : ℕ
  pub actor_ref : String
  pub device_id : Option ℕ
  pub command_id : Option ℕ
  pub event_data : Bytes
  pub payload : Bytes
  pub occurred_at : ℕ

-- CHECK (status IN ('pending', 'processing', 'processed', 'failed'))
pub data OutboxStatus : Type 0 where
  waiting processing processed failed : OutboxStatus

pub record OutboxRow : Type 0 where
  pub id : ℕ
  pub organisation_id : ℕ
  pub location_id : ℕ
  pub event_id : ℕ
  pub topic : String
  pub destination : String
  pub payload : Bytes
  pub status : OutboxStatus
  pub attempts : ℕ
  pub available_at : ℕ
  pub locked_at : Option ℕ
  pub locked_by : Option String
  pub processed_at : Option ℕ
  pub last_error : Option String
  pub created_at : ℕ
  pub updated_at : ℕ

-- PRIMARY KEY (consumer_name, event_id); the status is never 'pending' here.
pub record ConsumerRow : Type 0 where
  pub consumer_name : String
  pub event_id : ℕ
  pub outbox_record_id : ℕ
  pub status : OutboxStatus
  pub processed_at : Option ℕ
  pub last_error : Option String
