-- ===== src/Operations/Events.antt =====
-- `writeOperationalEvent` of internal/domain/operations/service.go: the event row and its outbox rows
-- are written in the transaction of the command. The foreign keys to organisations, locations and
-- devices, whose tables the operations never change, are left out.
pub mod Effects
use seatd_v.Base.{
  ℕ, not, ◌&&◌, String, Option, none, some, List, [], ◌∷◌, if◌then◌else◌, leb, ◌==◌, is_empty,
  has_row,
}
use seatd_v.Store.{
  Bytes, Data, Envelope, EventRow, OutboxRow, waiting, schema_version, Action, Query, ◌>>=◌, ◌>>◌,
  pure, throw, rows, environment, write, new_id, issue, check, handle, require,
}
use seatd_v.Operations.Errors.{
  Error, Context, encoding, wrapped, encoding_data, encoding_envelope, writing_event,
  writing_outbox,
}

pub record OperationalEvent : Type 0 where
  pub organisation_id : ℕ
  pub location_id : ℕ
  pub event_type : String
  pub entity_type : String
  pub entity_id : ℕ
  pub entity_version : ℕ
  pub actor_ref : String
  pub device_id : Option ℕ
  pub command_id : Option ℕ
  pub topic : String
  pub destinations : List String
  pub content : Data

-- operationDestinations
abbrev pub operation_destinations : List String
operation_destinations = "realtime.operations" ∷ "analytics.operations" ∷ "audit.operations" ∷ []

abbrev pub or_default : String → String → String
or_default value default = if is_empty value then default else value

abbrev pub or_topic : List String → String → List String
or_topic [] topic = topic ∷ []
or_topic (d ∷ ds) topic = d ∷ ds

-- json.Marshal, or its error
abbrev pub encoded : {A : Type 0} → Option A → Context → Action Error A
encoded none c = throw (encoding c)
encoded (some a) c = pure a

-- A text that the column's type jsonb and its CHECK (jsonb_typeof(…) = 'object') admit, as stored.
abbrev pub as_jsonb : Bytes → Query Bytes
as_jsonb text = do env ← environment; require (env.to_jsonb text)

abbrev pub envelope_of : OperationalEvent → Bytes → ℕ → ℕ → String → String → Envelope
envelope_of event content id now traceparent tracestate = record {
  id = id;
  kind = event.event_type;
  schema = schema_version;
  occurred_at = now;
  organisation_id = event.organisation_id;
  location_id = event.location_id;
  actor_ref = or_default event.actor_ref "system";
  device_id = event.device_id;
  entity_type = event.entity_type;
  entity_id = event.entity_id;
  entity_version = some event.entity_version;
  command_id = event.command_id;
  correlation_id = event.command_id;
  traceparent = traceparent;
  tracestate = tracestate;
  content = content;
}

abbrev pub event_row : OperationalEvent → ℕ → ℕ → Bytes → Bytes → EventRow
event_row event id now content payload = record {
  id = id;
  organisation_id = event.organisation_id;
  location_id = event.location_id;
  event_type = event.event_type;
  schema = schema_version;
  entity_type = event.entity_type;
  entity_id = event.entity_id;
  entity_version = event.entity_version;
  actor_ref = or_default event.actor_ref "system";
  device_id = event.device_id;
  command_id = event.command_id;
  event_data = content;
  payload = payload;
  occurred_at = now;
}

-- INSERT INTO operational_events
unfoldable pub insert_event : OperationalEvent → ℕ → ℕ → Bytes → Bytes → Query (Unit {0})
insert_event event id now content payload = do
  issue
  db ← rows
  check (not (has_row (λ e. e.id == id) db.events))
  check (not (is_empty event.event_type) && not (is_empty event.entity_type))
  check (leb 1 event.entity_version)
  stored_content ← as_jsonb content
  stored_payload ← as_jsonb payload
  write (record db { events = event_row event id now stored_content stored_payload ∷ db.events })

abbrev pub outbox_row : OperationalEvent → ℕ → String → String → Bytes → ℕ → ℕ → OutboxRow
outbox_row event event_id topic destination payload id now = record {
  id = id;
  organisation_id = event.organisation_id;
  location_id = event.location_id;
  event_id = event_id;
  topic = topic;
  destination = destination;
  payload = payload;
  status = waiting;
  attempts = 0;
  available_at = now;
  locked_at = none;
  locked_by = none;
  processed_at = none;
  last_error = none;
  created_at = now;
  updated_at = now;
}

-- INSERT INTO outbox_records; the other columns take their defaults.
unfoldable pub insert_outbox : OperationalEvent → ℕ → String → String → Bytes → Query (Unit {0})
insert_outbox event event_id topic destination payload = do
  issue
  db ← rows
  env ← environment
  id ← new_id
  check (not (has_row (λ o. o.id == id) db.outbox))
  check (has_row (λ e. e.id == event_id) db.events)
  check (not (is_empty topic) && not (is_empty destination))
  stored ← as_jsonb payload
  write (record db {
    outbox = outbox_row event event_id topic destination stored id env.now ∷ db.outbox;
  })

-- for _, destination := range destinations
unfoldable pub write_outbox :
    OperationalEvent → ℕ → String → List String → Bytes → Action Error (Unit {0})
write_outbox event event_id topic [] payload = pure tt
write_outbox event event_id topic (d ∷ ds) payload = do
  handle (wrapped writing_outbox) (insert_outbox event event_id topic d payload)
  write_outbox event event_id topic ds payload

unfoldable pub write_operational_event : OperationalEvent → Action Error (Unit {0})
write_operational_event event = do
  env ← environment
  content ← encoded (env.encode_data event.content) encoding_data
  id ← new_id
  payload ←
      encoded
        (env.encode_envelope (envelope_of event content id env.wall env.traceparent env.tracestate))
        encoding_envelope
  handle (wrapped writing_event) (insert_event event id env.wall content payload)
  write_outbox event id (or_default event.topic event.entity_type)
      (or_topic event.destinations (or_default event.topic event.entity_type)) payload
