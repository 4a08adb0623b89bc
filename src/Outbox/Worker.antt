-- ===== src/Outbox/Worker.antt =====
-- The worker of internal/outbox/outbox.go on one claimed record: `processRecord`, `handleConsumer`,
-- `retryOrFail` and the statements that they send. Spans, metrics, logs and the texts of errors are left out, and so is
-- the failure of a rollback, which is joined to an error that nothing takes apart.
pub mod Settled
pub mod Frame
pub mod Delivery
pub mod Ending
use seatd_v.Base.{
  ℕ, Bool, true, false, not, ◌&&◌, String, Option, none, some, List, [], ◌∷◌, leb, ◌==◌, str_eq,
  if◌then◌else◌, is_empty, find_row, has_row, update_rows, length,
}
use seatd_v.Store.{
  Envelope, Database, OutboxRow, ConsumerRow, OutboxStatus, waiting, processing, processed, failed,
  Outcome, ok, err,
}
use seatd_v.Outbox.Backoff.{Backoff, backoff, add_duration, whole_of}
use seatd_v.Outbox.Steps.{
  Error, violation, decoding, handling, Connection, World, Step, ◌>>=◌, ◌>>◌, pure, throw, rows,
  described, send, commit, admin_exec,
}

-- Handle of a consumer: what it returns at its n-th call, an error by its text.
pub record Consumer : Type 0 where
  pub name : String
  pub handle : ℕ → Envelope → Option String

pub record Worker : Type 0 where
  pub consumer_map : String → List Consumer
  pub max_attempts : ℕ
  pub backoff : Backoff

abbrev pub change_record : ℕ → (OutboxRow → OutboxRow) → Database → Database
change_record id f db = record db { outbox = update_rows (λ o. o.id == id) f db.outbox }

abbrev pub is_consumption : String → ℕ → ConsumerRow → Bool
is_consumption name event_id r = str_eq r.consumer_name name && r.event_id == event_id

abbrev pub change_consumption : String → ℕ → (ConsumerRow → ConsumerRow) → Database → Database
change_consumption name event_id f db = record db {
  consumed = update_rows (is_consumption name event_id) f db.consumed;
}

abbrev pub processed_at : ℕ → OutboxRow → OutboxRow
processed_at t o = record o {
  status = processed;
  processed_at = some t;
  locked_at = none;
  locked_by = none;
  updated_at = t;
}

abbrev pub retried_at : ℕ → ℕ → String → OutboxRow → OutboxRow
retried_at t available_at cause o = record o {
  status = waiting;
  available_at = available_at;
  locked_at = none;
  locked_by = none;
  last_error = some cause;
  updated_at = t;
}

abbrev pub failed_at : ℕ → String → OutboxRow → OutboxRow
failed_at t cause o = record o {
  status = failed;
  locked_at = none;
  locked_by = none;
  last_error = some cause;
  updated_at = t;
}

unfoldable pub mark_processed : OutboxRow → Step (Unit {0})
unfolding admin_exec
mark_processed o = admin_exec (λ t. change_record o.id (processed_at t))

abbrev pub consumption_processed : ℕ → ConsumerRow → ConsumerRow
consumption_processed t r = record r {
  status = processed;
  processed_at = some t;
  last_error = none;
}

abbrev pub consumption_failed : String → ConsumerRow → ConsumerRow
consumption_failed cause r = record r { status = failed; last_error = some cause }

unfoldable pub mark_consumer_processed : String → ℕ → Step (Unit {0})
unfolding admin_exec
mark_consumer_processed name event_id =
    admin_exec (λ t. change_consumption name event_id (consumption_processed t))

unfoldable pub mark_consumer_failed : String → ℕ → String → Step (Unit {0})
unfolding admin_exec
mark_consumer_failed name event_id cause =
    admin_exec (λ t. change_consumption name event_id (consumption_failed cause))

-- INSERT … ON CONFLICT DO NOTHING: the new row
abbrev pub started : String → OutboxRow → ConsumerRow
started name o = record {
  consumer_name = name;
  event_id = o.event_id;
  outbox_record_id = o.id;
  status = processing;
  processed_at = none;
  last_error = none;
}

-- CHECK (consumer_name <> '') and the foreign keys to the event and the record
abbrev pub is_startable : String → OutboxRow → Database → Bool
is_startable name o db =
    not (is_empty name)
    && has_row (λ e. e.id == o.event_id) db.events
    && has_row (λ r. r.id == o.id) db.outbox

abbrev pub is_processed : OutboxStatus → Bool
is_processed processed = true
is_processed _ = false

-- The row that is there: a second statement reads its status, and COMMIT ends the transaction.
unfoldable pub resume_consumer : ConsumerRow → Step Bool
unfolding send
resume_consumer r = do send; send; pure (is_processed r.status)

unfoldable pub insert_consumer : String → OutboxRow → Step Bool
unfolding commit
insert_consumer name o = do
  db ← rows
  if is_startable name o db
      then commit (record db { consumed = started name o ∷ db.consumed })
      else throw violation
  pure false

unfoldable pub start_or_resume : String → OutboxRow → Option ConsumerRow → Step Bool
unfolding resume_consumer insert_consumer
start_or_resume name o none = insert_consumer name o
start_or_resume name o (some r) = resume_consumer r

-- The transaction before the consumer is called: whether it is to be skipped.
unfoldable pub begin_consumer : String → OutboxRow → Step Bool
unfolding send start_or_resume
begin_consumer name o = do
  send
  send
  send
  db ← rows
  start_or_resume name o (find_row (is_consumption name o.event_id) db.consumed)

abbrev pub call : Consumer → OutboxRow → Envelope → Step (Option String)
call consumer o event c w = (
  ok (consumer.handle (length w.handled) event),
  record w {
    handled =
        record {
          consumer = consumer.name;
          event_id = o.event_id;
          failure = consumer.handle (length w.handled) event;
        }
        ∷ w.handled;
  },
)

-- `_ = …`
abbrev pub ignore : Step (Unit {0}) → Step (Unit {0})
ignore m c w = (ok tt, (m c w).1)

unfoldable pub end_consumer : String → OutboxRow → Option String → Step (Unit {0})
unfolding mark_consumer_processed mark_consumer_failed
end_consumer name o none = mark_consumer_processed name o.event_id
end_consumer name o (some cause) = do
  ignore (mark_consumer_failed name o.event_id cause)
  throw (handling name o.event_id cause)

unfoldable pub handle_consumer : OutboxRow → Envelope → Consumer → Step (Unit {0})
unfolding begin_consumer end_consumer
handle_consumer o event consumer = do
  skip ← begin_consumer consumer.name o
  if skip then pure tt else do result ← call consumer o event; end_consumer consumer.name o result

unfoldable pub handle_consumers : OutboxRow → Envelope → List Consumer → Step (Unit {0})
unfolding handle_consumer
handle_consumers o event [] = pure tt
handle_consumers o event (consumer ∷ consumers) = do
  handle_consumer o event consumer
  handle_consumers o event consumers

unfoldable pub mark_failed : OutboxRow → Error → Step (Unit {0})
unfolding admin_exec
mark_failed o cause = do
  text ← described cause
  admin_exec (λ t. change_record o.id (failed_at t text))
  throw cause

unfoldable pub schedule_retry : Worker → OutboxRow → Error → Step (Unit {0})
unfolding admin_exec backoff
schedule_retry worker o cause = do
  text ← described cause
  admin_exec (λ t.
      change_record o.id
        (retried_at t (add_duration t (whole_of 1000000 (backoff worker.backoff o.attempts))) text))
  throw cause

unfoldable pub retry_or_fail : Worker → OutboxRow → Error → Step (Unit {0})
unfolding mark_failed schedule_retry
retry_or_fail worker o cause =
    if leb worker.max_attempts o.attempts
    then mark_failed o cause
    else schedule_retry worker o cause

-- The consumers of the destination, or of the topic where the destination has none.
abbrev pub or_of_topic : List Consumer → List Consumer → List Consumer
or_of_topic [] of_topic = of_topic
or_of_topic (c ∷ cs) of_topic = c ∷ cs

abbrev pub consumers_of : Worker → OutboxRow → List Consumer
consumers_of worker o =
    or_of_topic (worker.consumer_map o.destination) (worker.consumer_map o.topic)

-- `if err != nil { return … }` and what follows it
abbrev pub settled :
    Outcome Error (Unit {0}) × World
    → (Error → Step (Unit {0}))
    → Step (Unit {0})
    → Connection
    → Outcome Error (Unit {0}) × World
settled (ok v, w) on_error done c = done c w
settled (err e, w) on_error done c = on_error e c w

unfoldable pub deliver : Worker → OutboxRow → Envelope → Step (Unit {0})
unfolding handle_consumers retry_or_fail mark_processed
deliver worker o event c w =
    settled (handle_consumers o event (consumers_of worker o) c w) (retry_or_fail worker o)
      (mark_processed o) c

abbrev pub process_decoded : Worker → OutboxRow → Option Envelope → Step (Unit {0})
process_decoded worker o none = mark_failed o decoding
process_decoded worker o (some event) = deliver worker o event

unfoldable pub process_record : Worker → OutboxRow → Step (Unit {0})
unfolding deliver mark_failed
process_record worker o c w = process_decoded worker o (c.decode o.payload) c w
