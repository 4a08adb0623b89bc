-- ===== src/Outbox/Scenarios.antt =====
-- A record that a worker processes twice: its second consumer fails at first.
use seatd_v.Base.{
  ℕ, ◌≡◌, ◌≤◌, ◌+◌, refl, true, false, Option, none, some, List, [], ◌∷◌, All, arith, find_row,
  update_rows, ◌==◌, if◌then◌else◌,
}
use seatd_v.Store.{
  EventRow, OutboxRow, ConsumerRow, Envelope, Outcome, ok, waiting, processing, processed, failed,
}
use seatd_v.Outbox.Backoff.{backoff, scaled, to_float, forth, back, max_int64, backoff_monotone}
use seatd_v.Outbox.Steps.{Connection, World, Error, send, commit, admin_exec}
use seatd_v.Outbox.Worker.{
  Worker, process_record, deliver, handle_consumers, handle_consumer, begin_consumer,
  start_or_resume, resume_consumer, insert_consumer, end_consumer, mark_consumer_processed,
  mark_consumer_failed, mark_processed, mark_failed, retry_or_fail, schedule_retry, consumers_of,
  is_consumption, is_processed,
}
use seatd_v.Outbox.Worker.Settled.{IsSettled, calls}
use seatd_v.Outbox.Pool.{Job, beginning, ending, Turn, moves, starts, run, turn, move_at, move}
use seatd_v.Outbox.Pool.Settled.{run-IsSettled}
use seatd_v.Outbox.Worker.Delivery.{process_record_returns}
use seatd_v.Outbox.Worker.Ending.{Ends, record_at, process_record-Ends}

abbrev claimed : OutboxRow
claimed = record {
  id = 4;
  organisation_id = 7;
  location_id = 8;
  event_id = 9;
  topic = "operations.table";
  destination = "realtime.operations";
  payload = [];
  status = processing;
  attempts = 1;
  available_at = 10;
  locked_at = some 50;
  locked_by = some "worker-a";
  processed_at = none;
  last_error = none;
  created_at = 10;
  updated_at = 50;
}

abbrev event_row : EventRow
event_row = record {
  id = 9;
  organisation_id = 7;
  location_id = 8;
  event_type = "table.occupied";
  schema = 1;
  entity_type = "table";
  entity_id = 1;
  entity_version = 2;
  actor_ref = "ana";
  device_id = none;
  command_id = none;
  event_data = [];
  payload = [];
  occurred_at = 5;
}

abbrev envelope : Envelope
envelope = record {
  id = 9;
  kind = "table.occupied";
  schema = 1;
  occurred_at = 5;
  organisation_id = 7;
  location_id = 8;
  actor_ref = "ana";
  device_id = none;
  entity_type = "table";
  entity_id = 1;
  entity_version = some 2;
  command_id = none;
  correlation_id = none;
  traceparent = "";
  tracestate = "";
  content = [];
}

abbrev start : World
start = record {
  db = record {
    tables = [];
    occupancies = [];
    sessions = [];
    assists = [];
    idempotency = [];
    events = event_row ∷ [];
    outbox = claimed ∷ [];
    consumed = [];
  };
  sent = 0;
  handled = [];
}

-- The projector succeeds; the publisher fails at its first call, the second of all.
abbrev worker : Worker
worker = record {
  consumer_map = λ d.
      record { name = "projector"; handle = λ n e. none }
      ∷ record { name = "publisher"; handle = λ n e. if n == 1 then some "no route" else none }
      ∷ [];
  max_attempts = 8;
  backoff = record { base = 1000000000; limit = 60000000000; overflowed = λ n. back max_int64 };
}

abbrev line : Connection
line = record {
  clock = λ n. 100 + n;
  faults = λ n. false;
  commit_applied = false;
  decode = λ b. some envelope;
  describe = λ e. "failed";
}

machine : Unit {0}
unfolding process_record deliver handle_consumers handle_consumer begin_consumer start_or_resume
    resume_consumer insert_consumer end_consumer mark_consumer_processed mark_consumer_failed
    mark_processed mark_failed retry_or_fail schedule_retry send commit admin_exec backoff scaled
    to_float find_row update_rows calls
machine = tt

abbrev after_one : World
after_one = (process_record worker claimed line start).1

first-IsSettled : IsSettled "projector" 9 1 after_one.db after_one.handled
unfolding machine
first-IsSettled = record {
  row = record {
    consumer_name = "projector";
    event_id = 9;
    outbox_record_id = 4;
    status = processed;
    processed_at = some 104;
    last_error = none;
  };
  stored = refl;
  done = refl;
  count = refl;
}

-- Two goroutines take the record again, one of them started before; the consumer that has processed the event
-- is skipped, the other one is called.
abbrev job : Job
job = record {
  worker = worker;
  claimed = claimed;
  connection = line;
  stage = beginning envelope (consumers_of worker claimed);
}

abbrev turns : List Turn
turns =
    starts worker claimed line
    ∷ moves 0
    ∷ moves 1
    ∷ moves 0
    ∷ moves 1
    ∷ moves 1
    ∷ moves 1
    ∷ moves 0
    ∷ moves 0
    ∷ moves 1
    ∷ []

run-IsSettled_example :
    IsSettled "projector" 9 1
      (run turns (job ∷ [], after_one)).1.db
      (run turns (job ∷ [], after_one)).1.handled
run-IsSettled_example =
    run-IsSettled "projector" 9 1 turns (job ∷ []) after_one (tt, tt) first-IsSettled

-- A goroutine that is between the two transactions overwrites what another one has processed.
abbrev late : Job
late = record job {
  stage = ending envelope (record { name = "projector"; handle = λ n e. none }) (some "timeout") [];
}

overwritten :
    find_row
      (is_consumption "projector" 9)
      (run (moves 0 ∷ []) (late ∷ [], after_one)).1.db.consumed
    ≡ some (record {
      consumer_name = "projector";
      event_id = 9;
      outbox_record_id = 4;
      status = failed;
      processed_at = some 104;
      last_error = some "timeout";
    })
unfolding machine run turn move_at move
overwritten = refl

abbrev retried : OutboxRow
retried = record claimed {
  status = waiting;
  available_at = 1000116;
  locked_at = none;
  locked_by = none;
  last_error = some "failed";
  updated_at = 116;
}

waiting_again : record_at after_one.db 4 ≡ some retried
unfolding machine
waiting_again = refl

abbrev second : Outcome Error (Unit {0}) × World
second = process_record worker claimed line after_one

second_returns : process_record worker claimed line after_one ≡ (ok tt, second.1)
unfolding machine
second_returns = refl

process_record_returns_example :
    (event : Envelope) × (◌≡◌ {A = Option Envelope} (some envelope) (some event))
    × All
        (λ k.
          (r : ConsumerRow) × (find_row (is_consumption k.name 9) second.1.db.consumed ≡ some r)
          × (is_processed r.status ≡ true))
        (consumers_of worker claimed)
process_record_returns_example =
    process_record_returns worker claimed line after_one second.1 second_returns

start_stored : record_at start.db 4 ≡ some claimed
unfolding machine
start_stored = refl

process_record-Ends_example :
    Ends worker claimed claimed line (process_record worker claimed line start)
process_record-Ends_example =
    process_record-Ends worker claimed claimed line (λ k. refl) start start_stored

backoff_monotone_example :
    (x y : ℕ) × (backoff worker.backoff 3 ≡ forth x)
    × (backoff worker.backoff 8 ≡ forth y)
    × (x ≤ y)
    × (y ≤ 60000000000)
backoff_monotone_example = backoff_monotone worker.backoff 2 5 (omega arith) (omega arith)

-- Two int64 that no float64 is: the first is half way, the second is rounded up beyond int64.
half_way : to_float 9007199254740993 ≡ 9007199254740992
unfolding to_float
half_way = refl

beyond_int64 : to_float max_int64 ≡ 9223372036854775808
unfolding to_float
beyond_int64 = refl
