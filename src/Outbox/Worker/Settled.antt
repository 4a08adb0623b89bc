-- ===== src/Outbox/Worker/Settled.antt =====
-- A consumer whose row for an event is `processed`, under the steps of internal/outbox/outbox.go.
use seatd_v.Base.{
  ℕ, suc, ◌≡◌, refl, ap, ◌∙◌, Bool, true, false, ◌&&◌, String, Option, none, some, List, [], ◌∷◌,
  arith, Bool-cases, inl, inr, ◌==◌, leb, str_eq, eq_iff, find_row, find_row-update_rows,
  find_row-test, if◌then◌else◌,
}
use seatd_v.Store.{Database, OutboxRow, ConsumerRow, Envelope, Outcome, ok, err, processed}
use seatd_v.Outbox.Backoff.{backoff, add_duration, whole_of}
use seatd_v.Outbox.Steps.{
  Error, Connection, Handling, World, continue, ◌>>=◌, pure, throw, admin_exec,
}
use seatd_v.Outbox.Steps.Keeps.{Keeps, bind-Keeps, admin_exec-Keeps, after_send, after_commit}
use seatd_v.Outbox.Worker.{
  Consumer, Worker, is_consumption, change_consumption, change_record, consumption_processed,
  consumption_failed, begin_consumer, start_or_resume, resume_consumer, insert_consumer, started,
  is_startable, is_processed, call, end_consumer, mark_consumer_processed, mark_consumer_failed,
  handle_consumer, handle_consumers, mark_processed, mark_failed, schedule_retry, retry_or_fail,
  processed_at, retried_at, failed_at,
}

-- The calls of a consumer for an event.
unfoldable pub calls : String → ℕ → List Handling → ℕ
calls name event_id [] = 0
calls name event_id (h ∷ hs) =
    let rest = calls name event_id hs in
    if str_eq h.consumer name && h.event_id == event_id then suc rest else rest

-- The consumer has processed the event, after so many calls.
pub record IsSettled (name : String) (event_id n : ℕ) (db : Database) (handled : List Handling)
    : Type 0 where
  pub row : ConsumerRow
  pub stored : find_row (is_consumption name event_id) db.consumed ≡ some row
  pub done : row.status ≡ processed
  pub count : calls name event_id handled ≡ n

module _ (name : String) (event_id n : ℕ) where
  abbrev Settled : Database → List Handling → Type 0
  Settled = IsSettled name event_id n

  other_row :
      (other : String) (e : ℕ) (r : ConsumerRow)
      → is_consumption name event_id r ≡ true
      → (str_eq other name && e == event_id) ≡ false
      → is_consumption other e r ≡ false
  other_row other e r h differs =
      ground (arith, eq_iff r.consumer_name name, eq_iff r.consumer_name other, eq_iff other name)

  -- An update of other rows.
  change-Settled :
      (other : String) (e : ℕ) (f : ConsumerRow → ConsumerRow)
      → ((r : ConsumerRow) → (f r).consumer_name ≡ r.consumer_name)
      → ((r : ConsumerRow) → (f r).event_id ≡ r.event_id)
      → (str_eq other name && e == event_id) ≡ false
      → (db : Database) (h : List Handling) → Settled db h
      → Settled (change_consumption other e f db) h
  change-Settled other e f same_name same_event differs db h s = record {
    row = s.row;
    stored =
        find_row-update_rows (is_consumption name event_id) (is_consumption other e) f db.consumed
          (λ r. ground (arith, same_name r, same_event r))
        ∙ rw s.stored
            (ap some (rw (other_row other e s.row (find_row-test _ _ _ s.stored) differs) refl));
    done = s.done;
    count = s.count;
  }

  insert-Settled :
      (other : String) (o : OutboxRow)
      → (str_eq other name && o.event_id == event_id) ≡ false
      → (db : Database) (h : List Handling) → Settled db h
      → Settled (record db { consumed = started other o ∷ db.consumed }) h
  unfolding find_row
  insert-Settled other o differs db h s = record {
    row = s.row;
    stored = rw differs s.stored;
    done = s.done;
    count = s.count;
  }

  record-Settled :
      (id : ℕ) (f : OutboxRow → OutboxRow) (db : Database) (h : List Handling)
      → Settled db h
      → Settled (change_record id f db) h
  record-Settled id f db h s = record {
    row = s.row;
    stored = s.stored;
    done = s.done;
    count = s.count;
  }

  module _ (o : OutboxRow) (event : Envelope) (consumer : Consumer) where
    -- Another consumer, or another event.
    module _ (differs : (str_eq consumer.name name && o.event_id == event_id) ≡ false) where
      insert_consumer-Keeps : Keeps Settled (insert_consumer consumer.name o)
      unfolding insert_consumer
      insert_consumer-Keeps c w s = elim (Bool-cases (is_startable consumer.name o w.db)) [
        | inl e ↦ rw e (
            after_commit (λ r. Settled r.1.db r.1.handled) _ _ c w s
              (insert-Settled consumer.name o differs w.db w.handled s)
              (insert-Settled consumer.name o differs w.db w.handled s))
        | inr e ↦ rw e s
      ]

      pub begin_consumer-Keeps : Keeps Settled (begin_consumer consumer.name o)
      unfolding begin_consumer start_or_resume resume_consumer
      begin_consumer-Keeps c w s = after_send Q _ c w s (
          after_send Q _ c _ s (
            after_send Q _ c _ s
              (resumed _ s (find_row (is_consumption consumer.name o.event_id) w.db.consumed))))
        where
          Q : Outcome Error Bool × World → Type 0
          Q r = Settled r.1.db r.1.handled

          resumed :
              (w : World)
              → Settled w.db w.handled
              → (r : Option ConsumerRow) → Q (start_or_resume consumer.name o r c w)
          resumed w s none = insert_consumer-Keeps c w s
          resumed w s (some r) = after_send Q _ c w s (after_send Q _ c _ s s)

      pub call-Keeps : Keeps Settled (call consumer o event)
      unfolding calls
      call-Keeps c w s = record {
        row = s.row;
        stored = s.stored;
        done = s.done;
        count = rw differs s.count;
      }

      pub end_consumer-Keeps :
          (result : Option String) → Keeps Settled (end_consumer consumer.name o result)
      unfolding end_consumer mark_consumer_processed mark_consumer_failed
      end_consumer-Keeps none = admin_exec-Keeps Settled _ λ t.
          change-Settled consumer.name o.event_id (consumption_processed t) (λ r. refl) (λ r. refl)
            differs
      end_consumer-Keeps (some cause) = admin_exec-Keeps Settled _ λ t.
          change-Settled consumer.name o.event_id (consumption_failed cause) (λ r. refl) (λ r. refl)
            differs

      other-Keeps : Keeps Settled (handle_consumer o event consumer)
      unfolding handle_consumer
      other-Keeps =
          bind-Keeps Settled (begin_consumer consumer.name o) _ begin_consumer-Keeps after_begin
        where
          after_begin :
              (skip : Bool)
              → Keeps Settled
                  (if skip then pure tt else call consumer o event >>= end_consumer consumer.name o)
          after_begin true c w s = s
          after_begin false c w s =
              bind-Keeps Settled (call consumer o event) (end_consumer consumer.name o) call-Keeps
                end_consumer-Keeps c w s

    -- The same consumer and event: it is skipped, or a statement fails.
    module _ (same : (str_eq consumer.name name && o.event_id == event_id) ≡ true) where
      abbrev pub Skips : Outcome Error Bool × World → Type 0
      Skips (ok b, w) = (b ≡ true) × Settled w.db w.handled
      Skips (err e, w) = Settled w.db w.handled

      pub begin_consumer-Skips :
          (c : Connection) (w : World)
          → Settled w.db w.handled
          → Skips (begin_consumer consumer.name o c w)
      unfolding begin_consumer start_or_resume resume_consumer
      begin_consumer-Skips c w s = after_send Skips _ c w s (
          after_send Skips _ c _ s (
            after_send Skips _ c _ s (
              rw found
                (after_send Skips _ c _ s (after_send Skips _ c _ s (ap is_processed s.done, s))))))
        where
          found : find_row (is_consumption consumer.name o.event_id) w.db.consumed ≡ some s.row
          found =
              let same_name : consumer.name ≡ name = ground (arith, eq_iff consumer.name name) in
              let same_event : o.event_id ≡ event_id = ground arith in
              rw same_name (rw same_event s.stored)

      same-Keeps : Keeps Settled (handle_consumer o event consumer)
      unfolding handle_consumer
      same-Keeps c w s =
          after_begin (begin_consumer consumer.name o c w) (begin_consumer-Skips c w s)
        where
          after_begin :
              (r : Outcome Error Bool × World)
              → Skips r
              → Settled
                  (continue r
                    (λ skip.
                      if skip
                      then pure tt
                      else call consumer o event >>= end_consumer consumer.name o)
                    c).1.db
                  (continue r
                    (λ skip.
                      if skip
                      then pure tt
                      else call consumer o event >>= end_consumer consumer.name o)
                    c).1.handled
          after_begin (ok b, w) (e, s) = rw e s
          after_begin (err e, w) s = s

  handle_consumer-Keeps :
      (o : OutboxRow) (event : Envelope) (consumer : Consumer)
      → Keeps Settled (handle_consumer o event consumer)
  handle_consumer-Keeps o event consumer =
      elim (Bool-cases (str_eq consumer.name name && o.event_id == event_id)) [
        | inl e ↦ same-Keeps o event consumer e
        | inr e ↦ other-Keeps o event consumer e
      ]

  pub handle_consumers-Keeps :
      (o : OutboxRow) (event : Envelope) (consumers : List Consumer)
      → Keeps Settled (handle_consumers o event consumers)
  unfolding handle_consumers
  handle_consumers-Keeps o event [] c w s = s
  handle_consumers-Keeps o event (k ∷ ks) c w s =
      bind-Keeps Settled (handle_consumer o event k) (λ _. handle_consumers o event ks)
        (handle_consumer-Keeps o event k) (λ _. handle_consumers-Keeps o event ks) c w s

  pub mark_processed-Keeps : (o : OutboxRow) → Keeps Settled (mark_processed o)
  unfolding mark_processed
  mark_processed-Keeps o = admin_exec-Keeps Settled _ λ t. record-Settled o.id (processed_at t)

  pub mark_failed-Keeps : (o : OutboxRow) (cause : Error) → Keeps Settled (mark_failed o cause)
  unfolding mark_failed
  mark_failed-Keeps o cause c w s =
      bind-Keeps Settled (admin_exec (λ t. change_record o.id (failed_at t (c.describe cause))))
        (λ _. throw {A = Unit {0}} cause)
        (admin_exec-Keeps Settled _ λ t. record-Settled o.id (failed_at t (c.describe cause)))
        (λ _ c w s. s) c w s

  pub retry_or_fail-Keeps :
      (worker : Worker) (o : OutboxRow) (cause : Error)
      → Keeps Settled (retry_or_fail worker o cause)
  unfolding retry_or_fail schedule_retry
  retry_or_fail-Keeps worker o cause c w s =
      elim (Bool-cases (leb worker.max_attempts o.attempts)) [
        | inl e ↦ rw e (mark_failed-Keeps o cause c w s)
        | inr e ↦ rw e (
            bind-Keeps Settled
              (admin_exec (λ t. change_record o.id (
                retried_at t (add_duration t (whole_of 1000000 (backoff worker.backoff o.attempts)))
                  (c.describe cause))))
              (λ _. throw {A = Unit {0}} cause)
              (admin_exec-Keeps Settled _ λ t. record-Settled o.id (
                retried_at t (add_duration t (whole_of 1000000 (backoff worker.backoff o.attempts)))
                  (c.describe cause)))
              (λ _ c w s. s) c w s)
      ]
