-- ===== src/Outbox/Worker/Delivery.antt =====
-- What processRecord of internal/outbox/outbox.go has done when it returns, to the consumers and to the
-- record.
use seatd_v.Base.{
  ℕ, ◌≡◌, refl, ap, subst, sym, ◌∙◌, Bool, true, false, String, Option, none, some, List, [], ◌∷◌,
  arith, Bool-cases, inl, inr, if◌then◌else◌, find_row, find_row-update_rows, find_row-test, length,
  All, eq_refl, ==_refl, leb,
}
use seatd_v.Store.{
  Database, OutboxRow, ConsumerRow, OutboxStatus, Envelope, Outcome, ok, err, waiting, processing,
  processed, failed,
}
use seatd_v.Outbox.Backoff.{backoff, add_duration, whole_of}
use seatd_v.Outbox.Steps.{
  Error, decoding, Connection, World, continue, ◌>>=◌, pure, throw, admin_exec,
}
use seatd_v.Outbox.Steps.Keeps.{Keeps, admin_exec-Keeps, after_admin_exec, after_send, after_commit}
use seatd_v.Outbox.Worker.{
  Consumer, Worker, is_consumption, change_consumption, change_record, consumption_processed,
  started, is_processed, begin_consumer, start_or_resume, resume_consumer, insert_consumer,
  is_startable, call, end_consumer, mark_consumer_processed, mark_processed, mark_failed,
  schedule_retry, retry_or_fail, handle_consumer, handle_consumers, consumers_of, deliver, settled,
  process_decoded, process_record, processed_at, failed_at, retried_at,
}
use seatd_v.Outbox.Worker.Settled.{IsSettled, calls}
use seatd_v.Outbox.Worker.Settled

-- The row of a consumer for an event, and whether it is processed.
abbrev Stored : String → ℕ → Bool → Database → Type 0
Stored name event_id b db =
    (r : ConsumerRow) × (find_row (is_consumption name event_id) db.consumed ≡ some r)
    × (is_processed r.status ≡ b)

processed_of : (s : OutboxStatus) → is_processed s ≡ true → s ≡ processed
processed_of processed h = refl
processed_of waiting h = absurd (ground arith)
processed_of processing h = absurd (ground arith)
processed_of failed h = absurd (ground arith)

module _ (o : OutboxRow) (event : Envelope) where
  module _ (consumer : Consumer) where
    abbrev Begun : Outcome Error Bool × World → Type 0
    Begun (ok true, w) = Stored consumer.name o.event_id true w.db
    Begun (ok false, w) = (b : Bool) × Stored consumer.name o.event_id b w.db
    Begun (err e, w) = Unit

    begin_consumer-Begun : (c : Connection) (w : World) → Begun (begin_consumer consumer.name o c w)
    unfolding begin_consumer start_or_resume resume_consumer insert_consumer find_row
    begin_consumer-Begun c w = after_send Begun _ c w tt (
        after_send Begun _ c _ tt (
          after_send Begun _ c _ tt
            (resumed _ (find_row (is_consumption consumer.name o.event_id) w.db.consumed) refl)))
      where
        read :
            (w : World) (r : ConsumerRow) (b : Bool)
            → find_row (is_consumption consumer.name o.event_id) w.db.consumed ≡ some r
            → is_processed r.status ≡ b
            → Begun (ok b, w)
        read w r true e p = (r, e, p)
        read w r false e p = (false, (r, e, p))

        resumed :
            (w : World) (r : Option ConsumerRow)
            → find_row (is_consumption consumer.name o.event_id) w.db.consumed ≡ r
            → Begun (start_or_resume consumer.name o r c w)
        resumed w none e = elim (Bool-cases (is_startable consumer.name o w.db)) [
          | inl s ↦ rw s (
              after_commit Begun _ _ c w tt tt (
                false,
                (
                  started consumer.name o,
                  rw (eq_refl consumer.name) (rw (==_refl o.event_id) refl),
                  refl,
                ),
              ))
          | inr s ↦ rw s tt
        ]
        resumed w (some r) e =
            after_send Begun _ c w tt
              (after_send Begun _ c _ tt (read _ r (is_processed r.status) e refl))

    -- When the consumer's part returns, its row is processed.
    abbrev Done : Outcome Error (Unit {0}) × World → Type 0
    Done (ok v, w) = Stored consumer.name o.event_id true w.db
    Done (err e, w) = Unit

    marked :
        (b : Bool) (t : ℕ) (db : Database)
        → Stored consumer.name o.event_id b db
        → Stored consumer.name o.event_id true
            (change_consumption consumer.name o.event_id (consumption_processed t) db)
    marked b t db (r, e, _) = (
      consumption_processed t r,
      find_row-update_rows (is_consumption consumer.name o.event_id)
            (is_consumption consumer.name o.event_id) (consumption_processed t) db.consumed
            (λ r. refl)
          ∙ rw e (ap some (rw (find_row-test _ _ _ e) refl)),
      refl,
    )

    end_consumer-Done :
        (b : Bool) (result : Option String) (c : Connection) (w : World)
        → Stored consumer.name o.event_id b w.db
        → Done (end_consumer consumer.name o result c w)
    unfolding end_consumer mark_consumer_processed
    end_consumer-Done b none c w s =
        after_admin_exec Done
          (λ t. change_consumption consumer.name o.event_id (consumption_processed t)) c w (λ _. tt)
          (λ _ _. tt) (λ t _. marked b t w.db s)
    end_consumer-Done b (some cause) c w s = tt

    handle_consumer-Done :
        (c : Connection) (w : World) → Done (handle_consumer o event consumer c w)
    unfolding handle_consumer
    handle_consumer-Done c w =
        after_begin (begin_consumer consumer.name o c w) (begin_consumer-Begun c w)
      where
        after_begin :
            (r : Outcome Error Bool × World)
            → Begun r
            → Done (
                continue r
                  (λ skip.
                    if skip
                    then pure tt
                    else call consumer o event >>= end_consumer consumer.name o)
                  c)
        after_begin (ok true, w) s = s
        after_begin (ok false, w) (b, s) =
            end_consumer-Done b (consumer.handle (length w.handled) event) c _ s
        after_begin (err e, w) s = tt

  -- A row that is processed stays so while the other consumers are called.
  stays :
      (name : String) (event_id : ℕ) (ks : List Consumer) (c : Connection) (w w' : World)
      → Stored name event_id true w.db
      → handle_consumers o event ks c w ≡ (ok tt, w')
      → Stored name event_id true w'.db
  stays name event_id ks c w w' (r, e, p) h =
      let kept =
        Settled.handle_consumers-Keeps name event_id (calls name event_id w.handled) o event ks c w
          (record { row = r; stored = e; done = processed_of r.status p; count = refl }) in
      let last : (handle_consumers o event ks c w).1 ≡ w' =
        ap (λ (r : Outcome Error (Unit {0}) × World). r.1) h in
      (
        kept.row,
        subst (λ (w : World). find_row (is_consumption name event_id) w.db.consumed ≡ some kept.row)
            last kept.stored,
        ap is_processed kept.done,
      )

  handle_consumers-Done :
      (consumers : List Consumer) (c : Connection) (w w' : World)
      → handle_consumers o event consumers c w ≡ (ok tt, w')
      → All (λ k. Stored k.name o.event_id true w'.db) consumers
  unfolding handle_consumers
  handle_consumers-Done [] c w w' h = tt
  handle_consumers-Done (k ∷ ks) c w w' h =
      first (handle_consumer o event k c w) (handle_consumer-Done k c w)
        (λ w₁. handle_consumers-Done ks c w₁ w') h
    where
      first :
          (r : Outcome Error (Unit {0}) × World)
          → Done k r
          → ((w₁ : World)
              → handle_consumers o event ks c w₁ ≡ (ok tt, w')
              → All (λ k. Stored k.name o.event_id true w'.db) ks)
          → continue r (λ _. handle_consumers o event ks) c ≡ (ok tt, w')
          → All (λ k. Stored k.name o.event_id true w'.db) (k ∷ ks)
      first (ok v, w₁) s rest h = (stays k.name o.event_id ks c w₁ w' s h, rest w₁ h)
      first (err e, w₁) s rest h = absurd (ground arith)

error_ne_ok :
    {e : Error} {w w' : World} {P : Type 0}
    → ◌≡◌ {A = Outcome Error (Unit {0}) × World} (err e, w) (ok tt, w')
    → P
error_ne_ok h = absurd (ground arith)

throws :
    {P : Type 0} (r : Outcome Error (Unit {0}) × World) (cause : Error) (c : Connection)
    (w' : World)
    → continue r (λ _. throw {A = Unit {0}} cause) c ≡ (ok tt, w')
    → P
throws (ok v, w) cause c w' h = error_ne_ok h
throws (err e, w) cause c w' h = error_ne_ok h

mark_failed_throws :
    {P : Type 0} (o : OutboxRow) (cause : Error) (c : Connection) (w w' : World)
    → mark_failed o cause c w ≡ (ok tt, w')
    → P
unfolding mark_failed
mark_failed_throws o cause c w w' h =
    throws (admin_exec (λ t. change_record o.id (failed_at t (c.describe cause))) c w) cause c w' h

retry_or_fail_throws :
    {P : Type 0} (worker : Worker) (o : OutboxRow) (cause : Error) (c : Connection) (w w' : World)
    → retry_or_fail worker o cause c w ≡ (ok tt, w')
    → P
unfolding retry_or_fail schedule_retry
retry_or_fail_throws worker o cause c w w' h =
    elim (Bool-cases (leb worker.max_attempts o.attempts)) [
      | inl e ↦ mark_failed_throws o cause c w w' (rw e at h)
      | inr e ↦
          throws
            (admin_exec
              (λ t. change_record o.id (
                retried_at t (add_duration t (whole_of 1000000 (backoff worker.backoff o.attempts)))
                  (c.describe cause)))
              c w)
            cause c w' (rw e at h)
    ]

marking-Keeps :
    (o : OutboxRow) (rows : List ConsumerRow)
    → Keeps (λ db h. db.consumed ≡ rows) (mark_processed o)
unfolding mark_processed
marking-Keeps o rows =
    admin_exec-Keeps (λ db h. db.consumed ≡ rows) (λ t. change_record o.id (processed_at t))
      (λ t db h e. e)

-- When the processing of a record, with no other goroutine between its statements, returns no error, its
-- payload was an event, and the row of each of its consumers for the event is processed.
pub process_record_returns :
    (worker : Worker) (o : OutboxRow) (c : Connection) (w w' : World)
    → process_record worker o c w ≡ (ok tt, w')
    → (event : Envelope) × (c.decode o.payload ≡ some event)
      × All (λ k. Stored k.name o.event_id true w'.db) (consumers_of worker o)
unfolding process_record deliver
process_record_returns worker o c w w' h = decoded (c.decode o.payload) refl h
  where
    finished :
        (event : Envelope) (r : Outcome Error (Unit {0}) × World)
        → handle_consumers o event (consumers_of worker o) c w ≡ r
        → settled r (retry_or_fail worker o) (mark_processed o) c ≡ (ok tt, w')
        → All (λ k. Stored k.name o.event_id true w'.db) (consumers_of worker o)
    finished event (ok v, w₁) e h =
        let last : (mark_processed o c w₁).1 ≡ w' =
          ap (λ (r : Outcome Error (Unit {0}) × World). r.1) h in
        let same : w₁.db.consumed ≡ w'.db.consumed =
          subst (λ (w : World). w₁.db.consumed ≡ w.db.consumed) last
            (sym (marking-Keeps o w₁.db.consumed c w₁ refl)) in
        subst
          (λ (rows : List ConsumerRow).
            All
              (λ k.
                (r : ConsumerRow) × (find_row (is_consumption k.name o.event_id) rows ≡ some r)
                × (is_processed r.status ≡ true))
              (consumers_of worker o))
          same (handle_consumers-Done o event (consumers_of worker o) c w w₁ e)
    finished event (err e, w₁) _ h = retry_or_fail_throws worker o e c w₁ w' h

    decoded :
        (event : Option Envelope)
        → c.decode o.payload ≡ event
        → process_decoded worker o event c w ≡ (ok tt, w')
        → (event : Envelope) × (c.decode o.payload ≡ some event)
          × All (λ k. Stored k.name o.event_id true w'.db) (consumers_of worker o)
    decoded none e h = mark_failed_throws o decoding c w w' h
    decoded (some event) e h =
        (event, e, finished event (handle_consumers o event (consumers_of worker o) c w) refl h)
