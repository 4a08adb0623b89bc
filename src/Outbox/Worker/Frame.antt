-- ===== src/Outbox/Worker/Frame.antt =====
-- What the handling of a record leaves alone: every row but those of the consumers.
use seatd_v.Base.{
  Bool, true, false, String, Option, none, some, List, [], ◌∷◌, Bool-cases, inl, inr, if◌then◌else◌,
  find_row,
}
use seatd_v.Store.{Database, OutboxRow, ConsumerRow, Envelope, Outcome}
use seatd_v.Outbox.Steps.{Error, Handling, World, ◌>>=◌, pure}
use seatd_v.Outbox.Steps.Keeps.{Keeps, bind-Keeps, admin_exec-Keeps, after_send, after_commit}
use seatd_v.Outbox.Worker.{
  Consumer, is_consumption, change_consumption, consumption_processed, consumption_failed,
  begin_consumer, start_or_resume, resume_consumer, insert_consumer, is_startable, call,
  end_consumer, mark_consumer_processed, mark_consumer_failed, handle_consumer, handle_consumers,
}

module _ (P : Database → List Handling → Type 0)
    (consumes : (rows : List ConsumerRow) (db : Database) (h : List Handling)
      → P db h
      → P (record db { consumed = rows }) h)
    (handles : (x : Handling) (db : Database) (h : List Handling) → P db h → P db (x ∷ h))
    (o : OutboxRow) (event : Envelope) where
  insert_consumer-Keeps : (name : String) → Keeps P (insert_consumer name o)
  unfolding insert_consumer
  insert_consumer-Keeps name c w p = elim (Bool-cases (is_startable name o w.db)) [
    | inl e ↦ rw e (
        after_commit (λ r. P r.1.db r.1.handled) _ _ c w p (consumes _ w.db w.handled p)
          (consumes _ w.db w.handled p))
    | inr e ↦ rw e p
  ]

  begin_consumer-Keeps : (name : String) → Keeps P (begin_consumer name o)
  unfolding begin_consumer start_or_resume resume_consumer
  begin_consumer-Keeps name c w p = after_send Q _ c w p (
      after_send Q _ c _ p (
        after_send Q _ c _ p
          (resumed _ p (find_row (is_consumption name o.event_id) w.db.consumed))))
    where
      Q : Outcome Error Bool × World → Type 0
      Q r = P r.1.db r.1.handled

      resumed :
          (w : World)
          → P w.db w.handled
          → (r : Option ConsumerRow) → Q (start_or_resume name o r c w)
      resumed w p none = insert_consumer-Keeps name c w p
      resumed w p (some r) = after_send Q _ c w p (after_send Q _ c _ p p)

  end_consumer-Keeps :
      (name : String) (result : Option String) → Keeps P (end_consumer name o result)
  unfolding end_consumer mark_consumer_processed mark_consumer_failed
  end_consumer-Keeps name none = admin_exec-Keeps P _ (λ t db.
      consumes (change_consumption name o.event_id (consumption_processed t) db).consumed db)
  end_consumer-Keeps name (some cause) = admin_exec-Keeps P _ (λ t db.
      consumes (change_consumption name o.event_id (consumption_failed cause) db).consumed db)

  handle_consumer-Keeps : (consumer : Consumer) → Keeps P (handle_consumer o event consumer)
  unfolding handle_consumer
  handle_consumer-Keeps consumer =
      bind-Keeps P (begin_consumer consumer.name o) _ (begin_consumer-Keeps consumer.name)
        after_begin
    where
      after_begin :
          (skip : Bool)
          → Keeps P
              (if skip then pure tt else call consumer o event >>= end_consumer consumer.name o)
      after_begin true c w p = p
      after_begin false c w p =
          bind-Keeps P (call consumer o event) (end_consumer consumer.name o)
            (λ c w p. handles _ w.db w.handled p) (end_consumer-Keeps consumer.name) c w p

  pub handle_consumers-Keeps :
      (consumers : List Consumer) → Keeps P (handle_consumers o event consumers)
  unfolding handle_consumers
  handle_consumers-Keeps [] c w p = p
  handle_consumers-Keeps (k ∷ ks) c w p =
      bind-Keeps P (handle_consumer o event k) (λ _. handle_consumers o event ks)
        (handle_consumer-Keeps k) (λ _. handle_consumers-Keeps ks) c w p
