-- ===== src/Outbox/Worker/Ending.antt =====
-- The row of a record after processRecord of internal/outbox/outbox.go.
use seatd_v.Base.{
  ℕ, ◌+◌, ◌≡◌, ◌<◌, ◌≤◌, ◌⊎◌, ◌≢◌, refl, false, Option, none, some, arith, Bool-cases, inl, inr,
  find_key, find_key-update_rows, find_key-eq_key, leb, ◌==◌,
}
use seatd_v.Store.{Database, OutboxRow, Envelope, Outcome, ok, err, waiting, processed, failed}
use seatd_v.Outbox.Backoff.{backoff, add_duration, whole_of}
use seatd_v.Outbox.Steps.{Error, decoding, Connection, World}
use seatd_v.Outbox.Steps.Keeps.{admin_exec_holds}
use seatd_v.Outbox.Worker.{
  Worker, change_record, mark_processed, mark_failed, schedule_retry, retry_or_fail,
  handle_consumers, consumers_of, deliver, settled, process_decoded, process_record, processed_at,
  failed_at, retried_at,
}
use seatd_v.Outbox.Worker.Frame

abbrev pub record_at : Database → ℕ → Option OutboxRow
record_at db k = find_key (λ o. o.id) k db.outbox

-- How a row ends: processed when no error is returned; failed when the payload is no event or no attempt is
-- left; or waiting while attempts are left. The last transaction is the four round trips from `statement`
-- on; the row is updated at its now(), and one that waits is available the delay of backoff after that.
pub record Ends (worker : Worker) (o row : OutboxRow) (c : Connection)
    (r : Outcome Error (Unit {0}) × World) : Type 0 where
  pub last : OutboxRow
  pub stored : record_at r.1.db o.id ≡ some last
  pub unlocked_at : last.locked_at ≡ none
  pub unlocked_by : last.locked_by ≡ none
  pub same_attempts : last.attempts ≡ row.attempts
  pub statement : ℕ
  pub last_transaction : r.1.sent ≡ statement + 4
  pub updated : last.updated_at ≡ c.clock statement
  pub ending :
      ((r.0 ≡ ok tt) × (last.status ≡ processed) × (last.processed_at ≡ some (c.clock statement)))
      ⊎ ((r.0 ≢ ok tt)
          × (last.status ≡ failed)
          × ((c.decode o.payload ≡ none) ⊎ (worker.max_attempts ≤ o.attempts)))
      ⊎ ((r.0 ≢ ok tt)
          × (last.status ≡ waiting)
          × (o.attempts < worker.max_attempts)
          × (last.available_at
              ≡ add_duration
                  (c.clock statement)
                  (whole_of 1000000 (backoff worker.backoff o.attempts))))

module _ (worker : Worker) (o row : OutboxRow) (c : Connection)
    (holds : (k : ℕ) → c.faults k ≡ false) where
  changed :
      (f : OutboxRow → OutboxRow) (db : Database)
      → ((x : OutboxRow) → (f x).id ≡ x.id)
      → record_at db o.id ≡ some row
      → record_at (change_record o.id f db) o.id ≡ some (f row)
  changed f db keeps h = ground (
    arith,
    find_key-update_rows (λ o. o.id) (λ x. x.id == o.id) f o.id db.outbox keeps,
    find_key-eq_key (λ o. o.id) o.id db.outbox row h,
    h,
  )

  mark_processed-Ends :
      (w : World) → record_at w.db o.id ≡ some row → Ends worker o row c (mark_processed o c w)
  unfolding mark_processed
  mark_processed-Ends w h =
      let t = c.clock w.sent in
      let e = admin_exec_holds (λ t. change_record o.id (processed_at t)) c w holds in
      rw e (record {
        last = processed_at t row;
        stored = changed (processed_at t) w.db (λ x. refl) h;
        unlocked_at = refl;
        unlocked_by = refl;
        same_attempts = refl;
        statement = w.sent;
        last_transaction = omega arith;
        updated = refl;
        ending = inl (refl, refl, refl);
      })

  mark_failed-Ends :
      (cause : Error) (w : World)
      → record_at w.db o.id ≡ some row
      → (c.decode o.payload ≡ none) ⊎ (worker.max_attempts ≤ o.attempts)
      → Ends worker o row c (mark_failed o cause c w)
  unfolding mark_failed
  mark_failed-Ends cause w h why =
      let t = c.clock w.sent in
      let text = c.describe cause in
      let e = admin_exec_holds (λ t. change_record o.id (failed_at t text)) c w holds in
      rw e (record {
        last = failed_at t text row;
        stored = changed (failed_at t text) w.db (λ x. refl) h;
        unlocked_at = refl;
        unlocked_by = refl;
        same_attempts = refl;
        statement = w.sent;
        last_transaction = omega arith;
        updated = refl;
        ending = inr (inl (λ h. absurd (ground arith), refl, why));
      })

  abbrev available : ℕ → ℕ
  available t = add_duration t (whole_of 1000000 (backoff worker.backoff o.attempts))

  retry_or_fail-Ends :
      (cause : Error) (w : World)
      → record_at w.db o.id ≡ some row
      → Ends worker o row c (retry_or_fail worker o cause c w)
  unfolding retry_or_fail schedule_retry
  retry_or_fail-Ends cause w h = elim (Bool-cases (leb worker.max_attempts o.attempts)) [
    | inl e ↦ rw e (mark_failed-Ends cause w h (inr (ground arith)))
    | inr e ↦
        let t = c.clock w.sent in
        let text = c.describe cause in
        let runs =
          admin_exec_holds (λ t. change_record o.id (retried_at t (available t) text)) c w holds in
        rw e (
          rw runs (record {
            last = retried_at t (available t) text row;
            stored = changed (retried_at t (available t) text) w.db (λ x. refl) h;
            unlocked_at = refl;
            unlocked_by = refl;
            same_attempts = refl;
            statement = w.sent;
            last_transaction = omega arith;
            updated = refl;
            ending = inr (inr (λ h. absurd (ground arith), refl, ground arith, refl));
          }))
  ]

  -- On a connection that holds, and with no other goroutine between its statements, a record that was stored
  -- is not left in processing. Either no error is returned and it is processed; or it failed, its payload
  -- being no event or its attempts being used up; or attempts are left and it waits, available from now()
  -- of the last transaction plus the delay of backoff for its attempts in whole milliseconds. Its lock is
  -- released, its attempts stay the same.
  pub process_record-Ends :
      (w : World)
      → record_at w.db o.id ≡ some row
      → Ends worker o row c (process_record worker o c w)
  unfolding process_record deliver
  process_record-Ends w h = decoded (c.decode o.payload) refl
    where
      finished :
          (r : Outcome Error (Unit {0}) × World)
          → record_at r.1.db o.id ≡ some row
          → Ends worker o row c (settled r (retry_or_fail worker o) (mark_processed o) c)
      finished (ok v, w) h = mark_processed-Ends w h
      finished (err e, w) h = retry_or_fail-Ends e w h

      decoded :
          (event : Option Envelope)
          → c.decode o.payload ≡ event
          → Ends worker o row c (process_decoded worker o event c w)
      decoded none e = mark_failed-Ends decoding w h (inl e)
      decoded (some event) e = finished (handle_consumers o event (consumers_of worker o) c w) (
          Frame.handle_consumers-Keeps (λ db h. record_at db o.id ≡ some row) (λ rows db h e. e)
            (λ x db h e. e) o event (consumers_of worker o) c w h)
