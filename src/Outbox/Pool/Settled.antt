-- ===== src/Outbox/Pool/Settled.antt =====
-- A consumer whose row for an event is `processed`, under interleaved goroutines of internal/outbox/outbox.go.
use seatd_v.Base.{
  ℕ, zero, suc, ◌≡◌, Bool, true, false, ◌&&◌, String, Option, none, some, List, [], ◌∷◌, Bool-cases,
  inl, inr, ◌==◌, str_eq, All, arith,
}
use seatd_v.Store.{OutboxRow, Envelope, Outcome, ok, err}
use seatd_v.Outbox.Steps.{Error, Connection, World}
use seatd_v.Outbox.Worker.{
  Consumer, Worker, begin_consumer, end_consumer, mark_processed, mark_failed, retry_or_fail,
}
use seatd_v.Outbox.Worker.Settled.{
  IsSettled, begin_consumer-Keeps, call-Keeps, end_consumer-Keeps, Skips, begin_consumer-Skips,
  mark_processed-Keeps, mark_failed-Keeps, retry_or_fail-Keeps,
}
use seatd_v.Outbox.Pool.{
  Stage, entering, beginning, calling, ending, refusing, retrying, returned, Job, decoded, begun,
  ended, answer, move, move_at, Turn, moves, starts, turn, run,
}

module _ (name : String) (event_id : ℕ) where
  -- The goroutine is not between the two transactions of this consumer for this event.
  abbrev pub IsOutside : OutboxRow → Stage → Type 0
  IsOutside o (calling event k ks) = (str_eq k.name name && o.event_id == event_id) ≡ false
  IsOutside o (ending event k result ks) = (str_eq k.name name && o.event_id == event_id) ≡ false
  IsOutside o _ = Unit

  abbrev pub AllOutside : List Job → Type 0
  AllOutside jobs = All (λ j. IsOutside j.claimed j.stage) jobs

  module _ (n : ℕ) where
    abbrev Good : OutboxRow → Stage × World → Type 0
    Good o (s, w) = IsOutside o s × IsSettled name event_id n w.db w.handled

    answer-Good :
        (o : OutboxRow) (r : Outcome Error (Unit {0}) × World)
        → IsSettled name event_id n r.1.db r.1.handled
        → Good o (answer r)
    answer-Good o (r, w) s = (tt, s)

    skipped-Good :
        (o : OutboxRow) (event : Envelope) (k : Consumer) (ks : List Consumer)
        (same : (str_eq k.name name && o.event_id == event_id) ≡ true)
        (r : Outcome Error Bool × World)
        → Skips name event_id n o event k same r
        → Good o (begun event k ks r)
    skipped-Good o event k ks same (ok true, w) (e, s) = (tt, s)
    skipped-Good o event k ks same (ok false, w) (e, s) = absurd (ground arith)
    skipped-Good o event k ks same (err e, w) s = (tt, s)

    begun-Good :
        (o : OutboxRow) (event : Envelope) (k : Consumer) (ks : List Consumer)
        → (str_eq k.name name && o.event_id == event_id) ≡ false
        → (r : Outcome Error Bool × World) → IsSettled name event_id n r.1.db r.1.handled
        → Good o (begun event k ks r)
    begun-Good o event k ks differs (ok true, w) s = (tt, s)
    begun-Good o event k ks differs (ok false, w) s = (differs, s)
    begun-Good o event k ks differs (err e, w) s = (tt, s)

    ended-Good :
        (o : OutboxRow) (event : Envelope) (ks : List Consumer)
        (r : Outcome Error (Unit {0}) × World)
        → IsSettled name event_id n r.1.db r.1.handled
        → Good o (ended event ks r)
    ended-Good o event ks (ok v, w) s = (tt, s)
    ended-Good o event ks (err e, w) s = (tt, s)

    move-Good :
        (worker : Worker) (o : OutboxRow) (c : Connection) (stage : Stage) (w : World)
        → IsOutside o stage
        → IsSettled name event_id n w.db w.handled
        → Good o (move worker o c stage w)
    unfolding move
    move-Good worker o c entering w out s = entered (c.decode o.payload)
      where
        entered : (event : Option Envelope) → Good o (decoded worker o event, w)
        entered none = (tt, s)
        entered (some event) = (tt, s)
    move-Good worker o c (beginning event []) w out s =
        answer-Good o (mark_processed o c w) (mark_processed-Keeps name event_id n o c w s)
    move-Good worker o c (beginning event (k ∷ ks)) w out s =
        elim (Bool-cases (str_eq k.name name && o.event_id == event_id)) [
          | inl same ↦
              skipped-Good o event k ks same (begin_consumer k.name o c w)
                (begin_consumer-Skips name event_id n o event k same c w s)
          | inr differs ↦
              begun-Good o event k ks differs (begin_consumer k.name o c w)
                (begin_consumer-Keeps name event_id n o event k differs c w s)
        ]
    move-Good worker o c (calling event k ks) w differs s =
        (differs, call-Keeps name event_id n o event k differs c w s)
    move-Good worker o c (ending event k result ks) w differs s =
        ended-Good o event ks (end_consumer k.name o result c w)
          (end_consumer-Keeps name event_id n o event k differs result c w s)
    move-Good worker o c (refusing e) w out s =
        answer-Good o (mark_failed o e c w) (mark_failed-Keeps name event_id n o e c w s)
    move-Good worker o c (retrying e) w out s =
        answer-Good o (retry_or_fail worker o e c w)
          (retry_or_fail-Keeps name event_id n worker o e c w s)
    move-Good worker o c (returned r) w out s = (tt, s)

    abbrev Calm : List Job × World → Type 0
    Calm (jobs, w) = AllOutside jobs × IsSettled name event_id n w.db w.handled

    move_at-Calm : (k : ℕ) (jobs : List Job) (w : World) → Calm (jobs, w) → Calm (move_at k jobs w)
    unfolding move_at
    move_at-Calm k [] w s = s
    move_at-Calm zero (j ∷ jobs) w ((out, outs), s) =
        let (out', s') = move-Good j.worker j.claimed j.connection j.stage w out s in
        ((out', outs), s')
    move_at-Calm (suc k) (j ∷ jobs) w ((out, outs), s) =
        let (outs', s') = move_at-Calm k jobs w (outs, s) in ((out, outs'), s')

    turn-Calm : (t : Turn) (jobs : List Job) (w : World) → Calm (jobs, w) → Calm (turn t (jobs, w))
    unfolding turn
    turn-Calm (moves k) jobs w s = move_at-Calm k jobs w s
    turn-Calm (starts worker o c) jobs w (outs, s) = ((tt, outs), s)

    run-Calm : (ts : List Turn) (p : List Job × World) → Calm p → Calm (run ts p)
    unfolding run
    run-Calm [] p s = s
    run-Calm (t ∷ ts) p s = run-Calm ts (turn t p) (turn-Calm t p.0 p.1 s)

-- Once a consumer's row for an event is processed and no goroutine is between the two transactions of
-- that consumer for that event, the row stays processed and the consumer is not called for the event
-- any more, however the goroutines of any workers interleave, over any connections, those that start
-- later included.
pub run-IsSettled :
    (name : String) (event_id n : ℕ) (turns : List Turn) (jobs : List Job) (w : World)
    → AllOutside name event_id jobs
    → IsSettled name event_id n w.db w.handled
    → IsSettled name event_id n (run turns (jobs, w)).1.db (run turns (jobs, w)).1.handled
run-IsSettled name event_id n turns jobs w outs s =
    (run-Calm name event_id n turns (jobs, w) (outs, s)).1
