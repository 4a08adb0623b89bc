-- ===== src/Outbox/Pool.antt =====
-- The goroutines of ProcessBatch in internal/outbox/outbox.go, of one worker and of others: each takes one
-- claimed record through processRecord, and the transactions and consumer calls of all of them
-- interleave. A transaction is one move, since it locks the one row that it writes.
pub mod Settled
pub mod Alone
use seatd_v.Base.{ℕ, zero, suc, Bool, true, false, String, Option, none, some, List, [], ◌∷◌}
use seatd_v.Store.{Envelope, OutboxRow, Outcome, ok, err}
use seatd_v.Outbox.Steps.{Error, decoding, Connection, World}
use seatd_v.Outbox.Worker.{
  Consumer, Worker, begin_consumer, call, end_consumer, mark_processed, mark_failed, retry_or_fail,
  consumers_of,
}

-- Where a goroutine stands in processRecord: before it, before the transaction that begins the next
-- consumer, before a call of Handle, before the transaction that ends a consumer, and before the
-- statement on the record itself.
pub data Stage : Type 0 where
  entering : Stage
  beginning : Envelope → List Consumer → Stage
  calling : Envelope → Consumer → List Consumer → Stage
  ending : Envelope → Consumer → Option String → List Consumer → Stage
  refusing retrying : Error → Stage
  returned : Outcome Error (Unit {0}) → Stage

pub record Job : Type 0 where
  pub worker : Worker
  pub claimed : OutboxRow
  pub connection : Connection
  pub stage : Stage

abbrev pub decoded : Worker → OutboxRow → Option Envelope → Stage
decoded worker o none = refusing decoding
decoded worker o (some event) = beginning event (consumers_of worker o)

-- Handle is called unless the consumer is skipped.
abbrev pub begun : Envelope → Consumer → List Consumer → Outcome Error Bool × World → Stage × World
begun event k ks (ok true, w) = (beginning event ks, w)
begun event k ks (ok false, w) = (calling event k ks, w)
begun event k ks (err e, w) = (retrying e, w)

abbrev pub called :
    Envelope → Consumer → List Consumer → Outcome Error (Option String) × World → Stage × World
called event k ks (ok result, w) = (ending event k result ks, w)
called event k ks (err e, w) = (retrying e, w)

abbrev pub ended : Envelope → List Consumer → Outcome Error (Unit {0}) × World → Stage × World
ended event ks (ok v, w) = (beginning event ks, w)
ended event ks (err e, w) = (retrying e, w)

abbrev pub answer : Outcome Error (Unit {0}) × World → Stage × World
answer (r, w) = (returned r, w)

-- One move of a goroutine
unfoldable pub move : Worker → OutboxRow → Connection → Stage → World → Stage × World
unfolding begin_consumer end_consumer mark_processed mark_failed retry_or_fail
move worker o c entering w = (decoded worker o (c.decode o.payload), w)
move worker o c (beginning event []) w = answer (mark_processed o c w)
move worker o c (beginning event (k ∷ ks)) w = begun event k ks (begin_consumer k.name o c w)
move worker o c (calling event k ks) w = called event k ks (call k o event c w)
move worker o c (ending event k result ks) w = ended event ks (end_consumer k.name o result c w)
move worker o c (refusing e) w = answer (mark_failed o e c w)
move worker o c (retrying e) w = answer (retry_or_fail worker o e c w)
move worker o c (returned r) w = (returned r, w)

-- A goroutine of the pool moves, named by its place, or one starts on a claimed record.
pub data Turn : Type 0 where
  moves : ℕ → Turn
  starts : Worker → OutboxRow → Connection → Turn

abbrev pub kept_before : Job → List Job × World → List Job × World
kept_before j (jobs, w) = (j ∷ jobs, w)

abbrev pub moved : Job → List Job → Stage × World → List Job × World
moved j jobs (s, w) = (record j { stage = s } ∷ jobs, w)

unfoldable pub move_at : ℕ → List Job → World → List Job × World
unfolding move
move_at n [] w = ([], w)
move_at zero (j ∷ jobs) w = moved j jobs (move j.worker j.claimed j.connection j.stage w)
move_at (suc n) (j ∷ jobs) w = kept_before j (move_at n jobs w)

unfoldable pub turn : Turn → List Job × World → List Job × World
unfolding move_at
turn (moves n) (jobs, w) = move_at n jobs w
turn (starts worker o c) (jobs, w) =
    (record { worker = worker; claimed = o; connection = c; stage = entering } ∷ jobs, w)

-- Any interleaving
unfoldable pub run : List Turn → List Job × World → List Job × World
unfolding turn
run [] s = s
run (t ∷ ts) s = run ts (turn t s)
