-- ===== src/Outbox/Pool/Alone.antt =====
-- A goroutine of internal/outbox/outbox.go that nothing interrupts ends as processRecord does.
use seatd_v.Base.{
  ℕ, zero, suc, ◌≡◌, refl, Bool, true, false, Option, none, some, List, [], ◌∷◌, if◌then◌else◌,
  length,
}
use seatd_v.Store.{OutboxRow, Envelope, Outcome, ok, err}
use seatd_v.Outbox.Steps.{Error, Connection, World, continue, ◌>>=◌, pure}
use seatd_v.Outbox.Worker.{
  Consumer, Worker, begin_consumer, call, end_consumer, handle_consumer, handle_consumers,
  mark_processed, retry_or_fail, settled, deliver, process_decoded, process_record, consumers_of,
}
use seatd_v.Outbox.Pool.{
  Stage, entering, beginning, calling, ending, retrying, decoded, begun, ended, answer, move,
}

module _ (worker : Worker) (o : OutboxRow) (c : Connection) where
  unfoldable pub after_moves : ℕ → Stage × World → Stage × World
  unfolding move
  after_moves zero p = p
  after_moves (suc n) (s, w) = after_moves n (move worker o c s w)

  abbrev Reaches : Stage × World → Outcome Error (Unit {0}) × World → Type 0
  Reaches p r = (n : ℕ) × (after_moves n p ≡ answer r)

  next :
      (s : Stage) (w : World) (r : Outcome Error (Unit {0}) × World)
      → Reaches (move worker o c s w) r
      → Reaches (s, w) r
  unfolding after_moves
  next s w r (n, e) = (suc n, e)

  retried : (e : Error) (w : World) → Reaches (retrying e, w) (retry_or_fail worker o e c w)
  unfolding after_moves
  retried e w = (1, refl)

  -- What is left of the loop over the consumers, and the statement on the record
  abbrev rest_of :
      Envelope → List Consumer → Outcome Error (Unit {0}) × World → Outcome Error (Unit {0}) × World
  rest_of event ks r =
      settled (continue r (λ _. handle_consumers o event ks) c) (retry_or_fail worker o)
        (mark_processed o) c

  module _ (event : Envelope) (k : Consumer) (ks : List Consumer)
      (looped : (w : World) → Reaches (beginning event ks, w) (rest_of event ks (ok tt, w))) where
    ended-Reaches :
        (r : Outcome Error (Unit {0}) × World) → Reaches (ended event ks r) (rest_of event ks r)
    ended-Reaches (ok v, w) = looped w
    ended-Reaches (err e, w) = retried e w

    begun-Reaches :
        (r : Outcome Error Bool × World)
        → Reaches (begun event k ks r) (
            rest_of event ks (
              continue r
                (λ skip. if skip then pure tt else call k o event >>= end_consumer k.name o)
                c))
    unfolding move
    begun-Reaches (ok true, w) = looped w
    begun-Reaches (ok false, w) =
        let result = k.handle (length w.handled) event in
        let after : World = (call k o event c w).1 in
        next (calling event k ks) w _ (
          next (ending event k result ks) after _
            (ended-Reaches (end_consumer k.name o result c after)))
    begun-Reaches (err e, w) = retried e w

  looped :
      (event : Envelope) (ks : List Consumer) (w : World)
      → Reaches (beginning event ks, w) (rest_of event ks (ok tt, w))
  unfolding after_moves handle_consumers handle_consumer
  looped event [] w = (1, refl)
  looped event (k ∷ ks) w =
      next _ _ _ (begun-Reaches event k ks (looped event ks) (begin_consumer k.name o c w))

  -- There is a number of moves after which it has returned what processRecord returns, on the rows and
  -- with the calls that processRecord leaves.
  pub process_record-Reaches :
      (w : World) → (n : ℕ) × (after_moves n (entering, w) ≡ answer (process_record worker o c w))
  unfolding process_record deliver after_moves
  process_record-Reaches w = next entering w _ (entered (c.decode o.payload))
    where
      entered :
          (event : Option Envelope)
          → Reaches (decoded worker o event, w) (process_decoded worker o event c w)
      entered none = next _ _ _ (0, refl)
      entered (some event) = looped event (consumers_of worker o) w
