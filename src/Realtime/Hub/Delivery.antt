-- ===== src/Realtime/Hub/Delivery.antt =====
-- Publish of internal/realtime/hub.go, seen by one client.
use seatd_v.Base.{ℕ, ◌≡◌, ◌∙◌, not, ◌&&◌, some, if◌then◌else◌, Bool-cases, inl, inr, arith}
use seatd_v.Store.{Envelope}
use seatd_v.Realtime.Hub.{Client, Hub, client_at, publish, scope_of, message_from_event}
use seatd_v.Realtime.Hub.Effects.{received, send_all_once, send_all_absent}
use seatd_v.Realtime.Hub.Scopes.{same_scope, lookup}
use seatd_v.Realtime.Hub.Invariant.{IsWellFormed}

-- Publishing on a well-formed hub reaches each client once: an open client of the event's scope has
-- the message at the end of its channel, or is closed when the channel is full; any other client is
-- as it was.
pub publish-reaches :
    (event : Envelope) (hub : Hub) (k : ℕ) (c : Client)
    → IsWellFormed hub
    → client_at hub k ≡ some c
    → client_at (publish event hub) k
      ≡ some (
          if not c.once && same_scope c.scope (scope_of event)
          then received (message_from_event event) c
          else c)
unfolding publish
publish-reaches event hub k c w h =
    elim (Bool-cases (not c.once && same_scope c.scope (scope_of event))) [
      | inl e ↦ rw e (
          send_all_once k c (message_from_event event) (lookup (scope_of event) hub.clients) _
            (ground (arith, w.registered k (scope_of event), h, e)) h (ground arith))
      | inr e ↦ rw e (
          send_all_absent k (message_from_event event) (lookup (scope_of event) hub.clients) _
            (ground (arith, w.registered k (scope_of event), h, e))
          ∙ h)
    ]
