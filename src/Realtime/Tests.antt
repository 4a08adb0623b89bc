-- ===== src/Realtime/Tests.antt =====
-- A hub with the connections of two locations.
use seatd_v.Base.{◌≡◌, refl, none, some, List, [], ◌∷◌, find_row, update_rows}
use seatd_v.Store.{Envelope}
use seatd_v.Realtime.Hub.{
  Client, Call, client_at, new_hub, new_client, subscribes, unsubscribes, publishes, receives,
  subscribe, unsubscribe, unsubscribe_once, publish, receive, send_to, send_all, step, run, queued,
  message_from_event, metrics_snapshot,
}
use seatd_v.Realtime.Hub.Scopes.{Scope, lookup, add, remove, erase, total}
use seatd_v.Realtime.Hub.Invariant.{IsWellFormed, new_hub-IsWellFormed, run-IsWellFormed}
use seatd_v.Realtime.Hub.Delivery.{publish-reaches}

abbrev here : Scope
here = record { organisation_id = 7; location_id = 8 }

abbrev there : Scope
there = record { organisation_id = 7; location_id = 9 }

abbrev event : Envelope
event = record {
  id = 1;
  kind = "table.occupied";
  schema = 1;
  occurred_at = 5;
  organisation_id = 7;
  location_id = 8;
  actor_ref = "ana";
  device_id = none;
  entity_type = "table";
  entity_id = 1;
  entity_version = some 2;
  command_id = none;
  correlation_id = none;
  traceparent = "";
  tracestate = "";
  content = [];
}

-- Client 0 has room for one message and is closed at the second one; client 1 is elsewhere.
abbrev calls : List Call
calls =
    subscribes here "ana" 1 1
    ∷ subscribes there "bo" 2 0
    ∷ subscribes here "cy" 3 2
    ∷ publishes event
    ∷ publishes event
    ∷ unsubscribes 0
    ∷ receives 2
    ∷ []

run-IsWellFormed_example : IsWellFormed (run new_hub calls)
run-IsWellFormed_example = run-IsWellFormed new_hub calls new_hub-IsWellFormed

snapshot : metrics_snapshot (run new_hub calls) ≡ record {
  active_connections = 2;
  metrics = record {
    connections_accepted = 3;
    connections_closed = 1;
    messages_published = 2;
    messages_dropped = 1;
    backpressure_closes = 1;
  };
}
unfolding run step subscribe unsubscribe unsubscribe_once publish receive send_to send_all lookup
    add remove erase total find_row update_rows
snapshot = refl

abbrev third : Client
third = record (new_client here "cy" 3 2 2) { queue = message_from_event event ∷ [] }

third_stored : client_at (run new_hub calls) 2 ≡ some third
unfolding run step subscribe unsubscribe unsubscribe_once publish receive send_to send_all lookup
    add remove erase total find_row update_rows
third_stored = refl

publish-reaches_example :
    client_at (publish event (run new_hub calls)) 2 ≡ some (queued (message_from_event event) third)
publish-reaches_example =
    publish-reaches event (run new_hub calls) 2 third
      (run-IsWellFormed new_hub calls new_hub-IsWellFormed) third_stored
