-- ===== src/Realtime/Hub.antt =====
-- internal/realtime/hub.go: the connections of each location, and the messages that are queued for
-- them. A client is an object on the heap that the map of the hub points to by its number. A call is
-- one step; logs and spans are left out, and the texts of ids and times stay numbers.
pub mod Scopes
pub mod Effects
pub mod Invariant
pub mod Delivery
use seatd_v.Base.{
  ℕ, zero, suc, ◌+◌, Bool, true, false, not, ◌&&◌, ◌||◌, String, Option, none, some, List, [], ◌∷◌,
  ◌++◌, ltb, ◌==◌, if◌then◌else◌, find_key, update_rows, length,
}
use seatd_v.Store.{Bytes, Envelope}
use seatd_v.Realtime.Hub.Scopes.{Scope, Clients, lookup, add, remove, total}

pub record Message : Type 0 where
  pub kind : String
  pub event_id : ℕ
  pub organisation_id : ℕ
  pub location_id : ℕ
  pub entity_type : String
  pub entity_id : ℕ
  pub version : Option ℕ
  pub occurred_at : ℕ
  pub content : Bytes  -- Data

-- MessageFromEvent
abbrev pub message_from_event : Envelope → Message
message_from_event event = record {
  kind = event.kind;
  event_id = event.id;
  organisation_id = event.organisation_id;
  location_id = event.location_id;
  entity_type = event.entity_type;
  entity_id = event.entity_id;
  version = event.entity_version;
  occurred_at = event.occurred_at;
  content = event.content;
}

-- The channel `send` holds the messages `queue`, at most `buffer` of them; `once` tells whether
-- closeOnce has run.
pub record Client : Type 0 where
  pub id : ℕ
  pub scope : Scope
  pub actor_ref : String
  pub device_id : ℕ
  pub buffer : ℕ
  pub queue : List Message
  pub closed : Bool
  pub once : Bool

pub record Metrics : Type 0 where
  pub connections_accepted : ℕ
  pub connections_closed : ℕ
  pub messages_published : ℕ
  pub messages_dropped : ℕ
  pub backpressure_closes : ℕ

pub record Hub : Type 0 where
  pub heap : List Client
  pub clients : Clients
  pub metrics : Metrics

abbrev pub new_hub : Hub
new_hub = record {
  heap = [];
  clients = [];
  metrics = record {
    connections_accepted = 0;
    connections_closed = 0;
    messages_published = 0;
    messages_dropped = 0;
    backpressure_closes = 0;
  };
}

abbrev pub client_at : Hub → ℕ → Option Client
client_at hub k = find_key (λ c. c.id) k hub.heap

abbrev pub change : ℕ → (Client → Client) → Hub → Hub
change k f hub = record hub { heap = update_rows (λ c. c.id == k) f hub.heap }

-- `if buffer <= 0 { buffer = 32 }`; no negative number is given.
abbrev pub buffer_of : ℕ → ℕ
buffer_of zero = 32
buffer_of (suc n) = suc n

abbrev pub new_client : Scope → String → ℕ → ℕ → ℕ → Client
new_client scope actor_ref device_id buffer id = record {
  id = id;
  scope = scope;
  actor_ref = actor_ref;
  device_id = device_id;
  buffer = buffer_of buffer;
  queue = [];
  closed = false;
  once = false;
}

unfoldable pub subscribe : Scope → String → ℕ → ℕ → Hub → Hub
subscribe scope actor_ref device_id buffer hub = record hub {
  heap = new_client scope actor_ref device_id buffer (length hub.heap) ∷ hub.heap;
  clients = add scope (length hub.heap) hub.clients;
  metrics = record hub.metrics { connections_accepted = suc hub.metrics.connections_accepted };
}

abbrev pub close : Client → Client
close c = if c.closed then c else record c { closed = true }

-- What closeOnce runs.
unfoldable pub unsubscribe_once : Client → Hub → Hub
unsubscribe_once client hub =
    let left = record hub { clients = remove client.scope client.id hub.clients } in
    let closed = change client.id (λ c. close (record c { once = true })) left in
    record closed {
      metrics = record hub.metrics { connections_closed = suc hub.metrics.connections_closed };
    }

unfoldable pub unsubscribe : ℕ → Hub → Hub
unfolding unsubscribe_once
unsubscribe k hub = unsubscribe_client (client_at hub k)
  where
    unsubscribe_client : Option Client → Hub
    unsubscribe_client none = hub
    unsubscribe_client (some c) = if c.once then hub else unsubscribe_once c hub

-- trySend: whether the channel takes the message.
abbrev pub can_send : Client → Bool
can_send c = not c.closed && ltb (length c.queue) c.buffer

abbrev pub queued : Message → Client → Client
queued message c = record c { queue = c.queue ++ (message ∷ []) }

abbrev pub dropping : Hub → Hub
dropping hub = record hub {
  metrics = record hub.metrics {
    messages_dropped = suc hub.metrics.messages_dropped;
    backpressure_closes = suc hub.metrics.backpressure_closes;
  };
}

-- The body of the loop of Publish.
unfoldable pub send_to : Message → ℕ → Hub → Hub
unfolding unsubscribe
send_to message k hub = send_client (client_at hub k)
  where
    send_client : Option Client → Hub
    send_client none = hub
    send_client (some c) =
        if can_send c then change k (queued message) hub else unsubscribe k (dropping hub)

unfoldable pub send_all : Message → List ℕ → Hub → Hub
send_all message [] hub = hub
send_all message (k ∷ ks) hub = send_all message ks (send_to message k hub)

abbrev pub scope_of : Envelope → Scope
scope_of event = record { organisation_id = event.organisation_id; location_id = event.location_id }

unfoldable pub publish : Envelope → Hub → Hub
unfolding send_all
publish event hub =
    send_all (message_from_event event) (lookup (scope_of event) hub.clients) (record hub {
      metrics = record hub.metrics { messages_published = suc hub.metrics.messages_published };
    })

pub record Snapshot : Type 0 where
  pub active_connections : ℕ
  pub metrics : Metrics

abbrev pub metrics_snapshot : Hub → Snapshot
metrics_snapshot hub = record { active_connections = total hub.clients; metrics = hub.metrics }

-- `case message, ok := <-messages` of WriteLoop: the connection takes the next message off its channel.
abbrev pub taken : List Message → List Message
taken [] = []
taken (m ∷ ms) = ms

unfoldable pub receive : ℕ → Hub → Hub
receive k hub = change k (λ c. record c { queue = taken c.queue }) hub

-- A call of the hub; a client is named by its number.
pub data Call : Type 0 where
  subscribes : Scope → String → ℕ → ℕ → Call
  unsubscribes : ℕ → Call
  publishes : Envelope → Call
  receives : ℕ → Call

unfoldable pub step : Hub → Call → Hub
step hub (subscribes scope actor_ref device_id buffer) =
    subscribe scope actor_ref device_id buffer hub
step hub (unsubscribes k) = unsubscribe k hub
step hub (publishes event) = publish event hub
step hub (receives k) = receive k hub

unfoldable pub run : Hub → List Call → Hub
run hub [] = hub
run hub (c ∷ cs) = run (step hub c) cs
