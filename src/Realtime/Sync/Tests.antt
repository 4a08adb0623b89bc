-- ===== src/Realtime/Sync/Tests.antt =====
-- Pages of three events, two of them at the same time.
use seatd_v.Base.{◌≡◌, ◌+◌, refl, none, List, [], ◌∷◌, ◌++◌, select_rows}
use seatd_v.Store.{EventRow}
use seatd_v.Realtime.Hub.Scopes.{Scope}
use seatd_v.Realtime.Sync.{
  Cursor, load_events_after, load_current_cursor, by_time, insert_by_time, next_cursor, message_of,
}
use seatd_v.Realtime.Sync.Order.{HasIds}
use seatd_v.Realtime.Sync.Pages.{load_events_after_pages, load_current_cursor_newest}

abbrev here : Scope
here = record { organisation_id = 7; location_id = 8 }

abbrev early : EventRow
early = record {
  id = 3;
  organisation_id = 7;
  location_id = 8;
  event_type = "table.occupied";
  schema = 1;
  entity_type = "table";
  entity_id = 5;
  entity_version = 2;
  actor_ref = "ana";
  device_id = none;
  command_id = none;
  event_data = [];
  payload = [];
  occurred_at = 10;
}

abbrev events : List EventRow
events =
    record early { id = 2; occurred_at = 20 }
    ∷ early
    ∷ record early { id = 1; occurred_at = 20 }
    ∷ []

abbrev beginning : Cursor
beginning = record { occurred_at = none; event_id = 0 }

-- A page of two
first_page :
    (load_events_after here beginning 2 events).0
    ≡ message_of early ∷ message_of (record early { id = 1; occurred_at = 20 }) ∷ []
unfolding load_events_after by_time insert_by_time next_cursor select_rows
first_page = refl

events-HasIds : HasIds events
events-HasIds = (refl, (refl, (refl, tt)), (refl, (refl, tt), (refl, tt, tt)))

load_events_after_pages_example :
    (load_events_after here beginning 2 events).0
      ++ (load_events_after here (load_events_after here beginning 2 events).1 5 events).0
    ≡ (load_events_after here beginning (2 + 5) events).0
load_events_after_pages_example = load_events_after_pages here beginning 2 5 events events-HasIds

load_current_cursor_newest_example :
    (load_events_after here (load_current_cursor here events) 5 events).0 ≡ []
load_current_cursor_newest_example = load_current_cursor_newest here 5 events events-HasIds
