-- ===== src/Realtime/Sync.antt =====
-- Events in pages: loadEventsAfter and loadCurrentCursor of internal/realtime/sync.go, on the rows of
-- `operational_events`. The scanning of a row does not fail.
mod Tests
pub mod Order
pub mod Pages
use seatd_v.Base.{
  ℕ, ltb, Bool, true, false, not, ◌&&◌, ◌||◌, ◌==◌, Option, none, some, List, [], ◌∷◌, map, take,
  select_rows, if◌then◌else◌,
}
use seatd_v.Store.{EventRow}
use seatd_v.Realtime.Hub.Scopes.{Scope}
use seatd_v.Realtime.Hub.{Message}

-- OccurredAt is `none` where it is the zero time.
pub record Cursor : Type 0 where
  pub occurred_at : Option ℕ
  pub event_id : ℕ

abbrev pub cursor_from : ℕ → ℕ → Cursor
cursor_from occurred_at event_id =
    if event_id == 0
    then record { occurred_at = none; event_id = 0 }
    else record { occurred_at = some occurred_at; event_id = event_id }

-- $3 IS NULL OR (occurred_at, id) > ($3, $4), where a uuid that is NULL is below no other
abbrev pub is_above : Option ℕ → ℕ → EventRow → Bool
is_above none id r = true
is_above (some t) id r =
    ltb t r.occurred_at || (t == r.occurred_at && (not (id == 0) && ltb id r.id))

abbrev pub is_after : Cursor → EventRow → Bool
is_after c r = is_above c.occurred_at c.event_id r

-- ORDER BY occurred_at, id
abbrev pub is_earlier : EventRow → EventRow → Bool
is_earlier a b =
    ltb a.occurred_at b.occurred_at || (a.occurred_at == b.occurred_at && ltb a.id b.id)

unfoldable pub insert_by_time : EventRow → List EventRow → List EventRow
insert_by_time a [] = a ∷ []
insert_by_time a (b ∷ bs) =
    let rest = insert_by_time a bs in if is_earlier b a then b ∷ rest else a ∷ b ∷ bs

unfoldable pub by_time : List EventRow → List EventRow
by_time [] = []
by_time (a ∷ rows) = insert_by_time a (by_time rows)

abbrev pub is_in : Scope → EventRow → Bool
is_in scope r = r.organisation_id == scope.organisation_id && r.location_id == scope.location_id

-- The rows of a location after a cursor, in order: what is selected of sorted rows is sorted.
abbrev pub events_after : Scope → Cursor → List EventRow → List EventRow
events_after scope after events =
    select_rows (is_after after) (by_time (select_rows (is_in scope) events))

abbrev pub message_of : EventRow → Message
message_of r = record {
  kind = r.event_type;
  event_id = r.id;
  organisation_id = r.organisation_id;
  location_id = r.location_id;
  entity_type = r.entity_type;
  entity_id = r.entity_id;
  version = some r.entity_version;
  occurred_at = r.occurred_at;
  content = r.event_data;
}

-- `next`, after the loop over the rows
unfoldable pub next_cursor : Cursor → List EventRow → Cursor
next_cursor next [] = next
next_cursor next (r ∷ rows) = next_cursor (cursor_from r.occurred_at r.id) rows

unfoldable pub load_events_after : Scope → Cursor → ℕ → List EventRow → List Message × Cursor
unfolding by_time next_cursor
load_events_after scope after limit events = (
  map message_of (take limit (events_after scope after events)),
  next_cursor after (take limit (events_after scope after events)),
)

-- The newest event of a location
unfoldable pub load_current_cursor : Scope → List EventRow → Cursor
unfolding by_time next_cursor
load_current_cursor scope events =
    next_cursor (record { occurred_at = none; event_id = 0 })
      (by_time (select_rows (is_in scope) events))
