-- ===== src/Operations/Queries.antt =====
-- The statements of internal/store/db/operations.sql.go on tables, occupancies and sessions. A
-- statement is one round trip; its WHERE clause is a test, and what the schema's constraints refuse
-- is a violation. Row-level security is not modelled: each statement names its tenant.
pub mod Effects
use seatd_v.Base.{
  ℕ, ◌+◌, Bool, true, false, not, ◌&&◌, String, Option, none, some, ◌∷◌, ltb, leb, ◌==◌, is_empty,
  is_some, holds, find_row, has_row, update_rows,
}
use seatd_v.Store.{
  Database, TableRow, TableOccupancy, TableSession, TableStatus, available, occupied, max_int32,
  Query, ◌>>=◌, ◌>>◌, pure, rows, environment, write, new_id, issue, check, one,
}

-- The id of a row and its tenant, which most statements name.
pub record Key : Type 0 where
  pub id : ℕ
  pub organisation_id : ℕ
  pub location_id : ℕ

abbrev pub is_available : TableStatus → Bool
is_available available = true
is_available occupied = false

-- `t.is_active AND t.deleted_at IS NULL`
abbrev pub is_live : TableRow → Bool
is_live t = t.is_active && not (is_some t.deleted_at)

abbrev pub is_table : Key → TableRow → Bool
is_table key t =
    t.id == key.id && t.organisation_id == key.organisation_id && t.location_id == key.location_id

abbrev pub is_occupancy : Key → TableOccupancy → Bool
is_occupancy key o =
    o.table_id == key.id
    && o.organisation_id == key.organisation_id
    && o.location_id == key.location_id

abbrev pub is_session : Key → TableSession → Bool
is_session key s =
    s.id == key.id && s.organisation_id == key.organisation_id && s.location_id == key.location_id

pub record TableState : Type 0 where
  pub table : TableRow
  pub occupancy : TableOccupancy

unfoldable pub get_table_state : Key → Query TableState
get_table_state key = do
  issue
  db ← rows
  t ← one (find_row (λ t. is_table key t && is_live t) db.tables)
  o ← one (find_row (λ o. o.table_id == key.id) db.occupancies)
  pure (record { table = t; occupancy = o })

-- The occupancy joined with its table.
abbrev pub is_lockable : Key → Database → TableOccupancy → Bool
is_lockable key db o =
    is_occupancy key o && has_row (λ t. t.id == o.table_id && is_live t) db.tables

unfoldable pub lock_table_occupancy : Key → Query TableOccupancy
lock_table_occupancy key = do issue; db ← rows; one (find_row (is_lockable key db) db.occupancies)

pub record NewSession : Type 0 where
  pub key : Key
  pub party_size : Option ℕ
  pub opened_by : Option String
  pub source : String

-- CHECK (party_size IS NULL OR party_size > 0)
abbrev pub is_positive : Option ℕ → Bool
is_positive none = true
is_positive (some n) = ltb 0 n

-- The unique index `table_sessions_one_active_per_table` covers the sessions with no `ended_at`.
abbrev pub is_active_at : ℕ → TableSession → Bool
is_active_at table s = s.table_id == table && not (is_some s.ended_at)

-- The inserted row: the given columns, and the columns' defaults.
abbrev pub opened_session : NewSession → ℕ → ℕ → TableSession
opened_session arg id now = record {
  id = id;
  organisation_id = arg.key.organisation_id;
  location_id = arg.key.location_id;
  table_id = arg.key.id;
  started_at = now;
  ended_at = none;
  party_size = arg.party_size;
  opened_by = arg.opened_by;
  closed_by = none;
  source = arg.source;
  created_at = now;
  updated_at = now;
}

unfoldable pub create_table_session : NewSession → Query TableSession
create_table_session arg = do
  issue
  db ← rows
  env ← environment
  id ← new_id
  check (not (has_row (λ s. s.id == id) db.sessions))
  check (has_row (is_table arg.key) db.tables)
  check (is_positive arg.party_size)
  check (not (is_empty arg.source))
  check (not (has_row (is_active_at arg.key.id) db.sessions))
  let session = opened_session arg id env.now
  write (record db { sessions = session ∷ db.sessions })
  pure session

abbrev pub is_occupiable : Key → ℕ → TableOccupancy → Bool
is_occupiable key version o = is_occupancy key o && is_available o.status && o.version == version

abbrev pub occupied_by : ℕ → Option String → ℕ → TableOccupancy → TableOccupancy
occupied_by session updated_by now o = record o {
  status = occupied;
  current_session_id = some session;
  version = o.version + 1;
  updated_by = updated_by;
  updated_at = now;
}

-- The constraints of `table_occupancy`: UNIQUE (current_session_id) and its foreign key.
unfoldable pub mark_table_occupied : Key → ℕ → Option String → ℕ → Query TableOccupancy
mark_table_occupied key session updated_by version = do
  issue
  db ← rows
  env ← environment
  let test = is_occupiable key version
  let change = occupied_by session updated_by env.now
  o ← one (find_row test db.occupancies)
  check (ltb o.version max_int32)
  check (not (has_row (λ o. holds o.current_session_id session) db.occupancies))
  check (has_row (λ s. s.id == session) db.sessions)
  write (record db { occupancies = update_rows test change db.occupancies })
  pure (change o)

abbrev pub is_closable : Key → TableSession → Bool
is_closable key s = is_session key s && not (is_some s.ended_at)

abbrev pub closed_by_at : Option String → ℕ → TableSession → TableSession
closed_by_at closed_by now s = record s {
  ended_at = some now;
  closed_by = closed_by;
  updated_at = now;
}

unfoldable pub close_table_session : Key → Option String → Query TableSession
close_table_session key closed_by = do
  issue
  db ← rows
  env ← environment
  let test = is_closable key
  let change = closed_by_at closed_by env.now
  s ← one (find_row test db.sessions)
  check (leb s.started_at env.now)
  write (record db { sessions = update_rows test change db.sessions })
  pure (change s)

abbrev pub is_clearable : Key → ℕ → TableOccupancy → Bool
is_clearable key version o =
    is_occupancy key o && not (is_available o.status) && o.version == version

abbrev pub freed_by : Option String → ℕ → TableOccupancy → TableOccupancy
freed_by updated_by now o = record o {
  status = available;
  current_session_id = none;
  version = o.version + 1;
  updated_by = updated_by;
  updated_at = now;
}

unfoldable pub mark_table_available : Key → Option String → ℕ → Query TableOccupancy
mark_table_available key updated_by version = do
  issue
  db ← rows
  env ← environment
  let test = is_clearable key version
  let change = freed_by updated_by env.now
  o ← one (find_row test db.occupancies)
  check (ltb o.version max_int32)
  write (record db { occupancies = update_rows test change db.occupancies })
  pure (change o)
