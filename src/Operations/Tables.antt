-- ===== src/Operations/Tables.antt =====
-- `occupyTableInTx` and `clearTableInTx` of internal/domain/operations/service.go.
pub mod Returns
pub mod Consistency
pub mod Occupying
pub mod Clearing
pub mod Progress
pub mod Freeing
use seatd_v.Base.{ℕ, Bool, String, Option, none, some, if◌then◌else◌, ◌==◌, is_empty, not}
use seatd_v.Store.{
  TableRow, TableOccupancy, TableSession, Action, DbError, no_rows, violation, fault, ◌>>=◌, ◌>>◌,
  pure, throw, handle, refuse_if,
}
use seatd_v.Operations.Errors.{
  Error, Context, not_found, version_conflict, stale_version, already_occupied, already_available,
  no_active_session, database, locking_occupancy, creating_session, marking_occupied,
  closing_session, marking_available, getting_state, wrapped, missing,
}
use seatd_v.Operations.Queries.{
  Key, is_available, get_table_state, lock_table_occupancy, create_table_session,
  mark_table_occupied, close_table_session, mark_table_available,
}

-- nullableText
unfoldable pub nullable_text : String → Option String
nullable_text value = if is_empty value then none else some value

-- lockTableOccupancy
unfoldable pub lock_occupancy : Key → Action Error TableOccupancy
unfolding lock_table_occupancy
lock_occupancy key = handle (missing not_found locking_occupancy) (lock_table_occupancy key)

pub record OccupyTableParams : Type 0 where
  pub table : Key  -- TableID, OrganisationID, LocationID
  pub expected_version : ℕ
  pub party_size : Option ℕ
  pub actor_ref : String
  pub source : String

pub record ClearTableParams : Type 0 where
  pub table : Key
  pub expected_version : ℕ
  pub actor_ref : String

-- OccupyTableResult and ClearTableResult
pub record TableResult : Type 0 where
  pub table : TableRow
  pub occupancy : TableOccupancy
  pub session : TableSession

unfoldable pub occupy_table_in_tx : OccupyTableParams → Action Error TableResult
unfolding lock_occupancy nullable_text
occupy_table_in_tx arg = do
  occupancy ← lock_occupancy arg.table
  refuse_if (not (is_available occupancy.status)) already_occupied
  refuse_if (not (occupancy.version == arg.expected_version))
      (stale_version "table_occupancy" arg.table.id arg.expected_version occupancy.version)
  session ← handle (wrapped creating_session) (
      create_table_session (record {
        key = arg.table;
        party_size = arg.party_size;
        opened_by = nullable_text arg.actor_ref;
        source = arg.source;
      }))
  updated ←
      handle (missing version_conflict marking_occupied) (
        mark_table_occupied arg.table session.id (nullable_text arg.actor_ref) arg.expected_version)
  state ← handle (wrapped getting_state) (get_table_state arg.table)
  pure (record { table = state.table; occupancy = updated; session = session })

-- `if !occupancy.CurrentSessionID.Valid { return ErrNoActiveSession }`
abbrev pub require_session : Option ℕ → Action Error ℕ
require_session none = throw no_active_session
require_session (some id) = pure id

unfoldable pub clear_table_in_tx : ClearTableParams → Action Error TableResult
unfolding lock_occupancy nullable_text
clear_table_in_tx arg = do
  occupancy ← lock_occupancy arg.table
  refuse_if (is_available occupancy.status) already_available
  refuse_if (not (occupancy.version == arg.expected_version))
      (stale_version "table_occupancy" arg.table.id arg.expected_version occupancy.version)
  current ← require_session occupancy.current_session_id
  session ←
      handle (missing no_active_session closing_session)
        (close_table_session (record arg.table { id = current }) (nullable_text arg.actor_ref))
  updated ←
      handle (missing version_conflict marking_available)
        (mark_table_available arg.table (nullable_text arg.actor_ref) arg.expected_version)
  state ← handle (wrapped getting_state) (get_table_state arg.table)
  pure (record { table = state.table; occupancy = updated; session = session })
