-- ===== src/Operations/Tables/Progress.antt =====
-- occupyTableInTx, statement by statement, on a free table.
use seatd_v.Base.{ℕ, suc, ◌≡◌, ◌<◌, true, false, none, some, ◌∷◌, is_empty, update_rows}
use seatd_v.Store.{Database, TableRow, TableOccupancy, TableSession, available, max_int32, Env, Tx}
use seatd_v.Operations.Queries.{is_occupiable, occupied_by, opened_session, is_live, is_positive}
use seatd_v.Operations.Tables.{OccupyTableParams, nullable_text}
use seatd_v.Operations.Tables.Returns.{occupying}
use seatd_v.Operations.Tables.Consistency.{table_at, occupancy_at, session_at, IsConsistent}

-- The table is live, its occupancy belongs to the same tenant, and the caller has seen its version.
pub record CanOccupy (env : Env) (t : Tx) (arg : OccupyTableParams) : Type 0 where
  pub no_faults : (k : ℕ) → env.faults k ≡ false
  pub consistent : IsConsistent t.db
  pub table : TableRow
  pub has_table : table_at t.db arg.table.id ≡ some table
  pub live : is_live table ≡ true
  pub table_organisation : table.organisation_id ≡ arg.table.organisation_id
  pub table_location : table.location_id ≡ arg.table.location_id
  pub occupancy : TableOccupancy
  pub has_occupancy : occupancy_at t.db arg.table.id ≡ some occupancy
  pub occupancy_organisation : occupancy.organisation_id ≡ arg.table.organisation_id
  pub occupancy_location : occupancy.location_id ≡ arg.table.location_id
  pub free : occupancy.status ≡ available
  pub seen : occupancy.version ≡ arg.expected_version
  pub in_range : occupancy.version < max_int32
  pub fresh : session_at t.db (env.ids t.drawn) ≡ none
  pub party : is_positive arg.party_size ≡ true
  pub source : is_empty arg.source ≡ false

module _ (env : Env) (t : Tx) (arg : OccupyTableParams) (c : CanOccupy env t arg) where
  abbrev opened : TableSession
  opened = opened_session (occupying arg) (env.ids t.drawn) env.now

  abbrev with_session : Database
  with_session = record t.db { sessions = opened ∷ t.db.sessions }

  abbrev marked_db : Database
  marked_db = record with_session {
    occupancies =
        update_rows (is_occupiable arg.table arg.expected_version)
          (occupied_by opened.id (nullable_text arg.actor_ref) env.now) t.db.occupancies;
  }

  abbrev after : Database → ℕ → Tx
  after db n = record t { db = db; sent = n; drawn = suc t.drawn }
