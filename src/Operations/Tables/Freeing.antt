-- ===== src/Operations/Tables/Freeing.antt =====
-- clearTableInTx, statement by statement, on an occupied table.
use seatd_v.Base.{
  ℕ, suc, ◌≡◌, ◌<◌, ◌≤◌, refl, true, false, ◌&&◌, Option, some, arith, ◌==◌, String, find_row,
  update_rows, find_key-find_row, find_key-eq_key,
}
use seatd_v.Store.{
  Database, TableRow, TableOccupancy, TableSession, occupied, max_int32, Env, Tx, ok, is_ok,
}
use seatd_v.Operations.Queries.{
  is_lockable, is_live, is_table, is_clearable, is_closable, freed_by, closed_by_at,
  lock_table_occupancy, close_table_session, mark_table_available, get_table_state,
}
use seatd_v.Operations.Tables.{ClearTableParams, nullable_text, clear_table_in_tx}
use seatd_v.Operations.Tables.Consistency.{
  table_at, occupancy_at, session_at, updated, Holds, IsConsistent,
}

-- The table is live, it is occupied at the version that the caller has seen, and its session did not
-- begin after the transaction's clock.
pub record CanClear (env : Env) (t : Tx) (arg : ClearTableParams) : Type 0 where
  pub no_faults : (k : ℕ) → env.faults k ≡ false
  pub consistent : IsConsistent t.db
  pub table : TableRow
  pub has_table : table_at t.db arg.table.id ≡ some table
  pub live : is_live table ≡ true
  pub table_organisation : table.organisation_id ≡ arg.table.organisation_id
  pub table_location : table.location_id ≡ arg.table.location_id
  pub occupancy : TableOccupancy
  pub has_occupancy : occupancy_at t.db arg.table.id ≡ some occupancy
  pub occupancy_organisation : occupancy.organisation_id ≡ arg.table.organisation_id
  pub occupancy_location : occupancy.location_id ≡ arg.table.location_id
  pub in_use : occupancy.status ≡ occupied
  pub seen : occupancy.version ≡ arg.expected_version
  pub in_range : occupancy.version < max_int32
  pub clock : (k : ℕ) (s : TableSession) → session_at t.db k ≡ some s → s.started_at ≤ env.now

module _ (env : Env) (t : Tx) (arg : ClearTableParams) (c : CanClear env t arg) where
  abbrev by : Option String
  by = nullable_text arg.actor_ref

  of_key : c.occupancy.table_id ≡ arg.table.id
  of_key =
      find_key-eq_key (λ o. o.table_id) arg.table.id t.db.occupancies c.occupancy c.has_occupancy

  table_key : c.table.id ≡ arg.table.id
  table_key = find_key-eq_key (λ t. t.id) arg.table.id t.db.tables c.table c.has_table

  live_found : find_row (λ t. is_table arg.table t && is_live t) t.db.tables ≡ some c.table
  live_found =
      find_key-find_row (λ t. t.id) (λ t. is_table arg.table t && is_live t) arg.table.id
        t.db.tables c.table (λ y h. ground arith) c.has_table
        (ground (arith, table_key, c.table_organisation, c.table_location, c.live))

  joined_found : find_row (λ t. t.id == arg.table.id && is_live t) t.db.tables ≡ some c.table
  joined_found =
      find_key-find_row (λ t. t.id) (λ t. t.id == arg.table.id && is_live t) arg.table.id
        t.db.tables c.table (λ y h. ground arith) c.has_table (ground (arith, table_key, c.live))

  lockable_found : find_row (is_lockable arg.table t.db) t.db.occupancies ≡ some c.occupancy
  lockable_found =
      find_key-find_row (λ o. o.table_id) (is_lockable arg.table t.db) arg.table.id t.db.occupancies
        c.occupancy (λ y h. ground arith) c.has_occupancy
        (rw of_key
          (ground (arith, of_key, joined_found, c.occupancy_organisation, c.occupancy_location)))

  clearable_found :
      find_row (is_clearable arg.table arg.expected_version) t.db.occupancies ≡ some c.occupancy
  clearable_found =
      find_key-find_row (λ o. o.table_id) (is_clearable arg.table arg.expected_version) arg.table.id
        t.db.occupancies c.occupancy (λ y h. ground arith) c.has_occupancy
        (ground (arith, of_key, c.occupancy_organisation, c.occupancy_location, c.in_use, c.seen))

  module _ (s : TableSession) (h : Holds t.db arg.table.id c.occupancy s) where
    closable_found : find_row (is_closable (record arg.table { id = s.id })) t.db.sessions ≡ some s
    closable_found =
        find_key-find_row (λ s. s.id) (is_closable (record arg.table { id = s.id })) s.id
          t.db.sessions s (λ y h. ground arith) h.stored
          (ground (arith, c.occupancy_organisation, c.occupancy_location))

    abbrev closed_db : Database
    closed_db = record t.db {
      sessions =
          update_rows (is_closable (record arg.table { id = s.id })) (closed_by_at by env.now)
            t.db.sessions;
    }

    abbrev marked_db : Database
    marked_db = record closed_db {
      occupancies =
          update_rows (is_clearable arg.table arg.expected_version) (freed_by by env.now)
            t.db.occupancies;
    }

    abbrev after : Database → ℕ → Tx
    after db n = record t { db = db; sent = n }

    lock_runs : lock_table_occupancy arg.table env t ≡ ok (c.occupancy, after t.db (suc t.sent))
    unfolding lock_table_occupancy
    lock_runs = ground (arith, c.no_faults t.sent, lockable_found)

    close_runs :
        close_table_session (record arg.table { id = s.id }) by env (after t.db (suc t.sent))
        ≡ ok (closed_by_at by env.now s, after closed_db (suc (suc t.sent)))
    unfolding close_table_session
    close_runs = ground (arith, c.no_faults (suc t.sent), closable_found, c.clock s.id s h.stored)

    mark_runs :
        mark_table_available arg.table by arg.expected_version env
          (after closed_db (suc (suc t.sent)))
        ≡ ok (freed_by by env.now c.occupancy, after marked_db (suc (suc (suc t.sent))))
    unfolding mark_table_available
    mark_runs = ground (arith, c.no_faults (suc (suc t.sent)), clearable_found, c.in_range)

    get_runs : (n : ℕ) → is_ok (get_table_state arg.table env (after marked_db n)) ≡ true
    unfolding get_table_state
    get_runs n = ground (
      arith,
      c.no_faults n,
      live_found,
      updated (λ o. o.table_id) (is_clearable arg.table arg.expected_version) (freed_by by env.now)
          arg.table.id t.db.occupancies c.occupancy (λ x. refl) c.has_occupancy,
    )

    clearing_succeeds : is_ok (clear_table_in_tx arg env t) ≡ true
    unfolding clear_table_in_tx
    clearing_succeeds = ground (
      arith,
      lock_runs,
      close_runs,
      mark_runs,
      get_runs (suc (suc (suc t.sent))),
      c.in_use,
      c.seen,
      h.named,
    )

  -- Clearing succeeds when the table is live and occupied at the version that was seen, on consistent
  -- rows, with a clock that is not behind any session, and a connection that holds.
  pub clear_table_in_tx_succeeds : is_ok (clear_table_in_tx arg env t) ≡ true
  clear_table_in_tx_succeeds =
      let (s, h) = c.consistent.occupied_held arg.table.id c.occupancy c.has_occupancy c.in_use in
      clearing_succeeds s h
