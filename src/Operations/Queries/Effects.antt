-- ===== src/Operations/Queries/Effects.antt =====
-- What the statements on tables, occupancies and sessions have done when they return.
use seatd_v.Base.{
  ℕ, ◌≡◌, false, ◌&&◌, String, Option, some, ◌∷◌, ◌==◌, arith, ◌<◌, ◌≤◌, holds, find_row, has_row,
  update_rows,
}
use seatd_v.Store.{TableOccupancy, TableSession, max_int32, Env, Tx, ok}
use seatd_v.Operations.Queries.{
  Key, TableState, NewSession, is_live, is_table, is_lockable, is_active_at, opened_session,
  is_occupiable, occupied_by, is_closable, closed_by_at, is_clearable, freed_by, get_table_state,
  lock_table_occupancy, create_table_session, mark_table_occupied, close_table_session,
  mark_table_available,
}

module _ (env : Env) (t : Tx) {u : Tx} where
  -- The locked row, and no change.
  pub lock_table_occupancy_returns :
      (key : Key) {o : TableOccupancy}
      → lock_table_occupancy key env t ≡ ok (o, u)
      → (find_row (is_lockable key t.db) t.db.occupancies ≡ some o) × (u.db ≡ t.db)
  unfolding lock_table_occupancy
  lock_table_occupancy_returns key h = ground arith

  pub get_table_state_returns :
      (key : Key) {s : TableState}
      → get_table_state key env t ≡ ok (s, u)
      → (find_row (λ t. is_table key t && is_live t) t.db.tables ≡ some s.table)
        × (find_row (λ o. o.table_id == key.id) t.db.occupancies ≡ some s.occupancy)
        × (u.db ≡ t.db)
  unfolding get_table_state
  get_table_state_returns key h = ground arith

  pub create_table_session_returns :
      (arg : NewSession) {s : TableSession}
      → create_table_session arg env t ≡ ok (s, u)
      → (s ≡ opened_session arg s.id env.now)
        × (u.db ≡ record t.db { sessions = s ∷ t.db.sessions })
        × (has_row (λ r. r.id == s.id) t.db.sessions ≡ false)
        × (has_row (is_active_at arg.key.id) t.db.sessions ≡ false)
  unfolding create_table_session
  create_table_session_returns arg h = ground arith

  pub mark_table_occupied_returns :
      (key : Key) (session : ℕ) (by : Option String) (version : ℕ) {r : TableOccupancy}
      → mark_table_occupied key session by version env t ≡ ok (r, u)
      → (o : TableOccupancy) × (find_row (is_occupiable key version) t.db.occupancies ≡ some o)
        × (r ≡ occupied_by session by env.now o)
        × (o.version < max_int32)
        × (has_row (λ o. holds o.current_session_id session) t.db.occupancies ≡ false)
        × (u.db ≡ record t.db {
          occupancies =
              update_rows
                (is_occupiable key version)
                (occupied_by session by env.now)
                t.db.occupancies;
        })
  unfolding mark_table_occupied
  mark_table_occupied_returns key session by version h = ground arith

  pub close_table_session_returns :
      (key : Key) (by : Option String) {r : TableSession}
      → close_table_session key by env t ≡ ok (r, u)
      → (s : TableSession) × (find_row (is_closable key) t.db.sessions ≡ some s)
        × (r ≡ closed_by_at by env.now s)
        × (s.started_at ≤ env.now)
        × (u.db ≡ record t.db {
          sessions = update_rows (is_closable key) (closed_by_at by env.now) t.db.sessions;
        })
  unfolding close_table_session
  close_table_session_returns key by h = ground arith

  pub mark_table_available_returns :
      (key : Key) (by : Option String) (version : ℕ) {r : TableOccupancy}
      → mark_table_available key by version env t ≡ ok (r, u)
      → (o : TableOccupancy) × (find_row (is_clearable key version) t.db.occupancies ≡ some o)
        × (r ≡ freed_by by env.now o)
        × (o.version < max_int32)
        × (u.db ≡ record t.db {
          occupancies =
              update_rows (is_clearable key version) (freed_by by env.now) t.db.occupancies;
        })
  unfolding mark_table_available
  mark_table_available_returns key by version h = ground arith
