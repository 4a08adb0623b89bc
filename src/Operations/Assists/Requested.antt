-- ===== src/Operations/Assists/Requested.antt =====
-- What a new assist request has done when it returns.
use seatd_v.Base.{ℕ, ◌≡◌, Option, none, some, String, ◌∷◌, ◌==◌, arith, find_row}
use seatd_v.Store.{
  Database, TableOccupancy, AssistRequest, Env, Tx, ok, after_handle, map_error_inv,
}
use seatd_v.Operations.Errors.{missing, wrapped, not_found, locking_occupancy, creating_assist}
use seatd_v.Operations.Queries.{is_lockable, lock_table_occupancy}
use seatd_v.Operations.Queries.Effects.{lock_table_occupancy_returns}
use seatd_v.Operations.Assists.{
  RequestAssistParams, requested, create_assist_request, request_assist_in_tx,
}

module _ (env : Env) (db : Database) (r : AssistRequest) (db' : Database) where
  -- A pending request of the table's session, under a new id, and nothing else.
  pub record Requests (arg : RequestAssistParams) : Type 0 where
    pub occupancy : TableOccupancy
    pub locked : find_row (is_lockable arg.table db) db.occupancies ≡ some occupancy
    pub fresh : find_row (λ a. a.id == r.id) db.assists ≡ none
    pub is_new : r ≡ requested arg occupancy.current_session_id none r.id env.now
    pub stored : db' ≡ record db { assists = r ∷ db.assists }

create_assist_request_returns :
    (env : Env) (t u : Tx) (r : AssistRequest) (arg : RequestAssistParams) (session : Option ℕ)
    (action_key : Option String)
    → create_assist_request arg session action_key env t ≡ ok (r, u)
    → (find_row (λ a. a.id == r.id) t.db.assists ≡ none)
      × (r ≡ requested arg session action_key r.id env.now)
      × (u.db ≡ record t.db { assists = r ∷ t.db.assists })
unfolding create_assist_request
create_assist_request_returns env t u r arg session action_key h = ground arith

pub request_assist_in_tx_returns :
    (env : Env) (t u : Tx) (r : AssistRequest) (arg : RequestAssistParams)
    → request_assist_in_tx arg env t ≡ ok (r, u)
    → Requests env t.db r u.db arg
unfolding request_assist_in_tx
request_assist_in_tx_returns env t u r arg h =
    after_handle (missing not_found locking_occupancy) (lock_table_occupancy arg.table) _ env t h
      λ o t₁ h₁ k₁.
        let (locked, same) = lock_table_occupancy_returns env t arg.table h₁ in
        let (fresh, is_new, stored) =
          create_assist_request_returns env t₁ u r arg o.current_session_id none
            (map_error_inv (wrapped creating_assist) _ k₁) in
        record {
          occupancy = o;
          locked = locked;
          fresh = rw same at fresh;
          is_new = is_new;
          stored = rw same at stored;
        }
