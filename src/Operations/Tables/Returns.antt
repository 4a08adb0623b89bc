-- ===== src/Operations/Tables/Returns.antt =====
-- What occupying and clearing a table have done when they return.
use seatd_v.Base.{
  ℕ, ◌≡◌, refl, false, not, String, Option, none, some, ◌∷◌, ◌==◌, arith, ◌<◌, ◌≤◌, find_row,
  update_rows,
}
use seatd_v.Store.{
  Database, ◌>>=◌, Action, after_handle, after_refusal, pure_inv, TableOccupancy, TableSession,
  available, occupied, max_int32, Env, Tx, ok,
}
use seatd_v.Operations.Queries.{
  is_lockable, is_available, opened_session, is_occupiable, occupied_by, is_closable, closed_by_at,
  is_clearable, freed_by, create_table_session, lock_table_occupancy, TableState, NewSession,
  mark_table_occupied, get_table_state, close_table_session, mark_table_available,
}
use seatd_v.Operations.Queries.Effects.{
  lock_table_occupancy_returns, create_table_session_returns, mark_table_occupied_returns,
  get_table_state_returns, close_table_session_returns, mark_table_available_returns,
}
use seatd_v.Operations.Tables.{
  OccupyTableParams, ClearTableParams, TableResult, require_session, nullable_text,
  occupy_table_in_tx, clear_table_in_tx,
}
use seatd_v.Operations.Errors.{Error}

-- The row that occupying a table inserts.
abbrev pub occupying : OccupyTableParams → NewSession
occupying arg = record {
  key = arg.table;
  party_size = arg.party_size;
  opened_by = nullable_text arg.actor_ref;
  source = arg.source;
}

module _ (env : Env) (db : Database) (r : TableResult) (db' : Database) where
  -- An open session for a free table at the expected version, and nothing else.
  pub record Occupies (arg : OccupyTableParams) : Type 0 where
    pub before : TableOccupancy
    pub locked : find_row (is_lockable arg.table db) db.occupancies ≡ some before
    pub was_available : before.status ≡ available
    pub version_matched : before.version ≡ arg.expected_version
    pub marked : TableOccupancy
    pub found : find_row (is_occupiable arg.table arg.expected_version) db.occupancies ≡ some marked
    pub in_range : marked.version < max_int32
    pub opened : r.session ≡ opened_session (occupying arg) r.session.id env.now
    pub fresh : find_row (λ s. s.id == r.session.id) db.sessions ≡ none
    pub occupancy :
        r.occupancy ≡ occupied_by r.session.id (nullable_text arg.actor_ref) env.now marked
    pub stored : db' ≡ record db {
      sessions = r.session ∷ db.sessions;
      occupancies =
          update_rows
            (is_occupiable arg.table arg.expected_version)
            (occupied_by r.session.id (nullable_text arg.actor_ref) env.now)
            db.occupancies;
    }

module _ (env : Env) (t u : Tx) (r : TableResult) (arg : OccupyTableParams) where
  -- The statements of a successful run, one after the other.
  occupying_steps :
      (o : TableOccupancy) (s : TableSession) (m : TableOccupancy) (g : TableState) (t₁ t₂ t₃ : Tx)
      → lock_table_occupancy arg.table env t ≡ ok (o, t₁)
      → not (is_available o.status) ≡ false
      → not (o.version == arg.expected_version) ≡ false
      → create_table_session (occupying arg) env t₁ ≡ ok (s, t₂)
      → mark_table_occupied arg.table s.id (nullable_text arg.actor_ref) arg.expected_version env t₂
        ≡ ok (m, t₃)
      → get_table_state arg.table env t₃ ≡ ok (g, u)
      → r ≡ record { table = g.table; occupancy = m; session = s }
      → Occupies env t.db r u.db arg
  occupying_steps o s m g t₁ t₂ t₃ h₁ e₁ e₂ h₂ h₃ h₄ e = ground (
    arith,
    lock_table_occupancy_returns env t arg.table h₁,
    create_table_session_returns env t₁ (occupying arg) h₂,
    mark_table_occupied_returns env t₂ arg.table s.id (nullable_text arg.actor_ref)
        arg.expected_version h₃,
    get_table_state_returns env t₃ arg.table h₄,
  )

  pub occupy_table_in_tx_returns :
      occupy_table_in_tx arg env t ≡ ok (r, u) → Occupies env t.db r u.db arg
  unfolding occupy_table_in_tx
  occupy_table_in_tx_returns h =
      after_handle _ (lock_table_occupancy arg.table) _ env t h λ o t₁ h₁ k₁.
        after_refusal (not (is_available o.status)) _ _ env t₁ k₁ λ e₁ k₂.
          after_refusal (not (o.version == arg.expected_version)) _ _ env t₁ k₂ λ e₂ k₃.
            after_handle _ (create_table_session (occupying arg)) _ env t₁ k₃ λ s t₂ h₂ k₄.
              after_handle _
                (mark_table_occupied arg.table s.id (nullable_text arg.actor_ref)
                  arg.expected_version)
                _ env t₂ k₄
                λ m t₃ h₃ k₅. after_handle _ (get_table_state arg.table) _ env t₃ k₅ λ g t₄ h₄ k₆.
                  let (e, e') = pure_inv k₆ in
                  occupying_steps o s m g t₁ t₂ t₃ h₁ e₁ e₂ h₂ h₃ (rw e' h₄) e

after_session :
    {P B : Type 0} (o : Option ℕ) (k : ℕ → Action Error B) (env : Env) (t : Tx) {x : B × Tx}
    → (require_session o >>= k) env t ≡ ok x
    → ((c : ℕ) → o ≡ some c → k c env t ≡ ok x → P)
    → P
after_session none k env t h go = cc
after_session (some c) k env t h go = go c refl h

module _ (env : Env) (db : Database) (r : TableResult) (db' : Database) where
  -- The session of an occupied table at the expected version is closed, and nothing else happens.
  pub record Clears (arg : ClearTableParams) : Type 0 where
    pub before : TableOccupancy
    pub locked : find_row (is_lockable arg.table db) db.occupancies ≡ some before
    pub was_occupied : before.status ≡ occupied
    pub version_matched : before.version ≡ arg.expected_version
    pub current : ℕ
    pub had_session : before.current_session_id ≡ some current
    pub open_session : TableSession
    pub was_open :
        find_row (is_closable (record arg.table { id = current })) db.sessions ≡ some open_session
    pub in_order : open_session.started_at ≤ env.now
    pub closed : r.session ≡ closed_by_at (nullable_text arg.actor_ref) env.now open_session
    pub marked : TableOccupancy
    pub found : find_row (is_clearable arg.table arg.expected_version) db.occupancies ≡ some marked
    pub in_range : marked.version < max_int32
    pub occupancy : r.occupancy ≡ freed_by (nullable_text arg.actor_ref) env.now marked
    pub stored : db' ≡ record db {
      sessions =
          update_rows
            (is_closable (record arg.table { id = current }))
            (closed_by_at (nullable_text arg.actor_ref) env.now)
            db.sessions;
      occupancies =
          update_rows
            (is_clearable arg.table arg.expected_version)
            (freed_by (nullable_text arg.actor_ref) env.now)
            db.occupancies;
    }

module _ (env : Env) (t u : Tx) (r : TableResult) (arg : ClearTableParams) where
  abbrev actor : Option String
  actor = nullable_text arg.actor_ref

  -- The statements of a successful run, one after the other.
  clearing_steps :
      (o : TableOccupancy) (c : ℕ) (s : TableSession) (m : TableOccupancy) (g : TableState)
      (t₁ t₂ t₃ : Tx)
      → lock_table_occupancy arg.table env t ≡ ok (o, t₁)
      → is_available o.status ≡ false
      → not (o.version == arg.expected_version) ≡ false
      → o.current_session_id ≡ some c
      → close_table_session (record arg.table { id = c }) actor env t₁ ≡ ok (s, t₂)
      → mark_table_available arg.table actor arg.expected_version env t₂ ≡ ok (m, t₃)
      → get_table_state arg.table env t₃ ≡ ok (g, u)
      → r ≡ record { table = g.table; occupancy = m; session = s }
      → Clears env t.db r u.db arg
  clearing_steps o c s m g t₁ t₂ t₃ h₁ e₁ e₂ e₃ h₂ h₃ h₄ e = ground (
    arith,
    lock_table_occupancy_returns env t arg.table h₁,
    close_table_session_returns env t₁ (record arg.table { id = c }) actor h₂,
    mark_table_available_returns env t₂ arg.table actor arg.expected_version h₃,
    get_table_state_returns env t₃ arg.table h₄,
  )

  pub clear_table_in_tx_returns :
      clear_table_in_tx arg env t ≡ ok (r, u) → Clears env t.db r u.db arg
  unfolding clear_table_in_tx
  clear_table_in_tx_returns h =
      after_handle _ (lock_table_occupancy arg.table) _ env t h λ o t₁ h₁ k₁.
        after_refusal (is_available o.status) _ _ env t₁ k₁ λ e₁ k₂.
          after_refusal (not (o.version == arg.expected_version)) _ _ env t₁ k₂ λ e₂ k₃.
            after_session o.current_session_id _ env t₁ k₃ λ c e₃ k₄.
              after_handle _ (close_table_session (record arg.table { id = c }) actor) _ env t₁ k₄
                λ s t₂ h₂ k₅.
                  after_handle _ (mark_table_available arg.table actor arg.expected_version) _ env
                    t₂ k₅
                    λ m t₃ h₃ k₆.
                      after_handle _ (get_table_state arg.table) _ env t₃ k₆ λ g t₄ h₄ k₇.
                        let (e, e') = pure_inv k₇ in
                        clearing_steps o c s m g t₁ t₂ t₃ h₁ e₁ e₂ e₃ h₂ h₃ (rw e' h₄) e
