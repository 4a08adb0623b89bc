-- ===== src/Operations/Tables/Clearing.antt =====
-- clearTableInTx and the consistency of occupancies and sessions.
use seatd_v.Base.{
  ℕ, ◌≡◌, refl, Bool, true, none, some, arith, if◌then◌else◌, find_key-eq_key, update_rows-IsKeyed,
  find_row-find_key, find_row-test,
}
use seatd_v.Store.{Database, TableOccupancy, TableSession, available, occupied, Env}
use seatd_v.Operations.Queries.{is_lockable, is_clearable, freed_by, is_closable, closed_by_at}
use seatd_v.Operations.Tables.{ClearTableParams, TableResult, nullable_text}
use seatd_v.Operations.Tables.Returns.{Clears}
use seatd_v.Operations.Tables.Consistency.{
  occupancy_at, session_at, Holds, IsConsistent, updated, updated_inv,
}

module _ (env : Env) (db db' : Database) (r : TableResult) (arg : ClearTableParams)
    (c : IsConsistent db) (d : Clears env db r db' arg) where
  abbrev freed : TableOccupancy → TableOccupancy
  freed = freed_by (nullable_text arg.actor_ref) env.now

  abbrev ended : TableSession → TableSession
  ended = closed_by_at (nullable_text arg.actor_ref) env.now

  abbrev test : TableOccupancy → Bool
  test = is_clearable arg.table arg.expected_version

  abbrev closable : TableSession → Bool
  closable = is_closable (record arg.table { id = d.current })

  before_at : occupancy_at db arg.table.id ≡ some d.before
  before_at =
      find_row-find_key (λ o. o.table_id) (is_lockable arg.table db) arg.table.id db.occupancies
        d.before (λ o h. ground arith) c.keyed_occupancies d.locked

  marked_at : occupancy_at db arg.table.id ≡ some d.marked
  marked_at =
      find_row-find_key (λ o. o.table_id) test arg.table.id db.occupancies d.marked
        (λ o h. ground arith) c.keyed_occupancies d.found

  -- The row that is locked is the row that is marked.
  before-eq-marked : d.before ≡ d.marked
  before-eq-marked = cc (before_at, marked_at)

  session_closed : session_at db d.current ≡ some d.open_session
  session_closed =
      find_row-find_key (λ s. s.id) closable d.current db.sessions d.open_session
        (λ s h. ground arith) c.keyed_sessions d.was_open

  occupancy_at-freed :
      (k : ℕ) (o' : TableOccupancy)
      → occupancy_at db' k ≡ some o'
      → (o : TableOccupancy) × (occupancy_at db k ≡ some o) × (o' ≡ (if test o then freed o else o))
  occupancy_at-freed k o' h =
      updated_inv (λ o. o.table_id) test freed k db.occupancies o' (λ x. refl) (rw d.stored at h)

  session_at-ended :
      (k : ℕ) (s' : TableSession)
      → session_at db' k ≡ some s'
      → (s : TableSession) × (session_at db k ≡ some s) × (s' ≡ (if closable s then ended s else s))
  session_at-ended k s' h =
      updated_inv (λ s. s.id) closable ended k db.sessions s' (λ x. refl) (rw d.stored at h)

  occupancy_at_kept :
      (k : ℕ) (o : TableOccupancy)
      → occupancy_at db k ≡ some o
      → occupancy_at db' k ≡ some (if test o then freed o else o)
  occupancy_at_kept k o h =
      rw d.stored (updated (λ o. o.table_id) test freed k db.occupancies o (λ x. refl) h)

  session_at_kept :
      (k : ℕ) (s : TableSession)
      → session_at db k ≡ some s
      → session_at db' k ≡ some (if closable s then ended s else s)
  session_at_kept k s h =
      rw d.stored (updated (λ s. s.id) closable ended k db.sessions s (λ x. refl) h)

  -- The session that is closed is the one that the table holds.
  closed_of_table : d.open_session.table_id ≡ arg.table.id
  closed_of_table =
      let (s, h) = c.occupied_held arg.table.id d.before before_at d.was_occupied in
      cc (h.named, h.stored, h.of_table, d.had_session, session_closed)

  marked_passes : test d.marked ≡ true
  marked_passes = find_row-test test db.occupancies d.marked d.found

  -- The session that another table holds is not the one that is closed.
  still_held :
      (k : ℕ) (o o' : TableOccupancy) (s : TableSession)
      → occupancy_at db k ≡ some o
      → o' ≡ (if test o then freed o else o)
      → o'.status ≡ occupied
      → Holds db k o s
      → Holds db' k o' s
  still_held k o o' s old e status h =
      ground
        (arith, session_at_kept s.id s, marked_at, marked_passes, closed_of_table, session_closed)

  occupied_held_after :
      (k : ℕ) (o' : TableOccupancy)
      → occupancy_at db' k ≡ some o'
      → o'.status ≡ occupied
      → (s : TableSession) × Holds db' k o' s
  occupied_held_after k o' h status =
      let (o, old, e) = occupancy_at-freed k o' h in
      let (s, held) = c.occupied_held k o old (ground arith) in
      (s, still_held k o o' s old e status held)

  available_free_after :
      (k : ℕ) (o' : TableOccupancy)
      → occupancy_at db' k ≡ some o'
      → o'.status ≡ available
      → o'.current_session_id ≡ none
  available_free_after k o' h status =
      let (o, old, e) = occupancy_at-freed k o' h in ground (arith, c.available_free k o old)

  -- A session that is still open is not that of the cleared table.
  still_named :
      (k : ℕ) (s s' : TableSession) (o : TableOccupancy)
      → session_at db k ≡ some s
      → s' ≡ (if closable s then ended s else s)
      → s'.ended_at ≡ none
      → occupancy_at db s.table_id ≡ some o
      → o.current_session_id ≡ some k
      → occupancy_at db' s'.table_id ≡ some o
  still_named k s s' o old e running at named = ground (
    arith,
    occupancy_at_kept s.table_id o,
    find_row-test closable db.sessions d.open_session d.was_open,
    find_row-test test db.occupancies d.marked d.found,
    marked_at,
    before-eq-marked,
    session_closed,
    find_key-eq_key (λ o. o.table_id) s.table_id db.occupancies o at,
    find_key-eq_key (λ o. o.table_id) arg.table.id db.occupancies d.marked marked_at,
  )

  open_named_after :
      (k : ℕ) (s' : TableSession)
      → session_at db' k ≡ some s'
      → s'.ended_at ≡ none
      → (o : TableOccupancy) × (occupancy_at db' s'.table_id ≡ some o)
        × (o.current_session_id ≡ some k)
  open_named_after k s' h running =
      let (s, old, e) = session_at-ended k s' h in
      let (o, at, named) = c.open_named k s old (ground arith) in
      (o, still_named k s s' o old e running at named, named)

  pub Clears-IsConsistent : IsConsistent db'
  Clears-IsConsistent = record {
    keyed_occupancies = rw d.stored (
        update_rows-IsKeyed (λ o. o.table_id) test freed db.occupancies (λ x. refl)
          c.keyed_occupancies);
    keyed_sessions =
        rw d.stored
          (update_rows-IsKeyed (λ s. s.id) closable ended db.sessions (λ x. refl) c.keyed_sessions);
    available_free = available_free_after;
    occupied_held = occupied_held_after;
    open_named = open_named_after;
  }
