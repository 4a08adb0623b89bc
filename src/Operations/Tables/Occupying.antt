-- ===== src/Operations/Tables/Occupying.antt =====
-- occupyTableInTx and the consistency of occupancies and sessions.
use seatd_v.Base.{
  ℕ, ◌≡◌, refl, ap, sym, ◌∙◌, Bool, true, false, none, some, arith, ◌==◌, if◌then◌else◌, Bool-cases,
  inl, inr, find_key-cons, find_key-eq_key, update_rows-IsKeyed, find_row-find_key, find_row-test,
}
use seatd_v.Store.{Database, TableOccupancy, TableSession, available, occupied, Env}
use seatd_v.Operations.Queries.{is_occupiable, occupied_by}
use seatd_v.Operations.Tables.{OccupyTableParams, TableResult, nullable_text}
use seatd_v.Operations.Tables.Returns.{Occupies}
use seatd_v.Operations.Tables.Consistency.{
  occupancy_at, session_at, Holds, IsConsistent, updated, updated_inv,
}

module _ (env : Env) (db db' : Database) (r : TableResult) (arg : OccupyTableParams)
    (c : IsConsistent db) (d : Occupies env db r db' arg) where
  abbrev now_occupied : TableOccupancy → TableOccupancy
  now_occupied = occupied_by r.session.id (nullable_text arg.actor_ref) env.now

  abbrev test : TableOccupancy → Bool
  test = is_occupiable arg.table arg.expected_version

  marked_at : occupancy_at db arg.table.id ≡ some d.marked
  marked_at =
      find_row-find_key (λ o. o.table_id) test arg.table.id db.occupancies d.marked
        (λ o h. ground arith) c.keyed_occupancies d.found

  session_at_occupied :
      (k : ℕ) → session_at db' k ≡ (if r.session.id == k then some r.session else session_at db k)
  session_at_occupied k = rw d.stored (find_key-cons (λ s. s.id) k r.session db.sessions)

  occupancy_at_occupied :
      (k : ℕ) (o' : TableOccupancy)
      → occupancy_at db' k ≡ some o'
      → (o : TableOccupancy) × (occupancy_at db k ≡ some o)
        × (o' ≡ (if test o then now_occupied o else o))
  occupancy_at_occupied k o' h =
      updated_inv (λ o. o.table_id) test now_occupied k db.occupancies o' (λ x. refl)
        (rw d.stored at h)

  newly_held :
      (k : ℕ) (o o' : TableOccupancy)
      → occupancy_at db k ≡ some o
      → o' ≡ (if test o then now_occupied o else o)
      → test o ≡ true
      → Holds db' k o' r.session
  newly_held k o o' old e passed = ground (
    arith,
    session_at_occupied r.session.id,
    find_key-eq_key (λ o. o.table_id) k db.occupancies o old,
    d.opened,
    ap (λ (s : TableSession). s.table_id) d.opened,
  )

  still_held :
      (k : ℕ) (o o' : TableOccupancy) (s : TableSession)
      → o' ≡ (if test o then now_occupied o else o)
      → test o ≡ false
      → Holds db k o s
      → Holds db' k o' s
  still_held k o o' s e passed h = ground (arith, session_at_occupied s.id, d.fresh)

  occupied_held_after :
      (k : ℕ) (o' : TableOccupancy)
      → occupancy_at db' k ≡ some o'
      → o'.status ≡ occupied
      → (s : TableSession) × Holds db' k o' s
  occupied_held_after k o' h status =
      let (o, old, e) = occupancy_at_occupied k o' h in
      elim (Bool-cases (test o)) [
        | inl passed ↦ (r.session, newly_held k o o' old e passed)
        | inr kept ↦
            let (s, held) =
              c.occupied_held k o old
                (ap (λ (o : TableOccupancy). o.status) (sym (rw kept at e)) ∙ status) in
            (s, still_held k o o' s e kept held)
      ]

  available_free_after :
      (k : ℕ) (o' : TableOccupancy)
      → occupancy_at db' k ≡ some o'
      → o'.status ≡ available
      → o'.current_session_id ≡ none
  available_free_after k o' h status =
      let (o, old, e) = occupancy_at_occupied k o' h in ground (arith, c.available_free k o old)

  occupancy_at_kept :
      (k : ℕ) (o : TableOccupancy)
      → occupancy_at db k ≡ some o
      → occupancy_at db' k ≡ some (if test o then now_occupied o else o)
  occupancy_at_kept k o h =
      rw d.stored (updated (λ o. o.table_id) test now_occupied k db.occupancies o (λ x. refl) h)

  newly_named :
      (k : ℕ) (s : TableSession)
      → session_at db' k ≡ some s
      → (r.session.id == k) ≡ true
      → (occupancy_at db' s.table_id ≡ some (now_occupied d.marked))
        × ((now_occupied d.marked).current_session_id ≡ some k)
  newly_named k s h new = ground (
    arith,
    session_at_occupied k,
    ap (λ (s : TableSession). s.table_id) d.opened,
    marked_at,
    find_row-test test db.occupancies d.marked d.found,
    occupancy_at_kept arg.table.id d.marked,
  )

  still_named :
      (k : ℕ) (s : TableSession) (o : TableOccupancy)
      → occupancy_at db s.table_id ≡ some o
      → o.current_session_id ≡ some k
      → occupancy_at db' s.table_id ≡ some o
  still_named k s o h e =
      ground (arith, c.available_free s.table_id o, occupancy_at_kept s.table_id o)

  open_named_after :
      (k : ℕ) (s : TableSession)
      → session_at db' k ≡ some s
      → s.ended_at ≡ none
      → (o : TableOccupancy) × (occupancy_at db' s.table_id ≡ some o)
        × (o.current_session_id ≡ some k)
  open_named_after k s h running = elim (Bool-cases (r.session.id == k)) [
    | inl new ↦ let (e, named) = newly_named k s h new in (now_occupied d.marked, e, named)
    | inr old ↦
        let before : session_at db k ≡ some s = ground (arith, session_at_occupied k) in
        let (o, e, named) = c.open_named k s before running in (o, still_named k s o e named, named)
  ]

  pub Occupies-IsConsistent : IsConsistent db'
  Occupies-IsConsistent = record {
    keyed_occupancies = rw d.stored (
        update_rows-IsKeyed (λ o. o.table_id) test now_occupied db.occupancies (λ x. refl)
          c.keyed_occupancies);
    keyed_sessions = rw d.stored (d.fresh, c.keyed_sessions);
    available_free = available_free_after;
    occupied_held = occupied_held_after;
    open_named = open_named_after;
  }
