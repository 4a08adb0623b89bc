-- ===== src/Operations/Tables/Consistency.antt =====
-- The occupancy rows and the session rows tell the same story: an occupied table has one open
-- session, which its occupancy names, and a session that is open is named by its table's occupancy.
use mathlib.Core.Option
use seatd_v.Base.{
  ℕ, ◌≡◌, refl, sym, ◌∙◌, Bool, Option, none, some, List, if◌then◌else◌, update_rows, find_key,
  IsKeyed, find_key-update_rows,
}
use seatd_v.Store.{Database, TableRow, TableOccupancy, TableSession, available, occupied}

abbrev pub table_at : Database → ℕ → Option TableRow
table_at db k = find_key (λ t. t.id) k db.tables

abbrev pub occupancy_at : Database → ℕ → Option TableOccupancy
occupancy_at db k = find_key (λ o. o.table_id) k db.occupancies

abbrev pub session_at : Database → ℕ → Option TableSession
session_at db k = find_key (λ s. s.id) k db.sessions

-- The session that an occupancy names is open, and is a session of that table.
pub record Holds (db : Database) (k : ℕ) (o : TableOccupancy) (s : TableSession) : Type 0 where
  pub named : o.current_session_id ≡ some s.id
  pub stored : session_at db s.id ≡ some s
  pub of_table : s.table_id ≡ k
  pub is_open : s.ended_at ≡ none
  pub same_organisation : s.organisation_id ≡ o.organisation_id
  pub same_location : s.location_id ≡ o.location_id

pub record IsConsistent (db : Database) : Type 0 where
  pub keyed_occupancies : IsKeyed (λ o. o.table_id) db.occupancies
  pub keyed_sessions : IsKeyed (λ s. s.id) db.sessions
  pub available_free :
      (k : ℕ) (o : TableOccupancy)
      → occupancy_at db k ≡ some o
      → o.status ≡ available
      → o.current_session_id ≡ none
  pub occupied_held :
      (k : ℕ) (o : TableOccupancy)
      → occupancy_at db k ≡ some o
      → o.status ≡ occupied
      → (s : TableSession) × Holds db k o s
  pub open_named :
      (k : ℕ) (s : TableSession)
      → session_at db k ≡ some s
      → s.ended_at ≡ none
      → (o : TableOccupancy) × (occupancy_at db s.table_id ≡ some o)
        × (o.current_session_id ≡ some k)

-- A row that an update left under a key comes from the row that was there.
module _ {A : Type 0} (key : A → ℕ) (test : A → Bool) (change : A → A) where
  pub updated_inv :
      (k : ℕ) (xs : List A) (y : A)
      → ((x : A) → key (change x) ≡ key x)
      → find_key key k (update_rows test change xs) ≡ some y
      → (x : A) × (find_key key k xs ≡ some x) × (y ≡ (if test x then change x else x))
  updated_inv k xs y keeps h =
      map_inv (find_key key k xs) (sym (find_key-update_rows key test change k xs keeps) ∙ h)
    where
      map_inv :
          (o : Option A)
          → Option.map (λ x. if test x then change x else x) o ≡ some y
          → (x : A) × (o ≡ some x) × (y ≡ (if test x then change x else x))
      map_inv none e = cc
      map_inv (some x) e = (x, refl, cc)

  pub updated :
      (k : ℕ) (xs : List A) (x : A)
      → ((x : A) → key (change x) ≡ key x)
      → find_key key k xs ≡ some x
      → find_key key k (update_rows test change xs) ≡ some (if test x then change x else x)
  updated k xs x keeps h = rw (find_key-update_rows key test change k xs keeps, h)
