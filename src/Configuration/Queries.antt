-- ===== src/Configuration/Queries.antt =====
-- The statements on floors in internal/store/db/layout.sql.go, with the constraints of
-- infra/database/migrations/000002_core_domain.up.sql. Versions are int32: the statement that would
-- increment one beyond 2 ^ 31 - 1 fails.
use seatd_v.Base.{
  ℕ, suc, ltb, Bool, true, false, not, ◌&&◌, ◌||◌, ◌==◌, String, Option, none, some, ◌∷◌,
  if◌then◌else◌, is_empty, has_row, find_row, update_rows, str_eq,
}
use seatd_v.Store.{
  Env, Bytes, DbError, violation, duplicate, Outcome, ok, err, ◌>>=◌, new_id, statement, select,
}
use seatd_v.Identity.DeviceQueries.{is_permitted_at, is_located}
use seatd_v.Configuration.Transaction.{Floor, Layout, Query}

unfoldable pub actor_has_location_permission : ℕ → ℕ → String → String → Query Bool
unfolding select
actor_has_location_permission organisation_id location_id member_ref permission =
    select (λ db. is_permitted_at organisation_id location_id member_ref permission db.directory)

-- The columns that CreateFloor and UpdateFloor set
pub record FloorContent : Type 0 where
  pub slug : String
  pub name : String
  pub sort_order : ℕ
  pub canvas : Bytes
  pub background_asset_ref : Option String

abbrev pub new_floor : ℕ → ℕ → FloorContent → ℕ → ℕ → Floor
new_floor organisation_id location_id content id now = record {
  id = id;
  organisation_id = organisation_id;
  location_id = location_id;
  slug = content.slug;
  name = content.name;
  sort_order = content.sort_order;
  canvas = content.canvas;
  background_asset_ref = content.background_asset_ref;
  is_active = true;
  version = 1;
  created_at = now;
  updated_at = now;
}

-- CHECK (slug <> ''), CHECK (name <> '')
abbrev pub is_named : FloorContent → Bool
is_named content = not (is_empty content.slug) && not (is_empty content.name)

-- PRIMARY KEY (id), UNIQUE (location_id, slug)
abbrev pub is_floor_clash : Floor → Floor → Bool
is_floor_clash a b = b.id == a.id || (b.location_id == a.location_id && str_eq b.slug a.slug)

abbrev pub insert_floor : ℕ → ℕ → FloorContent → ℕ → Env → Layout → Outcome DbError (Floor × Layout)
insert_floor organisation_id location_id content id env db =
    let floor = new_floor organisation_id location_id content id env.now in
    if has_row (is_floor_clash floor) db.floors
    then err duplicate
    else if is_located organisation_id (some location_id) db.directory && is_named content
    then ok (floor, record db { floors = floor ∷ db.floors })
    else err violation

unfoldable pub create_floor_row : ℕ → ℕ → FloorContent → Query Floor
unfolding statement
create_floor_row organisation_id location_id content = do
  id ← new_id
  statement (insert_floor organisation_id location_id content id)

-- WHERE id = $1 AND organisation_id = $2 AND location_id = $3 AND version = …
abbrev pub is_floor_at : ℕ → ℕ → ℕ → ℕ → Floor → Bool
is_floor_at id organisation_id location_id version f =
    f.id == id
    && f.organisation_id == organisation_id
    && f.location_id == location_id
    && f.version == version

-- version = version + 1, updated_at = now()
abbrev pub next_version : ℕ → Floor → Floor
next_version now f = record f { version = suc f.version; updated_at = now }

abbrev pub edited : FloorContent → ℕ → Floor → Floor
edited content now f = next_version now (record f {
  slug = content.slug;
  name = content.name;
  sort_order = content.sort_order;
  canvas = content.canvas;
  background_asset_ref = content.background_asset_ref;
})

abbrev pub set_active : Bool → ℕ → Floor → Floor
set_active active now f = next_version now (record f { is_active = active })

-- Another floor of the location with the slug
abbrev pub is_slug_taken : Floor → Layout → Bool
is_slug_taken f db =
    has_row (λ g. not (g.id == f.id) && g.location_id == f.location_id && str_eq g.slug f.slug)
      db.floors

abbrev pub written_floor :
    (Floor → Bool)
    → (Floor → Floor)
    → Layout
    → Option Floor
    → Outcome DbError (Option Floor × Layout)
written_floor test change db none = ok (none, db)
written_floor test change db (some f) =
    if is_slug_taken (change f) db
    then err duplicate
    else if ltb f.version 2147483647
        && not (is_empty (change f).slug)
        && not (is_empty (change f).name)
    then ok (some (change f), record db { floors = update_rows test change db.floors })
    else err violation

abbrev pub write_floor :
    (Floor → Bool) → (ℕ → Floor → Floor) → Env → Layout → Outcome DbError (Option Floor × Layout)
write_floor test change env db = written_floor test (change env.now) db (find_row test db.floors)

module _ (id organisation_id location_id version : ℕ) where
  unfoldable pub update_floor_row : FloorContent → Query (Option Floor)
  unfolding statement
  update_floor_row content =
      statement (write_floor (is_floor_at id organisation_id location_id version) (edited content))

  unfoldable pub archive_floor_row : Query (Option Floor)
  unfolding statement
  archive_floor_row =
      statement
        (write_floor (is_floor_at id organisation_id location_id version) (set_active false))

  unfoldable pub restore_floor_row : Query (Option Floor)
  unfolding statement
  restore_floor_row =
      statement (write_floor (is_floor_at id organisation_id location_id version) (set_active true))
