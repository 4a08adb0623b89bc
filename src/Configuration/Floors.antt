-- ===== src/Configuration/Floors.antt =====
-- CreateFloor, UpdateFloor, ArchiveFloor and RestoreFloor of internal/domain/configuration/service.go. An
-- actor has the fields of the TenantActor of internal/domain/identity. A sort order below 0 is none, a
-- version below 1 is 0. What json.Unmarshal and json.Marshal make of a JSON object is a function.
use seatd_v.Base.{
  ℕ, Bool, not, ◌||◌, ◌==◌, String, Option, none, some, List, [], ◌∷◌, if◌then◌else◌, is_empty,
}
use seatd_v.Store.{Env, Bytes, Outcome, err, ◌>>=◌, ◌>>◌, handle, refuse_if, present}
use seatd_v.Identity.Schema.{Texts}
use seatd_v.Identity.Memberships.{TenantActor}
use seatd_v.Configuration.Transaction.{
  Floor, Layout, Error, forbidden, validation, version_conflict, database, wrap_write_error, Action,
  in_tenant_tx,
}
use seatd_v.Configuration.Queries.{
  FloorContent, actor_has_location_permission, create_floor_row, update_floor_row,
  archive_floor_row, restore_floor_row,
}

pub record UpsertFloorParams : Type 0 where
  pub actor : TenantActor
  pub id : ℕ
  pub slug : String
  pub name : String
  pub sort_order : Option ℕ
  pub canvas : Bytes
  pub background_asset_ref : String
  pub expected_version : ℕ

-- The texts of other code, and the normal form of the text of a JSON object
pub record Formats : Type 0 where
  pub texts : Texts
  pub normal_object : Bytes → Option Bytes

abbrev pub layout_write : String
layout_write = "layout.write"

unfoldable pub require_permission : TenantActor → String → Action (Unit {0})
unfolding actor_has_location_permission
require_permission actor permission = do
  allowed ← handle database (
      actor_has_location_permission actor.organisation_id actor.location_id actor.actor_ref
        permission)
  refuse_if (not allowed) forbidden

-- TenantActor.validate, for an operation at a location
abbrev pub is_valid_actor : Formats → TenantActor → Bool
is_valid_actor formats actor = not (
    actor.organisation_id == 0
    || is_empty (formats.texts.trim_space actor.actor_ref)
    || actor.location_id == 0)

abbrev pub normalize_json_object : Formats → Bytes → Option Bytes
normalize_json_object formats [] = some (123 ∷ 125 ∷ [])
normalize_json_object formats (b ∷ bs) = formats.normal_object (b ∷ bs)

abbrev pub trimmed_text : Formats → String → Option String
trimmed_text formats value =
    if is_empty (formats.texts.trim_space value)
    then none
    else some (formats.texts.trim_space value)

-- validateFloor, then the canvas in its normal form: none is ErrValidation.
abbrev pub content_of : Formats → UpsertFloorParams → Option ℕ → Option Bytes → Option FloorContent
content_of formats arg none canvas = none
content_of formats arg (some sort_order) none = none
content_of formats arg (some sort_order) (some canvas) =
    if not (is_valid_actor formats arg.actor)
      || is_empty (formats.texts.trim_space arg.slug)
      || is_empty (formats.texts.trim_space arg.name)
    then none
    else some (record {
      slug = formats.texts.trim_space arg.slug;
      name = formats.texts.trim_space arg.name;
      sort_order = sort_order;
      canvas = canvas;
      background_asset_ref = trimmed_text formats arg.background_asset_ref;
    })

abbrev pub floor_content : Formats → UpsertFloorParams → Option FloorContent
floor_content formats arg =
    content_of formats arg arg.sort_order (normalize_json_object formats arg.canvas)

unfoldable pub create_floor_in_tx : TenantActor → FloorContent → Action Floor
unfolding require_permission create_floor_row
create_floor_in_tx actor content = do
  require_permission actor layout_write
  handle wrap_write_error (create_floor_row actor.organisation_id actor.location_id content)

abbrev pub create_with :
    TenantActor → Env → Option FloorContent → Layout → Outcome Error Floor × Layout
create_with actor env none db = (err validation, db)
create_with actor env (some content) db = in_tenant_tx (create_floor_in_tx actor content) env db

unfoldable pub create_floor :
    Formats → UpsertFloorParams → Env → Layout → Outcome Error Floor × Layout
unfolding in_tenant_tx create_floor_in_tx
create_floor formats arg env = create_with arg.actor env (floor_content formats arg)

unfoldable pub update_floor_in_tx : TenantActor → ℕ → ℕ → FloorContent → Action Floor
unfolding require_permission update_floor_row
update_floor_in_tx actor id expected_version content = do
  require_permission actor layout_write
  floor ←
      handle wrap_write_error
        (update_floor_row id actor.organisation_id actor.location_id expected_version content)
  present version_conflict floor

abbrev pub update_with :
    UpsertFloorParams → Env → Option FloorContent → Layout → Outcome Error Floor × Layout
update_with arg env none db = (err validation, db)
update_with arg env (some content) db =
    if arg.id == 0 || arg.expected_version == 0
    then (err validation, db)
    else in_tenant_tx (update_floor_in_tx arg.actor arg.id arg.expected_version content) env db

unfoldable pub update_floor :
    Formats → UpsertFloorParams → Env → Layout → Outcome Error Floor × Layout
unfolding in_tenant_tx update_floor_in_tx
update_floor formats arg env = update_with arg env (floor_content formats arg)

unfoldable pub change_active_in_tx : TenantActor → ℕ → ℕ → Bool → Action Floor
unfolding require_permission restore_floor_row archive_floor_row
change_active_in_tx actor id expected_version active = do
  require_permission actor layout_write
  floor ← handle wrap_write_error (
      if active
      then restore_floor_row id actor.organisation_id actor.location_id expected_version
      else archive_floor_row id actor.organisation_id actor.location_id expected_version)
  present version_conflict floor

-- changeFloorActive: ArchiveFloor with false, RestoreFloor with true
unfoldable pub change_floor_active :
    Formats → TenantActor → ℕ → ℕ → Bool → Env → Layout → Outcome Error Floor × Layout
unfolding in_tenant_tx change_active_in_tx
change_floor_active formats actor id expected_version active env db =
    if not (is_valid_actor formats actor) || id == 0 || expected_version == 0
    then (err validation, db)
    else in_tenant_tx (change_active_in_tx actor id expected_version active) env db

pub data Call : Type 0 where
  create : UpsertFloorParams → Call
  update : UpsertFloorParams → Call
  change_active : TenantActor → ℕ → ℕ → Bool → Call

unfoldable pub answer : Formats → Env → Call → Layout → Outcome Error Floor × Layout
unfolding create_floor update_floor change_floor_active
answer formats env (create arg) db = create_floor formats arg env db
answer formats env (update arg) db = update_floor formats arg env db
answer formats env (change_active actor id expected_version active) db =
    change_floor_active formats actor id expected_version active env db

unfoldable pub run : Formats → List (Env × Call) → Layout → Layout
unfolding answer
run formats [] db = db
run formats ((env, call) ∷ calls) db = run formats calls (answer formats env call db).1
