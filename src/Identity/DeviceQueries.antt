-- ===== src/Identity/DeviceQueries.antt =====
-- The statements on devices, their credentials and pairing codes in internal/store/db/security.sql.go, with
-- the constraints of infra/database/migrations.
use seatd_v.Base.{
  ℕ, ltb, Bool, true, false, not, ◌&&◌, ◌||◌, ◌==◌, String, Option, none, some, ◌∷◌, if◌then◌else◌,
  is_empty, is_some, holds, has_row, find_row, update_rows, str_eq,
}
use seatd_v.Store.{
  Env, Bytes, DbError, violation, duplicate, Outcome, ok, err, ◌>>=◌, new_id, statement, select,
}
use seatd_v.Identity.Schema.{Directory, Device, TrustState, pending, trusted, revoked}
use seatd_v.Identity.Queries.{Query, is_permitted, grants, is_active, is_referenced}

-- ActorHasLocationPermission
abbrev pub is_permitted_at : ℕ → ℕ → String → String → Directory → Bool
is_permitted_at organisation_id location_id member_ref permission db =
    has_row
      (λ m.
        m.organisation_id == organisation_id
        && holds m.location_id location_id
        && str_eq m.member_ref member_ref
        && is_active m
        && grants db permission m)
      db.location_memberships
    || is_permitted organisation_id member_ref permission db

unfoldable pub actor_has_location_permission : ℕ → ℕ → String → String → Query Bool
unfolding select
actor_has_location_permission organisation_id location_id member_ref permission =
    select (is_permitted_at organisation_id location_id member_ref permission)

abbrev pub is_trusted : TrustState → Bool
is_trusted trusted = true
is_trusted pending = false
is_trusted revoked = false

-- trust_state = 'trusted' AND revoked_at IS NULL
abbrev pub is_usable : Device → Bool
is_usable d = is_trusted d.trust_state && not (is_some d.revoked_at)

abbrev pub is_later : ℕ → Option ℕ → Bool
is_later now none = true
is_later now (some t) = ltb now t

-- What a RegisterDevice inserts
pub record NewDevice : Type 0 where
  pub organisation_id : ℕ
  pub location_id : Option ℕ
  pub user_profile_id : Option ℕ
  pub device_type : String
  pub platform : String
  pub app_version : String
  pub name : Option String
  pub capabilities : Bytes
  pub configuration : Bytes
  pub heartbeat_interval_seconds : ℕ

abbrev pub assigned : Option ℕ → ℕ → Option ℕ
assigned none now = none
assigned (some l) now = some now

abbrev pub registered : NewDevice → ℕ → ℕ → Device
registered n id now = record {
  id = id;
  organisation_id = n.organisation_id;
  location_id = n.location_id;
  user_profile_id = n.user_profile_id;
  device_type = n.device_type;
  platform = n.platform;
  app_version = n.app_version;
  trust_state = pending;
  registered_at = now;
  last_seen_at = none;
  revoked_at = none;
  created_at = now;
  updated_at = now;
  name = n.name;
  capabilities = n.capabilities;
  configuration = n.configuration;
  assigned_at = assigned n.location_id now;
  last_heartbeat_at = none;
  heartbeat_interval_seconds = n.heartbeat_interval_seconds;
}

-- The foreign keys, and the CHECK constraints of texts and of the interval
abbrev pub is_located : ℕ → Option ℕ → Directory → Bool
is_located organisation_id none db = true
is_located organisation_id (some id) db =
    has_row (λ l. l.id == id && l.organisation_id == organisation_id) db.locations

abbrev pub valid_device_type : String → Bool
valid_device_type value =
    str_eq value "waiter_mobile"
    || str_eq value "manager_tablet"
    || str_eq value "display"
    || str_eq value "host_device"

abbrev pub is_registrable : NewDevice → Directory → Bool
is_registrable n db =
    has_row (λ o. o == n.organisation_id) db.organisations
    && is_located n.organisation_id n.location_id db
    && is_referenced n.user_profile_id db
    && valid_device_type n.device_type
    && not (is_empty n.platform)
    && not (is_empty n.app_version)
    && ltb 0 n.heartbeat_interval_seconds

abbrev pub insert_device : NewDevice → ℕ → Env → Directory → Outcome DbError (Device × Directory)
insert_device n id env db =
    if has_row (λ d. d.id == id) db.devices
    then err duplicate
    else if is_registrable n db
    then ok (registered n id env.now, record db { devices = registered n id env.now ∷ db.devices })
    else err violation

unfoldable pub insert_registered_device : NewDevice → Query Device
unfolding statement
insert_registered_device n = do id ← new_id; statement (insert_device n id)

-- UPDATE devices SET … WHERE … RETURNING
abbrev pub returned :
    (Device → Device)
    → (Device → Bool)
    → Directory
    → Option Device
    → Outcome DbError (Option Device × Directory)
returned change test db none = ok (none, db)
returned change test db (some d) =
    ok (some (change d), record db { devices = update_rows test change db.devices })

abbrev pub update_device :
    (Device → Bool)
    → (ℕ → Device → Device)
    → Env
    → Directory
    → Outcome DbError (Option Device × Directory)
update_device test change env db = returned (change env.now) test db (find_row test db.devices)

abbrev pub is_device : ℕ → ℕ → Device → Bool
is_device id organisation_id d = d.id == id && d.organisation_id == organisation_id

abbrev pub is_unrevoked : ℕ → ℕ → Device → Bool
is_unrevoked id organisation_id d = is_device id organisation_id d && not (is_some d.revoked_at)

abbrev pub is_usable_device : ℕ → ℕ → Device → Bool
is_usable_device id organisation_id d = is_device id organisation_id d && is_usable d

abbrev pub trusted_at : ℕ → Device → Device
trusted_at now d = record d { trust_state = trusted; updated_at = now }

abbrev pub revoked_at : ℕ → Device → Device
revoked_at now d = record d { trust_state = revoked; revoked_at = some now; updated_at = now }

abbrev pub seen_at : ℕ → Device → Device
seen_at now d = record d { last_seen_at = some now; updated_at = now }

abbrev pub heard_at : String → Bytes → ℕ → Device → Device
heard_at app_version capabilities now d = record d {
  last_seen_at = some now;
  last_heartbeat_at = some now;
  app_version = app_version;
  capabilities = capabilities;
  updated_at = now;
}

module _ (id organisation_id : ℕ) where
  unfoldable pub get_device : Query (Option Device)
  unfolding select
  get_device = select (λ db. find_row (is_device id organisation_id) db.devices)

  unfoldable pub update_trusted : Query (Option Device)
  unfolding statement
  update_trusted = statement (update_device (is_unrevoked id organisation_id) trusted_at)

  unfoldable pub update_revoked : Query (Option Device)
  unfolding statement
  update_revoked = statement (update_device (is_unrevoked id organisation_id) revoked_at)

  unfoldable pub mark_device_seen : Query (Option Device)
  unfolding statement
  mark_device_seen = statement (update_device (is_usable_device id organisation_id) seen_at)

  unfoldable pub record_device_heartbeat : String → Bytes → Query (Option Device)
  unfolding statement
  record_device_heartbeat app_version capabilities =
      statement
        (update_device (is_usable_device id organisation_id) (heard_at app_version capabilities))
