-- ===== src/Identity/Devices/Registration.antt =====
-- RegisterDevice of internal/domain/identity/service.go, and what the operations on devices share.
use seatd_v.Base.{
  ℕ, ltb, Bool, true, false, not, ◌||◌, ◌==◌, ◌/◌, String, Option, none, some, [], ◌∷◌,
  if◌then◌else◌, is_empty,
}
use seatd_v.Store.{Env, Bytes, Outcome, ok, err, ◌>>=◌, ◌>>◌, pure, handle, refuse_if}
use seatd_v.Identity.Schema.{Directory, Texts, Device, DeviceCredential}
use seatd_v.Identity.Transaction.{
  Error, forbidden, validation, no_randomness, database, Action, refusal, unless_refused,
  in_tenant_db_tx,
}
use seatd_v.Identity.Queries.{nullable_uuid}
use seatd_v.Identity.Secrets.{Token, token_of, lookup_prefix, hash_secret}
use seatd_v.Identity.DeviceQueries.{
  NewDevice, actor_has_location_permission, insert_registered_device, valid_device_type,
}
use seatd_v.Identity.CredentialQueries.{create_device_credential}
use seatd_v.Identity.Memberships.{TenantActor}

abbrev pub device_manage : String
device_manage = "device.manage"

unfoldable pub require_location_permission : TenantActor → String → Action (Unit {0})
unfolding actor_has_location_permission
require_location_permission actor permission = do
  refuse_if (actor.location_id == 0) forbidden
  allowed ← handle database (
      actor_has_location_permission actor.organisation_id actor.location_id actor.actor_ref
        permission)
  refuse_if (not allowed) forbidden

-- GenerateOpaqueSecret, with the prefix and the hash of what it generates
abbrev pub opaque_token : Texts → Option String → Outcome Error Token
opaque_token texts none = err no_randomness
opaque_token texts (some secret) =
    token_of secret (lookup_prefix texts secret) (hash_secret texts secret)

abbrev pub with_token :
    {A : Type 0}
    → (Token → Directory → Outcome Error A × Directory)
    → Outcome Error Token
    → Directory
    → Outcome Error A × Directory
with_token body (err e) db = (err e, db)
with_token body (ok token) db = body token db

abbrev pub nullable_text : String → Option String
nullable_text value = if is_empty value then none else some value

abbrev pub null_bytes : Bytes → Bool
null_bytes [] = true
null_bytes (b ∷ bs) = false

-- `{}` for no text
abbrev pub default_json_object : Bytes → Bytes
default_json_object value = if null_bytes value then 123 ∷ 125 ∷ [] else value

-- A zero time is none.
pub record RegisterDeviceParams : Type 0 where
  pub organisation_id : ℕ
  pub location_id : ℕ
  pub user_profile_id : ℕ
  pub device_type : String
  pub platform : String
  pub app_version : String
  pub name : String
  pub capabilities : Bytes
  pub configuration : Bytes
  pub heartbeat_every : ℕ
  pub expires_at : Option ℕ

pub record RegisterDeviceResult : Type 0 where
  pub device : Device
  pub credential : DeviceCredential
  pub secret : String

abbrev pub second : ℕ
second = 1000000

abbrev pub minute : ℕ
minute = 60000000

abbrev pub hour : ℕ
hour = 3600000000

abbrev pub normalize_register_device_params : Texts → RegisterDeviceParams → RegisterDeviceParams
normalize_register_device_params texts arg = record arg {
  device_type = texts.trim_space arg.device_type;
  platform = texts.trim_space arg.platform;
  app_version = texts.trim_space arg.app_version;
  name = texts.trim_space arg.name;
  capabilities = default_json_object arg.capabilities;
  configuration = default_json_object arg.configuration;
  heartbeat_every = if arg.heartbeat_every == 0 then minute else arg.heartbeat_every;
}

abbrev pub validate_register_device_params : Texts → RegisterDeviceParams → Option Error
validate_register_device_params texts arg =
    refusal
      (arg.organisation_id == 0
        || not (valid_device_type arg.device_type)
        || is_empty arg.platform
        || is_empty arg.app_version)
      validation
      (refusal
        (not (texts.json_object arg.capabilities) || not (texts.json_object arg.configuration))
        validation
        (refusal (ltb arg.heartbeat_every second || ltb hour arg.heartbeat_every) validation none))

abbrev pub requested : RegisterDeviceParams → NewDevice
requested arg = record {
  organisation_id = arg.organisation_id;
  location_id = nullable_uuid arg.location_id;
  user_profile_id = nullable_uuid arg.user_profile_id;
  device_type = arg.device_type;
  platform = arg.platform;
  app_version = arg.app_version;
  name = nullable_text arg.name;
  capabilities = arg.capabilities;
  configuration = arg.configuration;
  heartbeat_interval_seconds = arg.heartbeat_every / second;
}

unfoldable pub register_device_in_tx : RegisterDeviceParams → Token → Action RegisterDeviceResult
unfolding insert_registered_device create_device_credential
register_device_in_tx arg token = do
  device ← handle database (insert_registered_device (requested arg))
  credential ← handle database (
      create_device_credential arg.organisation_id device.id token.prefix token.hash arg.expires_at)
  pure (record { device = device; credential = credential; secret = token.secret })

unfoldable pub register_device :
    Texts
    → Option String
    → RegisterDeviceParams
    → Env
    → Directory
    → Outcome Error RegisterDeviceResult × Directory
unfolding in_tenant_db_tx register_device_in_tx
register_device texts generated given env =
    let arg = normalize_register_device_params texts given in
    unless_refused (validate_register_device_params texts arg) (
      with_token (λ token. in_tenant_db_tx (register_device_in_tx arg token) env)
        (opaque_token texts generated))
