-- ===== src/Identity/Devices/Pairing.antt =====
-- CreatePairingCode and PairDevice of internal/domain/identity/service.go.
use seatd_v.Base.{
  ℕ, ltb, Bool, true, not, ◌||◌, ◌==◌, ◌+◌, String, Option, none, some, if◌then◌else◌, is_empty,
}
use seatd_v.Store.{
  Env, Bytes, no_rows, Outcome, ok, err, ◌>>=◌, ◌>>◌, pure, environment, handle, refuse_if, present,
  throw,
}
use seatd_v.Identity.Schema.{Directory, Texts, DevicePairingCode}
use seatd_v.Identity.Transaction.{
  Error, unauthorized, validation, no_randomness, database, Action, refusal, unless_refused,
  in_tenant_db_tx, in_platform_db_tx,
}
use seatd_v.Identity.Secrets.{
  Token, token_of, hash_secret, secret_matches, normalize_pairing_code, pairing_code_lookup_prefix,
}
use seatd_v.Identity.DeviceQueries.{
  NewDevice, insert_registered_device, update_trusted, valid_device_type,
}
use seatd_v.Identity.CredentialQueries.{
  create_device_credential, create_device_pairing_code, get_device_pairing_code_by_prefix,
  consume_device_pairing_code,
}
use seatd_v.Identity.Memberships.{TenantActor, normalize_tenant_actor, validate_tenant_actor}
use seatd_v.Identity.Devices.Registration.{
  RegisterDeviceResult, require_location_permission, device_manage, opaque_token, with_token,
  nullable_text, default_json_object, hour,
}

pub record CreatePairingCodeParams : Type 0 where
  pub actor : TenantActor
  pub device_type : String
  pub ttl : ℕ

pub record CreatePairingCodeResult : Type 0 where
  pub pairing_code : DevicePairingCode
  pub code : String

-- GeneratePairingCode, with the prefix and the hash of what it generates
abbrev pub code_token : Texts → Option String → Outcome Error Token
code_token texts none = err no_randomness
code_token texts (some code) =
    token_of code (pairing_code_lookup_prefix texts code)
      (hash_secret texts (normalize_pairing_code texts code))

abbrev pub normalized_code : Texts → CreatePairingCodeParams → CreatePairingCodeParams
normalized_code texts arg = record {
  actor = normalize_tenant_actor texts arg.actor;
  device_type = if is_empty arg.device_type then "display" else arg.device_type;
  ttl = if arg.ttl == 0 then 600000000 else arg.ttl;
}

abbrev pub code_refusal : CreatePairingCodeParams → Option Error
code_refusal arg = validate_tenant_actor arg.actor true (
    refusal (not (valid_device_type arg.device_type)) validation
      (refusal (ltb hour arg.ttl) validation none))

unfoldable pub create_pairing_code_in_tx :
    CreatePairingCodeParams → Token → Action CreatePairingCodeResult
unfolding require_location_permission create_device_pairing_code
create_pairing_code_in_tx arg token = do
  require_location_permission arg.actor device_manage
  env ← environment
  pairing_code ← handle database (
      create_device_pairing_code arg.actor.organisation_id arg.actor.location_id arg.actor.actor_ref
        arg.device_type token.prefix token.hash (env.wall + arg.ttl))
  pure (record { pairing_code = pairing_code; code = token.secret })

unfoldable pub create_pairing_code :
    Texts
    → Option String
    → CreatePairingCodeParams
    → Env
    → Directory
    → Outcome Error CreatePairingCodeResult × Directory
unfolding in_tenant_db_tx create_pairing_code_in_tx
create_pairing_code texts generated given env =
    let arg = normalized_code texts given in
    unless_refused (code_refusal arg) (
      with_token (λ token. in_tenant_db_tx (create_pairing_code_in_tx arg token) env)
        (code_token texts generated))

pub record PairDeviceParams : Type 0 where
  pub code : String
  pub platform : String
  pub app_version : String
  pub name : String
  pub capabilities : Bytes
  pub configuration : Bytes

abbrev pub normalized_pairing : Texts → PairDeviceParams → PairDeviceParams
normalized_pairing texts arg = record {
  code = normalize_pairing_code texts arg.code;
  platform = texts.trim_space arg.platform;
  app_version = texts.trim_space arg.app_version;
  name = texts.trim_space arg.name;
  capabilities = default_json_object arg.capabilities;
  configuration = default_json_object arg.configuration;
}

abbrev pub pairing_refusal : Texts → PairDeviceParams → Option Error
pairing_refusal texts arg = refusal (is_empty arg.platform || is_empty arg.app_version) validation (
    refusal (not (texts.json_object arg.capabilities) || not (texts.json_object arg.configuration))
      validation none)

-- The device that a code pairs
abbrev pub offered_device : DevicePairingCode → PairDeviceParams → NewDevice
offered_device c arg = record {
  organisation_id = c.organisation_id;
  location_id = some c.location_id;
  user_profile_id = none;
  device_type = c.device_type;
  platform = arg.platform;
  app_version = arg.app_version;
  name = nullable_text arg.name;
  capabilities = arg.capabilities;
  configuration = arg.configuration;
  heartbeat_interval_seconds = 60;
}

-- `ok, err := SecretMatches(…)`, and the error unless it is ok
abbrev pub require_match : Outcome Error Bool → Action (Unit {0})
require_match (err e) = throw e
require_match (ok b) = refuse_if (not b) unauthorized

-- What follows the consumption of the code
unfoldable pub equip : Token → DevicePairingCode → ℕ → Action RegisterDeviceResult
unfolding update_trusted create_device_credential
equip token c device_id = do
  updated ← handle database (update_trusted device_id c.organisation_id)
  device ← present (database no_rows) updated
  credential ←
      handle database
        (create_device_credential c.organisation_id device.id token.prefix token.hash none)
  pure (record { device = device; credential = credential; secret = token.secret })

unfoldable pub pair_with_code :
    PairDeviceParams → Token → DevicePairingCode → Action RegisterDeviceResult
unfolding insert_registered_device consume_device_pairing_code equip
pair_with_code arg token c = do
  registered ← handle database (insert_registered_device (offered_device c arg))
  consumed ← handle database (consume_device_pairing_code c.id (some registered.id))
  consumed_code ← present unauthorized consumed
  equip token c registered.id

unfoldable pub pair_device_in_tx :
    Texts → PairDeviceParams → String → Token → Action RegisterDeviceResult
unfolding get_device_pairing_code_by_prefix pair_with_code
pair_device_in_tx texts arg prefix token = do
  found ← handle database (get_device_pairing_code_by_prefix prefix)
  pairing_code ← present unauthorized found
  require_match (secret_matches texts arg.code pairing_code.pairing_code_hash)
  pair_with_code arg token pairing_code

abbrev pub pair_with_prefix :
    Texts
    → Option String
    → PairDeviceParams
    → Env
    → Outcome Error String
    → Directory
    → Outcome Error RegisterDeviceResult × Directory
pair_with_prefix texts generated arg env (err e) db = (err unauthorized, db)
pair_with_prefix texts generated arg env (ok prefix) db =
    unless_refused (pairing_refusal texts arg)
      (with_token (λ token. in_platform_db_tx (pair_device_in_tx texts arg prefix token) env)
        (opaque_token texts generated))
      db

unfoldable pub pair_device :
    Texts
    → Option String
    → PairDeviceParams
    → Env
    → Directory
    → Outcome Error RegisterDeviceResult × Directory
unfolding in_platform_db_tx pair_device_in_tx
pair_device texts generated given env db =
    let arg = normalized_pairing texts given in
    pair_with_prefix texts generated arg env (pairing_code_lookup_prefix texts arg.code) db
