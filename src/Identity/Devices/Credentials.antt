-- ===== src/Identity/Devices/Credentials.antt =====
-- AuthenticateDeviceCredential, RecordHeartbeat, TrustDevice and RevokeDevice of
-- internal/domain/identity/service.go.
use seatd_v.Base.{ℕ, false, not, String, Option, none, some, is_empty}
use seatd_v.Store.{Env, Bytes, no_rows, Outcome, ok, err, ◌>>=◌, ◌>>◌, pure, handle, present}
use seatd_v.Identity.Schema.{Directory, Texts, Device}
use seatd_v.Identity.Transaction.{
  Error, not_found, unauthorized, already_revoked, validation, database, Action, refusal,
  unless_refused, in_tenant_db_tx, in_platform_db_tx,
}
use seatd_v.Identity.Secrets.{lookup_prefix, secret_matches}
use seatd_v.Identity.DeviceQueries.{
  get_device, update_trusted, update_revoked, mark_device_seen, record_device_heartbeat,
}
use seatd_v.Identity.CredentialQueries.{
  get_device_credential_by_prefix, touch_device_credential, revoke_device_credentials,
}
use seatd_v.Identity.Memberships.{
  TenantActor, normalize_tenant_actor, validate_tenant_actor, require_organisation_permission,
}
use seatd_v.Identity.Devices.Registration.{
  require_location_permission, device_manage, default_json_object,
}
use seatd_v.Identity.Devices.Pairing.{require_match}

unfoldable pub authenticate_in_tx : Texts → String → String → Action Device
unfolding get_device_credential_by_prefix mark_device_seen touch_device_credential
authenticate_in_tx texts secret prefix = do
  found ← handle database (get_device_credential_by_prefix prefix)
  row ← present unauthorized found
  require_match (secret_matches texts secret row.0.credential_hash)
  marked ← handle database (mark_device_seen row.1.id row.1.organisation_id)
  seen ← present (database no_rows) marked
  handle database (touch_device_credential row.0.id)
  pure row.1

abbrev pub authenticate_with_prefix :
    Texts → String → Env → Outcome Error String → Directory → Outcome Error Device × Directory
authenticate_with_prefix texts secret env (err e) db = (err e, db)
authenticate_with_prefix texts secret env (ok prefix) db =
    in_platform_db_tx (authenticate_in_tx texts secret prefix) env db

unfoldable pub authenticate_device_credential :
    Texts → String → Env → Directory → Outcome Error Device × Directory
unfolding in_platform_db_tx authenticate_in_tx
authenticate_device_credential texts secret env =
    authenticate_with_prefix texts secret env (lookup_prefix texts secret)

pub record HeartbeatParams : Type 0 where
  pub secret : String
  pub app_version : String
  pub capabilities : Bytes

abbrev pub heartbeat_refusal : Texts → String → Bytes → Option Error
heartbeat_refusal texts app_version capabilities =
    refusal (is_empty app_version) validation
      (refusal (not (texts.json_object capabilities)) validation none)

unfoldable pub record_heartbeat_in_tx : String → Bytes → Device → Action Device
unfolding record_device_heartbeat
record_heartbeat_in_tx app_version capabilities device = do
  updated ←
      handle database
        (record_device_heartbeat device.id device.organisation_id app_version capabilities)
  present unauthorized updated

-- What the transaction after the authentication does; each has its own connection.
abbrev pub heartbeat_of :
    String → Bytes → Env → Outcome Error Device × Directory → Outcome Error Device × Directory
heartbeat_of app_version capabilities env (err e, db) = (err e, db)
heartbeat_of app_version capabilities env (ok device, db) =
    in_tenant_db_tx (record_heartbeat_in_tx app_version capabilities device) env db

unfoldable pub record_heartbeat :
    Texts → HeartbeatParams → Env → Env → Directory → Outcome Error Device × Directory
unfolding authenticate_device_credential in_tenant_db_tx record_heartbeat_in_tx
record_heartbeat texts arg env next =
    let app_version = texts.trim_space arg.app_version in
    let capabilities = default_json_object arg.capabilities in
    unless_refused (heartbeat_refusal texts app_version capabilities) (λ db.
      heartbeat_of app_version capabilities next
        (authenticate_device_credential texts arg.secret env db))

unfoldable pub trust_device_in_tx : ℕ → ℕ → Action Device
unfolding update_trusted
trust_device_in_tx organisation_id device_id = do
  updated ← handle database (update_trusted device_id organisation_id)
  present not_found updated

unfoldable pub trust_device : ℕ → ℕ → Env → Directory → Outcome Error Device × Directory
unfolding in_tenant_db_tx trust_device_in_tx
trust_device organisation_id device_id =
    in_tenant_db_tx (trust_device_in_tx organisation_id device_id)

unfoldable pub require_device_permission : TenantActor → Option ℕ → Action (Unit {0})
unfolding require_location_permission require_organisation_permission
require_device_permission actor none = require_organisation_permission actor device_manage
require_device_permission actor (some location_id) =
    require_location_permission (record actor { location_id = location_id }) device_manage

unfoldable pub revoke_device_in_tx : TenantActor → ℕ → Action Device
unfolding get_device require_device_permission revoke_device_credentials update_revoked
revoke_device_in_tx actor device_id = do
  found ← handle database (get_device device_id actor.organisation_id)
  current ← present not_found found
  require_device_permission actor current.location_id
  handle database (revoke_device_credentials actor.organisation_id device_id)
  updated ← handle database (update_revoked device_id actor.organisation_id)
  present already_revoked updated

unfoldable pub revoke_device :
    Texts → TenantActor → ℕ → Env → Directory → Outcome Error Device × Directory
unfolding in_tenant_db_tx revoke_device_in_tx
revoke_device texts given device_id env =
    let actor = normalize_tenant_actor texts given in
    unless_refused (validate_tenant_actor actor false none)
      (in_tenant_db_tx (revoke_device_in_tx actor device_id) env)
