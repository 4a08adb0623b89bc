-- ===== src/Identity/Access/Calls.antt =====
-- Sequences of calls on devices and web sessions of internal/domain/identity/service.go.
use seatd_v.Base.{ℕ, String, Option, List, [], ◌∷◌}
use seatd_v.Store.{Env}
use seatd_v.Identity.Schema.{Directory, Texts}
use seatd_v.Identity.Memberships.{TenantActor}
use seatd_v.Identity.Devices.Registration.{RegisterDeviceParams, register_device}
use seatd_v.Identity.Devices.Pairing.{
  CreatePairingCodeParams, PairDeviceParams, create_pairing_code, pair_device,
}
use seatd_v.Identity.Devices.Credentials.{
  HeartbeatParams, authenticate_device_credential, record_heartbeat, trust_device, revoke_device,
}
use seatd_v.Identity.Sessions.Operations.{
  CreateWebSessionParams, create_web_session, validate_web_session, rotate_web_session,
  revoke_web_session,
}

-- An operation with its arguments and what crypto/rand yields to it
pub data Call : Type 0 where
  register : Option String → RegisterDeviceParams → Call
  offer : Option String → CreatePairingCodeParams → Call
  pair : Option String → PairDeviceParams → Call
  authenticate : String → Call
  heartbeat : HeartbeatParams → Call
  trust : ℕ → ℕ → Call
  revoke : TenantActor → ℕ → Call
  sign_in : Option String → CreateWebSessionParams → Call
  validate : String → Call
  rotate : Option String → String → ℕ → String → String → Call
  sign_out : String → Call

-- `envs n` is the connection of the nth transaction.
unfoldable pub step : Texts → (ℕ → Env) → Call → Directory → Directory
unfolding register_device create_pairing_code pair_device authenticate_device_credential
    record_heartbeat trust_device revoke_device create_web_session validate_web_session
    rotate_web_session revoke_web_session
step texts envs (register generated arg) db = (register_device texts generated arg (envs 0) db).1
step texts envs (offer generated arg) db = (create_pairing_code texts generated arg (envs 0) db).1
step texts envs (pair generated arg) db = (pair_device texts generated arg (envs 0) db).1
step texts envs (authenticate secret) db =
    (authenticate_device_credential texts secret (envs 0) db).1
step texts envs (heartbeat arg) db = (record_heartbeat texts arg (envs 0) (envs 1) db).1
step texts envs (trust organisation_id id) db = (trust_device organisation_id id (envs 0) db).1
step texts envs (revoke actor id) db = (revoke_device texts actor id (envs 0) db).1
step texts envs (sign_in generated arg) db = (create_web_session texts generated arg envs db).1
step texts envs (validate secret) db = (validate_web_session texts secret envs db).1
step texts envs (rotate generated secret ttl user_agent ip_address) db =
    (rotate_web_session texts generated secret ttl user_agent ip_address envs db).1
step texts envs (sign_out secret) db = (revoke_web_session texts secret (envs 0) db).1

unfoldable pub run : Texts → List ((ℕ → Env) × Call) → Directory → Directory
unfolding step
run texts [] db = db
run texts ((envs, call) ∷ calls) db = run texts calls (step texts envs call db)
