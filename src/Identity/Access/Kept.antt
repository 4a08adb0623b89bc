-- ===== src/Identity/Access/Kept.antt =====
-- The operations on devices and web sessions of internal/domain/identity/service.go, and sequences of calls,
-- between the rows before and after.
use seatd_v.Base.{ℕ, suc, false, String, Option, none, some, List, [], ◌∷◌}
use seatd_v.Store.{Env, Bytes, Outcome, ok, err}
use seatd_v.Identity.Schema.{Directory, Texts, Device, UserProfile, WebSessionRow}
use seatd_v.Identity.Transaction.{Error, Action, unless_refused, in_tenant_db_tx, in_platform_db_tx}
use seatd_v.Identity.Secrets.{Token, lookup_prefix, pairing_code_lookup_prefix}
use seatd_v.Identity.Memberships.{TenantActor, normalize_tenant_actor, validate_tenant_actor}
use seatd_v.Identity.Keeps.{in_tenant_db_tx-keeps, in_platform_db_tx-keeps}
use seatd_v.Identity.Devices.Registration.{
  RegisterDeviceParams, register_device, normalize_register_device_params, register_device_in_tx,
  validate_register_device_params, with_token, opaque_token, default_json_object,
}
use seatd_v.Identity.Devices.Pairing.{
  CreatePairingCodeParams, create_pairing_code, create_pairing_code_in_tx, normalized_code,
  code_refusal, code_token, PairDeviceParams, pair_device, pair_device_in_tx, normalized_pairing,
  pairing_refusal, pair_with_prefix,
}
use seatd_v.Identity.Devices.Credentials.{
  HeartbeatParams, authenticate_device_credential, authenticate_in_tx, authenticate_with_prefix,
  record_heartbeat, heartbeat_of, heartbeat_refusal, record_heartbeat_in_tx, trust_device,
  trust_device_in_tx, revoke_device, revoke_device_in_tx,
}
use seatd_v.Identity.Sessions.Operations.{
  CreateWebSessionParams, WebSession, create_web_session, create_session_in_tx,
  validate_web_session, validate_in_tx, validate_with_prefix, rotate_web_session, replace,
  revoke_then, rotation_of, revoke_web_session, revoke_in_tx, revoke_with_prefix,
  hydrate_web_session, hydrate_in_tx, session_refusal, followed, with_user, limited,
}
use seatd_v.Identity.Access.Later.{Later, Later-trans, same-Later}
use seatd_v.Identity.Access.DeviceKeeps.{
  IsKept, register_device-IsKept, create_pairing_code-IsKept, pair_device-IsKept,
  authenticate-IsKept, heartbeat-IsKept, trust_device-IsKept, revoke_device-IsKept,
}
use seatd_v.Identity.Access.SessionKeeps.{
  hydrate-IsKept, create_session-IsKept, validate-IsKept, revoke_session-IsKept,
}
use seatd_v.Identity.Access.Calls.{
  Call, register, offer, pair, authenticate, heartbeat, trust, revoke, sign_in, validate, rotate,
  sign_out, step, run,
}

tenant-Later :
    {A : Type 0} (body : Action A) (env : Env) (db : Directory)
    → ((origin : Directory) → IsKept origin body)
    → Later db (in_tenant_db_tx body env db).1
tenant-Later body env db kept =
    in_tenant_db_tx-keeps (Later db) body env db (kept db) (same-Later db)

platform-Later :
    {A : Type 0} (body : Action A) (env : Env) (db : Directory)
    → ((origin : Directory) → IsKept origin body)
    → Later db (in_platform_db_tx body env db).1
platform-Later body env db kept =
    in_platform_db_tx-keeps (Later db) body env db (kept db) (same-Later db)

unless_refused-Later :
    {A : Type 0} (o : Option Error) (body : Directory → Outcome Error A × Directory)
    (db : Directory)
    → Later db (body db).1
    → Later db (unless_refused o body db).1
unless_refused-Later none body db later = later
unless_refused-Later (some e) body db later = same-Later db

with_token-Later :
    {A : Type 0} (body : Token → Directory → Outcome Error A × Directory) (o : Outcome Error Token)
    (db : Directory)
    → ((token : Token) → Later db (body token db).1)
    → Later db (with_token body o db).1
with_token-Later body (err e) db later = same-Later db
with_token-Later body (ok token) db later = later token

followed-Later :
    {A B : Type 0} (next : A → Directory → Outcome Error B × Directory)
    (r : Outcome Error A × Directory) (db : Directory)
    → Later db r.1
    → ((a : A) (db : Directory) → Later db (next a db).1)
    → Later db (followed next r).1
followed-Later next (err e, mid) db first rest = first
followed-Later next (ok a, mid) db first rest = Later-trans db mid (next a mid).1 first (rest a mid)

module _ (texts : Texts) where
  register_device-Later :
      (generated : Option String) (arg : RegisterDeviceParams) (env : Env) (db : Directory)
      → Later db (register_device texts generated arg env db).1
  unfolding register_device
  register_device-Later generated given env db =
      let arg = normalize_register_device_params texts given in
      unless_refused-Later (validate_register_device_params texts arg) _ db (
        with_token-Later _ (opaque_token texts generated) db (λ token.
          tenant-Later (register_device_in_tx arg token) env db
            (λ origin. register_device-IsKept origin arg token)))

  create_pairing_code-Later :
      (generated : Option String) (arg : CreatePairingCodeParams) (env : Env) (db : Directory)
      → Later db (create_pairing_code texts generated arg env db).1
  unfolding create_pairing_code
  create_pairing_code-Later generated given env db =
      let arg = normalized_code texts given in
      unless_refused-Later (code_refusal arg) _ db (
        with_token-Later _ (code_token texts generated) db (λ token.
          tenant-Later (create_pairing_code_in_tx arg token) env db
            (λ origin. create_pairing_code-IsKept origin arg token)))

  pair_device-Later :
      (generated : Option String) (arg : PairDeviceParams) (env : Env) (db : Directory)
      → Later db (pair_device texts generated arg env db).1
  unfolding pair_device
  pair_device-Later generated given env db = with_prefix (pairing_code_lookup_prefix texts arg.code)
    where
      arg : PairDeviceParams
      arg = normalized_pairing texts given

      with_prefix :
          (o : Outcome Error String) → Later db (pair_with_prefix texts generated arg env o db).1
      with_prefix (err e) = same-Later db
      with_prefix (ok prefix) = unless_refused-Later (pairing_refusal texts arg) _ db (
          with_token-Later _ (opaque_token texts generated) db (λ token.
            platform-Later (pair_device_in_tx texts arg prefix token) env db
              (λ origin. pair_device-IsKept origin texts arg prefix token)))

  authenticate-Later :
      (secret : String) (env : Env) (db : Directory)
      → Later db (authenticate_device_credential texts secret env db).1
  unfolding authenticate_device_credential
  authenticate-Later secret env db = with_prefix (lookup_prefix texts secret)
    where
      with_prefix :
          (o : Outcome Error String) → Later db (authenticate_with_prefix texts secret env o db).1
      with_prefix (err e) = same-Later db
      with_prefix (ok prefix) =
          platform-Later (authenticate_in_tx texts secret prefix) env db
            (λ origin. authenticate-IsKept origin texts secret prefix)

  heartbeat_of-Later :
      (app_version : String) (capabilities : Bytes) (env : Env)
      (r : Outcome Error Device × Directory) (db : Directory)
      → Later db r.1
      → Later db (heartbeat_of app_version capabilities env r).1
  heartbeat_of-Later app_version capabilities env (err e, mid) db first = first
  heartbeat_of-Later app_version capabilities env (ok d, mid) db first =
      let body = record_heartbeat_in_tx app_version capabilities d in
      Later-trans db mid (in_tenant_db_tx body env mid).1 first
        (tenant-Later body env mid (λ origin. heartbeat-IsKept origin app_version capabilities d))

  record_heartbeat-Later :
      (arg : HeartbeatParams) (env next : Env) (db : Directory)
      → Later db (record_heartbeat texts arg env next db).1
  unfolding record_heartbeat
  record_heartbeat-Later arg env next db =
      let app_version = texts.trim_space arg.app_version in
      let capabilities = default_json_object arg.capabilities in
      unless_refused-Later (heartbeat_refusal texts app_version capabilities) _ db (
        heartbeat_of-Later app_version capabilities next _ db
          (authenticate-Later arg.secret env db))

  trust_device-Later :
      (organisation_id id : ℕ) (env : Env) (db : Directory)
      → Later db (trust_device organisation_id id env db).1
  unfolding trust_device
  trust_device-Later organisation_id id env db =
      tenant-Later (trust_device_in_tx organisation_id id) env db
        (λ origin. trust_device-IsKept origin organisation_id id)

  revoke_device-Later :
      (actor : TenantActor) (id : ℕ) (env : Env) (db : Directory)
      → Later db (revoke_device texts actor id env db).1
  unfolding revoke_device
  revoke_device-Later given id env db =
      let actor = normalize_tenant_actor texts given in
      unless_refused-Later {A = Device} (validate_tenant_actor actor false none) _ db (
        tenant-Later (revoke_device_in_tx actor id) env db
          (λ origin. revoke_device-IsKept origin actor id))

  hydrate-Later :
      (s : WebSessionRow) (secret : String) (env : Env) (db : Directory)
      → Later db (hydrate_web_session texts s secret env db).1
  unfolding hydrate_web_session
  hydrate-Later s secret env db =
      platform-Later (hydrate_in_tx texts s secret) env db
        (λ origin. hydrate-IsKept origin texts s secret)

  create_web_session-Later :
      (generated : Option String) (arg : CreateWebSessionParams) (envs : ℕ → Env) (db : Directory)
      → Later db (create_web_session texts generated arg envs db).1
  unfolding create_web_session
  create_web_session-Later generated arg envs db =
      unless_refused-Later {A = WebSession} (session_refusal arg) _ db (
        with_token-Later {A = WebSession} _ (opaque_token texts generated) db (λ token.
          followed-Later (λ s. hydrate_web_session texts s token.secret (envs 1)) _ db
            (platform-Later (create_session_in_tx texts (limited arg) token) (envs 0) db
              (λ origin. create_session-IsKept origin texts (limited arg) token))
            (λ s db. hydrate-Later s token.secret (envs 1) db)))

  with_user-Later :
      (user : UserProfile) (r : Outcome Error WebSession × Directory) (db : Directory)
      → Later db r.1
      → Later db (with_user user r).1
  with_user-Later user (err e, after) db later = later
  with_user-Later user (ok s, after) db later = later

  validate-Later :
      (secret : String) (envs : ℕ → Env) (db : Directory)
      → Later db (validate_web_session texts secret envs db).1
  unfolding validate_web_session
  validate-Later secret envs db = with_prefix (lookup_prefix texts secret)
    where
      with_prefix :
          (o : Outcome Error String) → Later db (validate_with_prefix texts secret envs o db).1
      with_prefix (err e) = same-Later db
      with_prefix (ok prefix) =
          followed-Later
            (λ row db. with_user row.1 (hydrate_web_session texts row.0 secret (envs 1) db)) _ db
            (platform-Later (validate_in_tx texts secret prefix) (envs 0) db
              (λ origin. validate-IsKept origin texts secret prefix))
            (λ row db. with_user-Later row.1 _ db (hydrate-Later row.0 secret (envs 1) db))

  revoke_session-Later :
      (secret : String) (env : Env) (db : Directory)
      → Later db (revoke_web_session texts secret env db).1
  unfolding revoke_web_session
  revoke_session-Later secret env db = with_prefix (lookup_prefix texts secret)
    where
      with_prefix :
          (o : Outcome Error String) → Later db (revoke_with_prefix texts secret env o db).1
      with_prefix (err e) = same-Later db
      with_prefix (ok prefix) =
          platform-Later (revoke_in_tx texts secret prefix) env db
            (λ origin. revoke_session-IsKept origin texts secret prefix)

  rotate-Later :
      (generated : Option String) (secret : String) (ttl : ℕ) (user_agent ip_address : String)
      (envs : ℕ → Env) (db : Directory)
      → Later db (rotate_web_session texts generated secret ttl user_agent ip_address envs db).1
  unfolding rotate_web_session
  rotate-Later generated secret ttl user_agent ip_address envs db =
      followed-Later (replace texts generated secret ttl user_agent ip_address envs)
        (validate_web_session texts secret envs db) db (validate-Later secret envs db)
        (λ current db.
          followed-Later (revoke_then texts secret (envs 4) current)
            (create_web_session texts generated (rotation_of ttl user_agent ip_address current)
              (λ n. envs (suc (suc n))) db)
            db
            (create_web_session-Later generated (rotation_of ttl user_agent ip_address current)
              (λ n. envs (suc (suc n))) db)
            (λ next db.
              followed-Later {B = WebSession} _ (revoke_web_session texts secret (envs 4) db) db
                (revoke_session-Later secret (envs 4) db) (λ u db. same-Later db)))

  step-Later : (envs : ℕ → Env) (call : Call) (db : Directory) → Later db (step texts envs call db)
  unfolding step
  step-Later envs (register generated arg) db = register_device-Later generated arg (envs 0) db
  step-Later envs (offer generated arg) db = create_pairing_code-Later generated arg (envs 0) db
  step-Later envs (pair generated arg) db = pair_device-Later generated arg (envs 0) db
  step-Later envs (authenticate secret) db = authenticate-Later secret (envs 0) db
  step-Later envs (heartbeat arg) db = record_heartbeat-Later arg (envs 0) (envs 1) db
  step-Later envs (trust organisation_id id) db = trust_device-Later organisation_id id (envs 0) db
  step-Later envs (revoke actor id) db = revoke_device-Later actor id (envs 0) db
  step-Later envs (sign_in generated arg) db = create_web_session-Later generated arg envs db
  step-Later envs (validate secret) db = validate-Later secret envs db
  step-Later envs (rotate generated secret ttl user_agent ip_address) db =
      rotate-Later generated secret ttl user_agent ip_address envs db
  step-Later envs (sign_out secret) db = revoke_session-Later secret (envs 0) db

  pub run-Later : (calls : List ((ℕ → Env) × Call)) (db : Directory) → Later db (run texts calls db)
  unfolding run
  run-Later [] db = same-Later db
  run-Later ((envs, call) ∷ calls) db =
      Later-trans db (step texts envs call db) (run texts calls (step texts envs call db))
        (step-Later envs call db) (run-Later calls (step texts envs call db))
