-- ===== src/Identity/Access/DeviceKeeps.antt =====
-- The transactions on devices in internal/domain/identity/service.go, between the rows before and after.
use seatd_v.Base.{
  ℕ, ◌≡◌, refl, Bool, not, ◌==◌, ◌+◌, String, Option, none, some, subst, update_rows,
}
use seatd_v.Store.{
  Env, no_rows, Bytes, DbError, Outcome, ok, err, ◌>>=◌, pure, environment, handle, statement,
  new_id, present,
}
use seatd_v.Identity.Schema.{Directory, Texts, Device, DeviceCredential, DevicePairingCode}
use seatd_v.Identity.Transaction.{
  Error, not_found, unauthorized, forbidden, already_revoked, database, Action,
}
use seatd_v.Identity.Queries.{actor_has_organisation_permission}
use seatd_v.Identity.Secrets.{Token}
use seatd_v.Identity.DeviceQueries.{
  NewDevice, actor_has_location_permission, insert_registered_device, insert_device, trusted_at,
  revoked_at, seen_at, heard_at, get_device, update_trusted, update_revoked, mark_device_seen,
  record_device_heartbeat,
}
use seatd_v.Identity.CredentialQueries.{
  create_device_credential, insert_credential, new_credential, create_device_pairing_code,
  insert_pairing_code, new_pairing_code, get_device_pairing_code_by_prefix,
  consume_device_pairing_code, consume_code, get_device_credential_by_prefix,
  touch_device_credential, revoke_device_credentials, update_credentials,
}
use seatd_v.Identity.Memberships.{TenantActor, require_organisation_permission}
use seatd_v.Identity.Keeps.{
  Keeps, pure-Keeps, bind-Keeps, query-Keeps, insert-Keeps, select-Keeps, refuse_if-Keeps,
  present-Keeps,
}
use seatd_v.Identity.Devices.Registration.{
  require_location_permission, device_manage, RegisterDeviceParams, requested,
  register_device_in_tx,
}
use seatd_v.Identity.Devices.Pairing.{
  CreatePairingCodeParams, create_pairing_code_in_tx, PairDeviceParams, require_match,
  pair_with_code, equip, pair_device_in_tx, offered_device,
}
use seatd_v.Identity.Devices.Credentials.{
  authenticate_in_tx, record_heartbeat_in_tx, trust_device_in_tx, require_device_permission,
  revoke_device_in_tx,
}
use seatd_v.Identity.Access.Later.{Later, Later-trans, same-Later}
use seatd_v.Identity.Access.Statements.{
  insert_device-Later, insert_credential-Later, insert_pairing_code-Later, update_device-Later,
  consumption-Later,
}

module _ (origin : Directory) where
  abbrev pub IsKept : {A : Type 0} → Action A → Type 0
  IsKept m = Keeps (Later origin) m

  pub statement-IsKept :
      {A : Type 0} (f : Env → Directory → Outcome DbError (A × Directory))
      → ((env : Env) (db : Directory) (a : A) (db' : Directory)
          → f env db ≡ ok (a, db')
          → Later db db')
      → IsKept (handle database (statement f))
  statement-IsKept f later =
      query-Keeps (Later origin) f
        (λ env db a db' h kept. Later-trans origin db db' kept (later env db a db' h))

  pub inserted-IsKept :
      {A : Type 0} (f : ℕ → Env → Directory → Outcome DbError (A × Directory))
      → ((id : ℕ) (env : Env) (db : Directory) (a : A) (db' : Directory)
          → f id env db ≡ ok (a, db')
          → Later db db')
      → IsKept (handle database (new_id >>= λ id. statement (f id)))
  inserted-IsKept f later =
      insert-Keeps (Later origin) f
        (λ id env db a db' h kept. Later-trans origin db db' kept (later id env db a db' h))

  -- A statement that reads
  pub read-IsKept :
      {A : Type 0} (f : Env → Directory → A)
      → IsKept (handle database (statement (λ env db. ok (f env db, db))))
  read-IsKept f =
      statement-IsKept (λ env db. ok (f env db, db))
        (λ env db a db' h. let same : db ≡ db' = cc in subst (Later db) same (same-Later db))

  pub bind-IsKept :
      {A B : Type 0} (m : Action A) (k : A → Action B)
      → IsKept m
      → ((a : A) → IsKept (k a))
      → IsKept (m >>= k)
  bind-IsKept = bind-Keeps (Later origin)

  pub pure-IsKept : {A : Type 0} (a : A) → IsKept (pure a)
  pure-IsKept = pure-Keeps (Later origin)

  pub present-IsKept : {A : Type 0} (e : Error) (o : Option A) → IsKept (present e o)
  present-IsKept = present-Keeps (Later origin)

  pub require_match-IsKept : (o : Outcome Error Bool) → IsKept (require_match o)
  require_match-IsKept (err e) env t a u h p = cc
  require_match-IsKept (ok b) env t a u h p =
      refuse_if-Keeps (Later origin) (not b) unauthorized env t a u h p

  credentials-IsKept :
      (test : DeviceCredential → Bool) (change : ℕ → DeviceCredential → DeviceCredential)
      → IsKept (handle database (statement (update_credentials test change)))
  credentials-IsKept test change =
      statement-IsKept (update_credentials test change) (λ env db a db' h.
        let rows = update_rows test (change env.now) db.device_credentials in
        let same : record db { device_credentials = rows } ≡ db' = cc in
        subst (Later db) same (record {
          devices = λ id organisation_id over. over;
          codes = λ prefix over. over;
          sessions = λ prefix over. over;
        }))

  pub environment-IsKept : IsKept environment
  environment-IsKept env t a u h p = let same : t ≡ u = cc in subst (λ u. Later origin u.db) same p

  require_location_permission-IsKept :
      (actor : TenantActor) (permission : String)
      → IsKept (require_location_permission actor permission)
  unfolding require_location_permission actor_has_location_permission
  require_location_permission-IsKept actor permission =
      bind-IsKept _ _ (refuse_if-Keeps (Later origin) (actor.location_id == 0) forbidden) (λ _.
        bind-IsKept _ _ (select-Keeps (Later origin) _)
          (λ allowed. refuse_if-Keeps (Later origin) (not allowed) forbidden))

  require_organisation_permission-IsKept :
      (actor : TenantActor) (permission : String)
      → IsKept (require_organisation_permission actor permission)
  unfolding require_organisation_permission actor_has_organisation_permission
  require_organisation_permission-IsKept actor permission =
      bind-IsKept _ _ (select-Keeps (Later origin) _)
        (λ allowed. refuse_if-Keeps (Later origin) (not allowed) forbidden)

  require_device_permission-IsKept :
      (actor : TenantActor) (o : Option ℕ) → IsKept (require_device_permission actor o)
  unfolding require_device_permission
  require_device_permission-IsKept actor none =
      require_organisation_permission-IsKept actor device_manage
  require_device_permission-IsKept actor (some id) =
      require_location_permission-IsKept (record actor { location_id = id }) device_manage

  insert_device-IsKept : (n : NewDevice) → IsKept (handle database (insert_registered_device n))
  unfolding insert_registered_device
  insert_device-IsKept n = inserted-IsKept (insert_device n) (insert_device-Later n)

  create_credential-IsKept :
      (organisation_id device_id : ℕ) (prefix : String) (hash : Bytes) (expires_at : Option ℕ)
      → IsKept (
          handle database
            (create_device_credential organisation_id device_id prefix hash expires_at))
  unfolding create_device_credential
  create_credential-IsKept organisation_id device_id prefix hash expires_at =
      inserted-IsKept
        (λ id.
          insert_credential (new_credential organisation_id device_id prefix hash expires_at id))
        (λ id.
          insert_credential-Later
            (new_credential organisation_id device_id prefix hash expires_at id))

  pub register_device-IsKept :
      (arg : RegisterDeviceParams) (token : Token) → IsKept (register_device_in_tx arg token)
  unfolding register_device_in_tx
  register_device-IsKept arg token =
      bind-IsKept _ _ (insert_device-IsKept (requested arg))
        (λ d. bind-IsKept _ _ (create_credential-IsKept _ _ _ _ _) (λ c. pure-IsKept _))

  create_code-IsKept :
      (organisation_id location_id : ℕ) (created_by device_type prefix : String) (hash : Bytes)
      (expires_at : ℕ)
      → IsKept (
          handle database (
            create_device_pairing_code organisation_id location_id created_by device_type prefix
              hash expires_at))
  unfolding create_device_pairing_code
  create_code-IsKept organisation_id location_id created_by device_type prefix hash expires_at =
      let code =
        new_pairing_code organisation_id location_id created_by device_type prefix hash
          expires_at in
      inserted-IsKept (λ id. insert_pairing_code (code id))
        (λ id. insert_pairing_code-Later (code id))

  pub create_pairing_code-IsKept :
      (arg : CreatePairingCodeParams) (token : Token) → IsKept (create_pairing_code_in_tx arg token)
  unfolding create_pairing_code_in_tx
  create_pairing_code-IsKept arg token =
      bind-IsKept _ _ (require_location_permission-IsKept arg.actor device_manage) (λ _.
        bind-IsKept _ _ environment-IsKept (λ env.
          bind-IsKept _ _
            (create_code-IsKept _ _ _ arg.device_type _ token.hash (env.wall + arg.ttl))
            (λ c. pure-IsKept (record { pairing_code = c; code = token.secret }))))

  update_trusted-IsKept :
      (id organisation_id : ℕ) → IsKept (handle database (update_trusted id organisation_id))
  unfolding update_trusted
  update_trusted-IsKept id organisation_id =
      statement-IsKept _ (update_device-Later _ trusted_at (λ now d. (refl, refl, λ e. e)))

  pub equip-IsKept : (token : Token) (c : DevicePairingCode) (id : ℕ) → IsKept (equip token c id)
  unfolding equip
  equip-IsKept token c id = bind-IsKept _ _ (update_trusted-IsKept id c.organisation_id) (λ updated.
      bind-IsKept _ _ (present-IsKept (database no_rows) updated) (λ device.
        bind-IsKept _ _ (create_credential-IsKept _ _ _ _ none)
          (λ c. pure-IsKept (record { device = device; credential = c; secret = token.secret }))))

  pair_with_code-IsKept :
      (arg : PairDeviceParams) (token : Token) (c : DevicePairingCode)
      → IsKept (pair_with_code arg token c)
  unfolding pair_with_code consume_device_pairing_code
  pair_with_code-IsKept arg token c =
      bind-IsKept _ _ (insert_device-IsKept (offered_device c arg)) (λ d.
        bind-IsKept _ _
          (statement-IsKept (consume_code c.id (some d.id))
            (λ env db a db' h. consumption-Later (some d.id) c.id env.now db _ a db' h))
          (λ consumed.
            bind-IsKept _ _ (present-IsKept unauthorized consumed)
              (λ _. equip-IsKept token c d.id)))

  pub pair_device-IsKept :
      (texts : Texts) (arg : PairDeviceParams) (prefix : String) (token : Token)
      → IsKept (pair_device_in_tx texts arg prefix token)
  unfolding pair_device_in_tx get_device_pairing_code_by_prefix
  pair_device-IsKept texts arg prefix token = bind-IsKept _ _ (read-IsKept _) (λ found.
      bind-IsKept _ _ (present-IsKept unauthorized found)
        (λ c. bind-IsKept _ _ (require_match-IsKept _) (λ _. pair_with_code-IsKept arg token c)))

  pub authenticate-IsKept :
      (texts : Texts) (secret prefix : String) → IsKept (authenticate_in_tx texts secret prefix)
  unfolding authenticate_in_tx get_device_credential_by_prefix mark_device_seen
      touch_device_credential
  authenticate-IsKept texts secret prefix = bind-IsKept _ _ (read-IsKept _) (λ found.
      bind-IsKept _ _ (present-IsKept unauthorized found) (λ row.
        bind-IsKept _ _ (require_match-IsKept _) (λ _.
          bind-IsKept _ _
            (statement-IsKept _ (update_device-Later _ seen_at (λ now d. (refl, refl, λ e. e))))
            (λ marked.
              bind-IsKept _ _ (present-IsKept (database no_rows) marked)
                (λ seen. bind-IsKept _ _ (credentials-IsKept _ _) (λ _. pure-IsKept _))))))

  pub heartbeat-IsKept :
      (app_version : String) (capabilities : Bytes) (d : Device)
      → IsKept (record_heartbeat_in_tx app_version capabilities d)
  unfolding record_heartbeat_in_tx record_device_heartbeat
  heartbeat-IsKept app_version capabilities d =
      bind-IsKept _ _
        (statement-IsKept _ (
          update_device-Later _ (heard_at app_version capabilities)
            (λ now d. (refl, refl, λ e. e))))
        (λ updated. present-IsKept unauthorized updated)

  pub trust_device-IsKept :
      (organisation_id device_id : ℕ) → IsKept (trust_device_in_tx organisation_id device_id)
  unfolding trust_device_in_tx
  trust_device-IsKept organisation_id device_id =
      bind-IsKept _ _ (update_trusted-IsKept device_id organisation_id)
        (λ updated. present-IsKept not_found updated)

  pub revoke_device-IsKept :
      (actor : TenantActor) (device_id : ℕ) → IsKept (revoke_device_in_tx actor device_id)
  unfolding revoke_device_in_tx get_device revoke_device_credentials update_revoked
  revoke_device-IsKept actor device_id = bind-IsKept _ _ (select-Keeps (Later origin) _) (λ found.
      bind-IsKept _ _ (present-IsKept not_found found) (λ current.
        bind-IsKept _ _ (require_device_permission-IsKept actor current.location_id) (λ _.
          bind-IsKept _ _ (credentials-IsKept _ _) (λ _.
            bind-IsKept _ _
              (statement-IsKept _
                (update_device-Later _ revoked_at (λ now d. (refl, refl, λ e. refl))))
              (λ updated. present-IsKept already_revoked updated)))))
