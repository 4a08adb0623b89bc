-- ===== src/Identity/CredentialQueries.antt =====
-- The statements on credentials of devices and on pairing codes in internal/store/db/security.sql.go, with
-- the constraints of infra/database/migrations.
use seatd_v.Base.{
  ℕ, leb, ltb, Bool, not, ◌&&◌, ◌||◌, ◌==◌, String, Option, none, some, ◌∷◌, if◌then◌else◌,
  is_empty, is_some, has_row, find_row, find_key, update_rows, length, str_eq,
}
use seatd_v.Store.{
  Env, Bytes, DbError, violation, duplicate, Outcome, ok, err, ◌>>=◌, new_id, statement,
}
use seatd_v.Identity.Schema.{Directory, Device, DeviceCredential, DevicePairingCode}
use seatd_v.Identity.Queries.{Query}
use seatd_v.Identity.DeviceQueries.{is_usable, is_later, is_located, valid_device_type}

abbrev pub new_credential : ℕ → ℕ → String → Bytes → Option ℕ → ℕ → ℕ → DeviceCredential
new_credential organisation_id device_id prefix hash expires_at id now = record {
  id = id;
  organisation_id = organisation_id;
  device_id = device_id;
  lookup_prefix = prefix;
  credential_hash = hash;
  issued_at = now;
  last_used_at = none;
  expires_at = expires_at;
  revoked_at = none;
  created_at = now;
  updated_at = now;
}

-- CHECK (lookup_prefix <> ''), CHECK (length(credential_hash) >= 32), CHECK (expires_at > issued_at)
abbrev pub is_storable : DeviceCredential → Directory → Bool
is_storable c db =
    has_row (λ o. o == c.organisation_id) db.organisations
    && has_row (λ d. d.id == c.device_id) db.devices
    && not (is_empty c.lookup_prefix)
    && leb 32 (length c.credential_hash)
    && is_later c.issued_at c.expires_at

abbrev pub insert_credential :
    (ℕ → DeviceCredential) → Env → Directory → Outcome DbError (DeviceCredential × Directory)
insert_credential credential env db =
    if has_row
      (λ c.
        c.id == (credential env.now).id
        || str_eq c.lookup_prefix (credential env.now).lookup_prefix)
      db.device_credentials
    then err duplicate
    else if is_storable (credential env.now) db
    then ok (
      credential env.now,
      record db { device_credentials = credential env.now ∷ db.device_credentials },
    )
    else err violation

unfoldable pub create_device_credential : ℕ → ℕ → String → Bytes → Option ℕ → Query DeviceCredential
unfolding statement
create_device_credential organisation_id device_id prefix hash expires_at = do
  id ← new_id
  statement (insert_credential (new_credential organisation_id device_id prefix hash expires_at id))

-- GetDeviceCredentialByPrefix: the device of a credential, where it may be used
abbrev pub usable_device : Option Device → Option Device
usable_device none = none
usable_device (some d) = if is_usable d then some d else none

abbrev pub device_of : Directory → DeviceCredential → Option Device
device_of db c = usable_device (find_key (λ d. d.id) c.device_id db.devices)

abbrev pub is_credential : String → ℕ → Directory → DeviceCredential → Bool
is_credential prefix now db c =
    str_eq c.lookup_prefix prefix
    && not (is_some c.revoked_at)
    && is_later now c.expires_at
    && is_some (device_of db c)

abbrev pub with_device : Directory → Option DeviceCredential → Option (DeviceCredential × Device)
with_device db none = none
with_device db (some c) = paired (device_of db c)
  where
    paired : Option Device → Option (DeviceCredential × Device)
    paired none = none
    paired (some d) = some (c, d)

abbrev pub read_credential :
    String → Env → Directory → Outcome DbError (Option (DeviceCredential × Device) × Directory)
read_credential prefix env db =
    ok (with_device db (find_row (is_credential prefix env.now db) db.device_credentials), db)

unfoldable pub get_device_credential_by_prefix : String → Query (Option (DeviceCredential × Device))
unfolding statement
get_device_credential_by_prefix prefix = statement (read_credential prefix)

abbrev pub touched : ℕ → DeviceCredential → DeviceCredential
touched now c = record c { last_used_at = some now; updated_at = now }

abbrev pub withdrawn : ℕ → DeviceCredential → DeviceCredential
withdrawn now c = record c { revoked_at = some now; updated_at = now }

abbrev pub update_credentials :
    (DeviceCredential → Bool)
    → (ℕ → DeviceCredential → DeviceCredential)
    → Env
    → Directory
    → Outcome DbError (Unit {0} × Directory)
update_credentials test change env db =
    ok (
      tt,
      record db { device_credentials = update_rows test (change env.now) db.device_credentials },
    )

unfoldable pub touch_device_credential : ℕ → Query (Unit {0})
unfolding statement
touch_device_credential id =
    statement (update_credentials (λ c. c.id == id && not (is_some c.revoked_at)) touched)

unfoldable pub revoke_device_credentials : ℕ → ℕ → Query (Unit {0})
unfolding statement
revoke_device_credentials organisation_id device_id = statement (
    update_credentials
      (λ c.
        c.organisation_id == organisation_id
        && c.device_id == device_id
        && not (is_some c.revoked_at))
      withdrawn)

-- CreateDevicePairingCode
abbrev pub new_pairing_code :
    ℕ → ℕ → String → String → String → Bytes → ℕ → ℕ → ℕ → DevicePairingCode
new_pairing_code organisation_id location_id created_by device_type prefix hash expires_at id now =
    record {
      id = id;
      organisation_id = organisation_id;
      location_id = location_id;
      created_by = created_by;
      device_type = device_type;
      pairing_code_lookup_prefix = prefix;
      pairing_code_hash = hash;
      expires_at = expires_at;
      consumed_at = none;
      consumed_by_device_id = none;
      created_at = now;
      updated_at = now;
    }

abbrev pub is_code_storable : DevicePairingCode → Directory → Bool
is_code_storable c db =
    is_located c.organisation_id (some c.location_id) db
    && not (is_empty c.created_by)
    && valid_device_type c.device_type
    && not (is_empty c.pairing_code_lookup_prefix)
    && leb 32 (length c.pairing_code_hash)
    && ltb c.created_at c.expires_at

abbrev pub insert_pairing_code :
    (ℕ → DevicePairingCode) → Env → Directory → Outcome DbError (DevicePairingCode × Directory)
insert_pairing_code code env db =
    if has_row
      (λ c.
        c.id == (code env.now).id
        || str_eq c.pairing_code_lookup_prefix (code env.now).pairing_code_lookup_prefix)
      db.device_pairing_codes
    then err duplicate
    else if is_code_storable (code env.now) db
    then ok
        (code env.now, record db { device_pairing_codes = code env.now ∷ db.device_pairing_codes })
    else err violation

unfoldable pub create_device_pairing_code :
    ℕ → ℕ → String → String → String → Bytes → ℕ → Query DevicePairingCode
unfolding statement
create_device_pairing_code organisation_id location_id created_by device_type prefix hash
      expires_at =
    do
      id ← new_id
      statement (
          insert_pairing_code (
            new_pairing_code organisation_id location_id created_by device_type prefix hash
              expires_at id))

-- GetDevicePairingCodeByPrefix
abbrev pub is_open_at : ℕ → DevicePairingCode → Bool
is_open_at now c = not (is_some c.consumed_at) && ltb now c.expires_at

abbrev pub is_offered : String → ℕ → Directory → DevicePairingCode → Bool
is_offered prefix now db c =
    str_eq c.pairing_code_lookup_prefix prefix
    && is_open_at now c
    && has_row
        (λ l.
          l.id == c.location_id
          && l.organisation_id == c.organisation_id
          && str_eq l.status "active")
        db.locations

abbrev pub read_pairing_code :
    String → Env → Directory → Outcome DbError (Option DevicePairingCode × Directory)
read_pairing_code prefix env db =
    ok (find_row (is_offered prefix env.now db) db.device_pairing_codes, db)

unfoldable pub get_device_pairing_code_by_prefix : String → Query (Option DevicePairingCode)
unfolding statement
get_device_pairing_code_by_prefix prefix = statement (read_pairing_code prefix)

-- ConsumeDevicePairingCode
abbrev pub consumed_by : Option ℕ → ℕ → DevicePairingCode → DevicePairingCode
consumed_by device_id now c = record c {
  consumed_at = some now;
  consumed_by_device_id = device_id;
  updated_at = now;
}

abbrev pub is_open_code : ℕ → ℕ → DevicePairingCode → Bool
is_open_code id now c = c.id == id && is_open_at now c

abbrev pub consumption :
    Option ℕ
    → ℕ
    → ℕ
    → Directory
    → Option DevicePairingCode
    → Outcome DbError (Option DevicePairingCode × Directory)
consumption device_id id now db none = ok (none, db)
consumption device_id id now db (some c) = ok (
  some (consumed_by device_id now c),
  record db {
    device_pairing_codes =
        update_rows (is_open_code id now) (consumed_by device_id now) db.device_pairing_codes;
  },
)

abbrev pub consume_code :
    ℕ → Option ℕ → Env → Directory → Outcome DbError (Option DevicePairingCode × Directory)
consume_code id device_id env db =
    consumption device_id id env.now db (find_row (is_open_code id env.now) db.device_pairing_codes)

unfoldable pub consume_device_pairing_code : ℕ → Option ℕ → Query (Option DevicePairingCode)
unfolding statement
consume_device_pairing_code id device_id = statement (consume_code id device_id)
