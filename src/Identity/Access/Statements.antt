-- ===== src/Identity/Access/Statements.antt =====
-- The statements on devices, credentials, codes and sessions in internal/store/db/security.sql.go, between the
-- rows before and after.
use seatd_v.Base.{
  ℕ, ◌≡◌, refl, sym, ◌∙◌, subst, Bool, true, false, String, Option, none, some, List, ◌∷◌,
  if◌then◌else◌, arith, eq_iff, has_row, find_row, update_rows, is_some, ◌||◌, str_eq, IsOver,
  update_rows-IsOver, cons-IsOver,
}
use seatd_v.Store.{Env, DbError, Outcome, ok, err, violation, duplicate}
use seatd_v.Identity.Schema.{Directory, Device, DeviceCredential, DevicePairingCode, WebSessionRow}
use seatd_v.Identity.DeviceQueries.{
  NewDevice, insert_device, registered, is_registrable, update_device, returned,
}
use seatd_v.Identity.CredentialQueries.{
  insert_credential, is_storable, insert_pairing_code, is_code_storable, consumption, consumed_by,
  is_open_code,
}
use seatd_v.Identity.Sessions.Queries.{
  NewSession, insert_session, opened, is_openable, update_sessions,
}
use seatd_v.Identity.Access.Later.{
  Later, same-Later, has_id, is_unrevoked_in, has_code, is_unconsumed, has_prefix, is_unended,
}

-- The rows with others in one table
devices-Later :
    (db : Directory) (rows : List Device)
    → ((id organisation_id : ℕ)
        → IsOver (has_id id) (is_unrevoked_in organisation_id) db.devices
        → IsOver (has_id id) (is_unrevoked_in organisation_id) rows)
    → Later db (record db { devices = rows })
devices-Later db rows kept = record {
  devices = kept;
  codes = λ prefix h. h;
  sessions = λ prefix h. h;
}

codes-Later :
    (db : Directory) (rows : List DevicePairingCode)
    → ((prefix : String)
        → IsOver (has_code prefix) is_unconsumed db.device_pairing_codes
        → IsOver (has_code prefix) is_unconsumed rows)
    → Later db (record db { device_pairing_codes = rows })
codes-Later db rows kept = record {
  devices = λ id organisation_id h. h;
  codes = kept;
  sessions = λ prefix h. h;
}

sessions-Later :
    (db : Directory) (rows : List WebSessionRow)
    → ((prefix : String)
        → IsOver (has_prefix prefix) is_unended db.web_sessions
        → IsOver (has_prefix prefix) is_unended rows)
    → Later db (record db { web_sessions = rows })
sessions-Later db rows kept = record {
  devices = λ id organisation_id h. h;
  codes = λ prefix h. h;
  sessions = kept;
}

-- An INSERT with its constraints
abbrev inserted : {A : Type 0} → Bool → Bool → A × Directory → Outcome DbError (A × Directory)
inserted clash storable r =
    if clash then err duplicate else if storable then ok r else err violation

insert-Later :
    {A : Type 0} (clash storable : Bool) (row : A) (db after : Directory) {a : A} {db' : Directory}
    → inserted clash storable (row, after) ≡ ok (a, db')
    → (clash ≡ false → Later db after)
    → Later db db'
insert-Later true storable row db after h later = cc
insert-Later false true row db after {db' = db'} h later =
    subst (Later db) (let same : after ≡ db' = cc in same) (later refl)
insert-Later false false row db after h later = cc

pub insert_device-Later :
    (n : NewDevice) (id : ℕ) (env : Env) (db : Directory) (d : Device) (db' : Directory)
    → insert_device n id env db ≡ ok (d, db')
    → Later db db'
insert_device-Later n id env db d db' h =
    insert-Later (has_row (has_id id) db.devices) (is_registrable n db) _ db _ h (λ free.
      devices-Later db (registered n id env.now ∷ db.devices) (λ gone organisation_id over.
        cons-IsOver (has_id gone) (is_unrevoked_in organisation_id) (has_id id) _ db.devices
          (λ same y e. ground arith) free over))

pub insert_credential-Later :
    (credential : ℕ → DeviceCredential) (env : Env) (db : Directory) (c : DeviceCredential)
    (db' : Directory)
    → insert_credential credential env db ≡ ok (c, db')
    → Later db db'
insert_credential-Later credential env db c db' h =
    insert-Later _ (is_storable (credential env.now) db) _ db _ h (λ free. record {
      devices = λ id organisation_id over. over;
      codes = λ prefix over. over;
      sessions = λ prefix over. over;
    })

-- Rows with one prefix clash.
equal_texts :
    (a b prefix : String) (other : Bool)
    → str_eq a prefix ≡ true
    → str_eq b prefix ≡ true
    → (other || str_eq b a) ≡ true
equal_texts a b prefix other e f =
    let same : b ≡ a = (eq_iff b prefix).0 f ∙ sym ((eq_iff a prefix).0 e) in
    let equal = (eq_iff b a).1 same in ground arith

pub insert_pairing_code-Later :
    (code : ℕ → DevicePairingCode) (env : Env) (db : Directory) (c : DevicePairingCode)
    (db' : Directory)
    → insert_pairing_code code env db ≡ ok (c, db')
    → Later db db'
insert_pairing_code-Later code env db c db' h =
    insert-Later _ (is_code_storable (code env.now) db) _ db _ h (λ free.
      codes-Later db (code env.now ∷ db.device_pairing_codes) (λ prefix over.
        cons-IsOver (has_code prefix) is_unconsumed _ _ db.device_pairing_codes
          (λ same y e. equal_texts _ _ _ _ same e) free over))

pub insert_session-Later :
    (n : NewSession) (id : ℕ) (env : Env) (db : Directory) (s : WebSessionRow) (db' : Directory)
    → insert_session n id env db ≡ ok (s, db')
    → Later db db'
insert_session-Later n id env db s db' h =
    insert-Later _ (is_openable n env.now db) _ db _ h (λ free.
      sessions-Later db (opened n id env.now ∷ db.web_sessions) (λ prefix over.
        cons-IsOver (has_prefix prefix) is_unended _ _ db.web_sessions
          (λ same y e. equal_texts _ _ _ _ same e) free over))

-- An UPDATE of devices that keeps their keys and sets revoked_at to none nowhere
pub update_device-Later :
    (test : Device → Bool) (change : ℕ → Device → Device)
    → ((now : ℕ) (d : Device)
        → ((change now d).id ≡ d.id)
          × ((change now d).organisation_id ≡ d.organisation_id)
          × (is_some d.revoked_at ≡ true → is_some (change now d).revoked_at ≡ true))
    → (env : Env) (db : Directory) (d : Option Device) (db' : Directory)
    → update_device test change env db ≡ ok (d, db')
    → Later db db'
update_device-Later test change keeps env db d db' h = found (find_row test db.devices) h
  where
    updated : Later db (record db { devices = update_rows test (change env.now) db.devices })
    updated = devices-Later db _ (λ id organisation_id.
        update_rows-IsOver (has_id id) (is_unrevoked_in organisation_id) test (change env.now)
          db.devices (λ d. let same = (keeps env.now d).0 in rw same refl)
          (λ d live. let (same, within, ends) = keeps env.now d in ground (arith, within)))

    found : (o : Option Device) → returned (change env.now) test db o ≡ ok (d, db') → Later db db'
    found none h = let same : db ≡ db' = cc in subst (Later db) same (same-Later db)
    found (some r) h =
        let same : record db { devices = update_rows test (change env.now) db.devices } ≡ db' =
          cc in
        subst (Later db) same updated

pub consumption-Later :
    (device_id : Option ℕ) (id now : ℕ) (db : Directory) (o c : Option DevicePairingCode)
    (db' : Directory)
    → consumption device_id id now db o ≡ ok (c, db')
    → Later db db'
consumption-Later device_id id now db none c db' h =
    let same : db ≡ db' = cc in subst (Later db) same (same-Later db)
consumption-Later device_id id now db (some r) c db' h =
    let rows =
      update_rows (is_open_code id now) (consumed_by device_id now) db.device_pairing_codes in
    let same : record db { device_pairing_codes = rows } ≡ db' = cc in
    subst (Later db) same (
      codes-Later db rows (λ prefix.
        update_rows-IsOver (has_code prefix) is_unconsumed (is_open_code id now)
          (consumed_by device_id now) db.device_pairing_codes (λ c. refl) (λ c live. cc)))

pub update_sessions-Later :
    (test : ℕ → WebSessionRow → Bool) (change : ℕ → WebSessionRow → WebSessionRow)
    → ((now : ℕ) (s : WebSessionRow)
        → ((change now s).lookup_prefix ≡ s.lookup_prefix)
          × (is_some s.revoked_at ≡ true → is_some (change now s).revoked_at ≡ true))
    → (env : Env) (db : Directory) (u : Unit {0}) (db' : Directory)
    → update_sessions test change env db ≡ ok (u, db')
    → Later db db'
update_sessions-Later test change keeps env db u db' h =
    let rows = update_rows (test env.now) (change env.now) db.web_sessions in
    let same : record db { web_sessions = rows } ≡ db' = cc in
    subst (Later db) same (
      sessions-Later db rows (λ prefix.
        update_rows-IsOver (has_prefix prefix) is_unended (test env.now) (change env.now)
          db.web_sessions (λ s. let (same, ends) = keeps env.now s in rw same refl)
          (λ s live. let (same, ends) = keeps env.now s in ground arith)))
