-- ===== src/Identity/Access/Ready.antt =====
-- The rows that PairDevice of internal/domain/identity/service.go leaves: the device that it trusts and its
-- credential.
use seatd_v.Base.{
  ℕ, suc, ◌≡◌, refl, sym, ap, ◌∙◌, subst, arith, Bool, true, false, ◌||◌, ◌==◌, String, Option,
  none, some, List, ◌∷◌, if◌then◌else◌, has_row, find_row, update_rows, str_eq,
}
use seatd_v.Store.{
  Env, TxOn, Bytes, DbError, violation, duplicate, no_rows, Outcome, ok, err, handle, after_action,
  after_statement, after_present, statement, map_error_inv, statement_returns, pure_inv,
}
use seatd_v.Identity.Schema.{Directory, Device, DeviceCredential, DevicePairingCode}
use seatd_v.Identity.Transaction.{Error, unauthorized, database}
use seatd_v.Identity.Secrets.{Token}
use seatd_v.Identity.DeviceQueries.{
  NewDevice, insert_device, insert_registered_device, registered, is_registrable, update_device,
  returned, is_unrevoked, is_usable, trusted_at, update_trusted,
}
use seatd_v.Identity.CredentialQueries.{
  create_device_credential, insert_credential, new_credential, is_storable, consume_code,
  consumption, consumed_by, is_open_code, consume_device_pairing_code,
}
use seatd_v.Identity.Devices.Registration.{RegisterDeviceResult}
use seatd_v.Identity.Devices.Pairing.{PairDeviceParams, pair_with_code, offered_device, equip}

inserted_inv :
    {A : Type 0} (clash storable : Bool) (a b : A) (after db' : Directory)
    → ◌≡◌ {A = Outcome DbError (A × Directory)}
        (if clash then err duplicate else if storable then ok (a, after) else err violation)
        (ok (b, db'))
    → (b ≡ a) × (db' ≡ after)
inserted_inv true storable a b after db' h = cc
inserted_inv false true a b after db' h = (cc, cc)
inserted_inv false false a b after db' h = cc

-- The first device of the rows is this one.
abbrev pub Leads : Device → Directory → Type 0
Leads d db = (rest : List Device) × (db.devices ≡ d ∷ rest)

insert-Leads :
    (n : NewDevice) (env : Env) (t : TxOn Directory) (d : Device) (u : TxOn Directory)
    → handle {E = Error} database (insert_registered_device n) env t ≡ ok (d, u)
    → (d ≡ registered n (env.ids t.drawn) env.now) × Leads d u.db
unfolding insert_registered_device
insert-Leads n env t d u h =
    let id = env.ids t.drawn in
    let drawn : TxOn Directory = record t { drawn = suc t.drawn } in
    let wrote =
      statement_returns (insert_device n id) env drawn
        (map_error_inv database (statement (insert_device n id) env drawn) h) in
    let (own, left) =
      inserted_inv (has_row (λ d. d.id == id) t.db.devices) (is_registrable n t.db)
        (registered n id env.now) d
        (record t.db { devices = registered n id env.now ∷ t.db.devices }) u.db wrote in
    (own, (t.db.devices, ap (λ db. db.devices) left ∙ ap (λ d. d ∷ t.db.devices) (sym own)))

consumption-Leads :
    (device_id : Option ℕ) (id now : ℕ) (d : Device) (db : Directory)
    (o r : Option DevicePairingCode) (db' : Directory)
    → consumption device_id id now db o ≡ ok (r, db')
    → Leads d db
    → Leads d db'
consumption-Leads device_id id now d db none r db' h (rest, e) =
    let same : db' ≡ db = cc in (rest, ap (λ db. db.devices) same ∙ e)
consumption-Leads device_id id now d db (some c) r db' h (rest, e) =
    let rows =
      update_rows (is_open_code id now) (consumed_by device_id now) db.device_pairing_codes in
    let same : db' ≡ record db { device_pairing_codes = rows } = cc in
    (rest, ap (λ db. db.devices) same ∙ e)

trust-Leads :
    (organisation_id : ℕ) (env : Env) (d : Device) (db : Directory) (o : Option Device)
    (db' : Directory)
    → is_unrevoked d.id organisation_id d ≡ true
    → update_device (is_unrevoked d.id organisation_id) trusted_at env db ≡ ok (o, db')
    → Leads d db
    → (o ≡ some (trusted_at env.now d)) × Leads (trusted_at env.now d) db'
unfolding find_row update_rows
trust-Leads organisation_id env d db o db' unrevoked h (rest, e) =
    let test = is_unrevoked d.id organisation_id in
    let found : find_row test db.devices ≡ some d = rw (e, unrevoked) refl in
    let wrote : returned (trusted_at env.now) test db (some d) ≡ ok (o, db') = rw found at h in
    let moved : update_rows test (trusted_at env.now) db.devices
        ≡ trusted_at env.now d ∷ update_rows test (trusted_at env.now) rest =
      rw (e, unrevoked) refl in
    let left : db' ≡ record db { devices = update_rows test (trusted_at env.now) db.devices } =
      cc in
    (cc, (update_rows test (trusted_at env.now) rest, ap (λ db. db.devices) left ∙ moved))

credential-made :
    (organisation_id device_id : ℕ) (prefix : String) (hash : Bytes) (env : Env)
    (t : TxOn Directory) (c : DeviceCredential) (u : TxOn Directory)
    → handle {E = Error} database
        (create_device_credential organisation_id device_id prefix hash none)
        env
        t
      ≡ ok (c, u)
    → (c ≡ new_credential organisation_id device_id prefix hash none (env.ids t.drawn) env.now)
      × (u.db ≡ record t.db { device_credentials = c ∷ t.db.device_credentials })
unfolding create_device_credential
credential-made organisation_id device_id prefix hash env t c u h =
    let id = env.ids t.drawn in
    let drawn : TxOn Directory = record t { drawn = suc t.drawn } in
    let row : ℕ → DeviceCredential = new_credential organisation_id device_id prefix hash none id in
    let wrote =
      statement_returns (insert_credential row) env drawn
        (map_error_inv database (statement (insert_credential row) env drawn) h) in
    let (own, left) =
      inserted_inv
        (has_row
          (λ c. c.id == (row env.now).id || str_eq c.lookup_prefix (row env.now).lookup_prefix)
          t.db.device_credentials)
        (is_storable (row env.now) t.db) (row env.now) c
        (record t.db { device_credentials = row env.now ∷ t.db.device_credentials }) u.db wrote in
    (
      own,
      left ∙ ap (λ c. record t.db { device_credentials = c ∷ t.db.device_credentials }) (sym own),
    )

-- The device and the credential that a pairing returned stand first in their tables.
pub record IsReady (token : Token) (r : RegisterDeviceResult) (db : Directory) : Type 0 where
  pub secret : r.secret ≡ token.secret
  pub usable : is_usable r.device ≡ true
  pub leads : Leads r.device db
  pub others : List DeviceCredential
  pub credentials : db.device_credentials ≡ r.credential ∷ others
  pub id : ℕ
  pub now : ℕ
  pub credential :
      r.credential
      ≡ new_credential r.device.organisation_id r.device.id token.prefix token.hash none id now

equip-IsReady :
    (token : Token) (c : DevicePairingCode) (d : Device) (env : Env) (t : TxOn Directory)
    (r : RegisterDeviceResult) (u : TxOn Directory)
    → is_unrevoked d.id c.organisation_id d ≡ true
    → Leads d t.db
    → equip token c d.id env t ≡ ok (r, u)
    → IsReady token r u.db
unfolding equip update_trusted
equip-IsReady token c d env t r u unrevoked leads h =
    after_statement database (update_device (is_unrevoked d.id c.organisation_id) trusted_at) _ env
      t h
      (λ o db1 updated h.
        let t1 : TxOn Directory = record t { db = db1; sent = suc t.sent } in
        let (found, first) =
          trust-Leads c.organisation_id env d t.db o db1 unrevoked updated leads in
        after_present (database no_rows) o _ env t1 h (λ device is h.
          let own : device ≡ trusted_at env.now d = cc in
          after_action
            (handle database
              (create_device_credential c.organisation_id device.id token.prefix token.hash none))
            _ env t1 h
            (λ credential t2 made h.
              let (row, left) =
                credential-made c.organisation_id device.id token.prefix token.hash env t1
                  credential t2 made in
              let (result, stays) = pure_inv h in
              subst (λ v. IsReady token r v.db) (sym stays)
                (subst (λ r. IsReady token r t2.db) (sym result)
                  (finished device own credential t1 t2 first row left)))))
  where
    finished :
        (device : Device)
        → device ≡ trusted_at env.now d
        → (credential : DeviceCredential) (t1 t2 : TxOn Directory)
        → Leads (trusted_at env.now d) t1.db
        → credential
          ≡ new_credential c.organisation_id device.id token.prefix token.hash none
              (env.ids t1.drawn)
              env.now
        → t2.db ≡ record t1.db { device_credentials = credential ∷ t1.db.device_credentials }
        → IsReady token
            (record { device = device; credential = credential; secret = token.secret })
            t2.db
    finished device own credential t1 t2 (rest, e) row left =
        let within : d.organisation_id ≡ c.organisation_id = ground arith in
        let moved : device.organisation_id ≡ c.organisation_id =
          ap (λ x. x.organisation_id) own ∙ within in
        let unended : is_usable (trusted_at env.now d) ≡ true = ground arith in
        record {
          secret = refl;
          usable = subst (λ x. is_usable x ≡ true) (sym own) unended;
          leads = (rest, ap (λ db. db.devices) left ∙ e ∙ ap (λ x. x ∷ rest) (sym own));
          others = t1.db.device_credentials;
          credentials = ap (λ db. db.device_credentials) left;
          id = env.ids t1.drawn;
          now = env.now;
          credential =
              row
              ∙ ap
                  (λ org.
                    new_credential org device.id token.prefix token.hash none (env.ids t1.drawn)
                      env.now)
                  (sym moved);
        }

pub pair_with_code-IsReady :
    (arg : PairDeviceParams) (token : Token) (c : DevicePairingCode) (env : Env)
    (t : TxOn Directory) (r : RegisterDeviceResult) (u : TxOn Directory)
    → pair_with_code arg token c env t ≡ ok (r, u)
    → IsReady token r u.db
unfolding pair_with_code consume_device_pairing_code
pair_with_code-IsReady arg token c env t r u h =
    after_action (handle database (insert_registered_device (offered_device c arg))) _ env t h
      (λ d t1 wrote h.
        let (own, leads) = insert-Leads (offered_device c arg) env t d t1 wrote in
        after_statement database (consume_code c.id (some d.id)) _ env t1 h (λ o db2 consumed h.
          let t2 : TxOn Directory = record t1 { db = db2; sent = suc t1.sent } in
          let first =
            consumption-Leads (some d.id) c.id env.now d t1.db
              (find_row (is_open_code c.id env.now) t1.db.device_pairing_codes) o db2 consumed
              leads in
          after_present unauthorized o _ env t2 h (λ x there h.
            equip-IsReady token c d env t2 r u (new_device d (env.ids t.drawn) own) first h)))
  where
    new_device :
        (d : Device) (id : ℕ)
        → d ≡ registered (offered_device c arg) id env.now
        → is_unrevoked d.id c.organisation_id d ≡ true
    new_device d id own =
        subst (λ d. is_unrevoked d.id c.organisation_id d ≡ true) (sym own) (ground arith)
