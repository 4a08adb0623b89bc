-- ===== src/Identity/Access/Paired.antt =====
-- AuthenticateDeviceCredential of internal/domain/identity/service.go after PairDevice.
use seatd_v.Base.{
  ℕ, ◌≡◌, refl, sym, ap, ◌∙◌, subst, arith, true, false, not, ◌&&◌, ◌==◌, String, Option, none,
  some, is_some, find_row, find_key, update_rows, eq_refl,
}
use seatd_v.Store.{Env, TxOn, Bytes, Outcome, ok, err, ◌>>◌, bytes_equal_refl}
use seatd_v.Identity.Schema.{Directory, Texts, Device}
use seatd_v.Identity.Transaction.{Error, Action}
use seatd_v.Identity.Secrets.{Token, token_of, lookup_prefix, hash_secret, secret_matches}
use seatd_v.Identity.DeviceQueries.{update_device, is_usable_device, seen_at, mark_device_seen}
use seatd_v.Identity.CredentialQueries.{
  is_credential, touch_device_credential, update_credentials, touched, device_of, read_credential,
  get_device_credential_by_prefix,
}
use seatd_v.Identity.Owners.Runs.{statement_runs, platform_runs}
use seatd_v.Identity.Devices.Credentials.{authenticate_device_credential, authenticate_in_tx}
use seatd_v.Identity.Access.Returns.{begun}
use seatd_v.Identity.Access.Spent.{code_prefix, returned_tx, after_read}
use seatd_v.Identity.Devices.Registration.{RegisterDeviceResult, opaque_token}
use seatd_v.Identity.Devices.Pairing.{
  PairDeviceParams, pair_device, pair_with_prefix, normalized_pairing, require_match,
}
use seatd_v.Identity.Access.Ready.{IsReady, pair_with_code-IsReady}

-- An authentication with the secret, on a connection that holds
module _ (texts : Texts) (token : Token) (r : RegisterDeviceResult) (db : Directory) (env : Env)
    (ready : IsReady token r db) (prefix : lookup_prefix texts token.secret ≡ ok token.prefix)
    (hash : hash_secret texts token.secret ≡ ok token.hash)
    (calm : (n : ℕ) → env.faults n ≡ false) where
  device_found : find_key (λ d. d.id) r.device.id db.devices ≡ some r.device
  unfolding find_row
  device_found = let (rest, first) = ready.leads in rw (first, own_id r.device.id) refl
    where
      own_id : (n : ℕ) → (n == n) ≡ true
      own_id n = ground arith

  credential_usable : is_credential token.prefix env.now db r.credential ≡ true
  credential_usable =
      let row = ready.credential in
      let usable = ready.usable in
      subst (λ c. is_credential token.prefix env.now db c ≡ true) (sym row)
        (rw (eq_refl, device_found, usable) refl)

  read : find_row (is_credential token.prefix env.now db) db.device_credentials ≡ some r.credential
  unfolding find_row
  read = let first = ready.credentials in let usable = credential_usable in rw (first, usable) refl

  pair_read : read_credential token.prefix env db ≡ ok (some (r.credential, r.device), db)
  pair_read =
      let row = ready.credential in
      let usable = ready.usable in
      let of_row : device_of db r.credential ≡ some r.device =
        subst (λ c. device_of db c ≡ some r.device) (sym row) (rw (device_found, usable) refl) in
      rw (read, of_row) refl

  matches : secret_matches texts token.secret r.credential.credential_hash ≡ ok true
  matches =
      let row = ready.credential in
      subst (λ c. secret_matches texts token.secret c.credential_hash ≡ ok true) (sym row)
        (rw (hash, bytes_equal_refl token.hash) refl)

  match_runs :
      (k : Action Device) (t : TxOn Directory)
      → (require_match (secret_matches texts token.secret r.credential.credential_hash) >> k) env t
        ≡ k env t
  match_runs k t = rw matches refl

  abbrev seen_rows : Directory
  seen_rows = record db {
    devices =
        update_rows (is_usable_device r.device.id r.device.organisation_id) (seen_at env.now)
          db.devices;
  }

  marked :
      update_device (is_usable_device r.device.id r.device.organisation_id) seen_at env db
      ≡ ok (some (seen_at env.now r.device), seen_rows)
  unfolding find_row
  marked =
      let (rest, first) = ready.leads in
      let usable = ready.usable in
      let same : is_usable_device r.device.id r.device.organisation_id r.device ≡ true =
        ground arith in
      let found : find_row (is_usable_device r.device.id r.device.organisation_id) db.devices
          ≡ some r.device =
        rw (first, same) refl in
      rw found refl

  authenticates : (authenticate_device_credential texts token.secret env db).0 ≡ ok r.device
  unfolding authenticate_device_credential authenticate_in_tx get_device_credential_by_prefix
      mark_device_seen touch_device_credential
  authenticates =
      let t3 : TxOn Directory = record (begun db) { sent = 3 } in
      let t4 : TxOn Directory = record { db = seen_rows; sent = 4; drawn = 0 } in
      let touch =
        update_credentials (λ c. c.id == r.credential.id && not (is_some c.revoked_at)) touched in
      let touched_rows : Directory = record seen_rows {
        device_credentials =
            update_rows (λ c. c.id == r.credential.id && not (is_some c.revoked_at))
              (touched env.now) db.device_credentials;
      } in
      let body : authenticate_in_tx texts token.secret token.prefix env (begun db)
          ≡ ok (r.device, record { db = touched_rows; sent = 5; drawn = 0 }) =
        statement_runs env calm (read_credential token.prefix) _ (begun db)
          (some (r.credential, r.device)) db pair_read
        ∙ match_runs _ t3
        ∙ statement_runs env calm
            (update_device (is_usable_device r.device.id r.device.organisation_id) seen_at) _ t3
            (some (seen_at env.now r.device)) seen_rows marked
        ∙ statement_runs env calm touch _ t4 tt touched_rows refl in
      rw prefix (
        ap (λ x. x.0)
          (platform_runs env calm (authenticate_in_tx texts token.secret token.prefix) db r.device
            (record { db = touched_rows; sent = 5; drawn = 0 }) body))

token_inv :
    (texts : Texts) (secret : String) (p : Outcome Error String) (h : Outcome Error Bytes)
    (token : Token)
    → token_of secret p h ≡ ok token
    → (secret ≡ token.secret) × (p ≡ ok token.prefix) × (h ≡ ok token.hash)
token_inv texts secret (err e) h token made = cc
token_inv texts secret (ok p) (err e) token made = cc
token_inv texts secret (ok p) (ok h) token made = (cc, cc, cc)

opaque_inv :
    (texts : Texts) (generated : Option String) (token : Token)
    → opaque_token texts generated ≡ ok token
    → (lookup_prefix texts token.secret ≡ ok token.prefix)
      × (hash_secret texts token.secret ≡ ok token.hash)
opaque_inv texts none token made = cc
opaque_inv texts (some secret) token made =
    let (own, prefix, hash) =
      token_inv texts secret (lookup_prefix texts secret) (hash_secret texts secret) token made in
    (
      subst (λ s. lookup_prefix texts s ≡ ok token.prefix) own prefix,
      subst (λ s. hash_secret texts s ≡ ok token.hash) own hash,
    )

-- Once PairDevice returned a device and a secret, on any connection, AuthenticateDeviceCredential on a
-- connection that holds returns that device for that secret.
pub paired_secret-authenticates :
    (texts : Texts) (generated : Option String) (arg : PairDeviceParams) (env : Env)
    (db : Directory) (r : RegisterDeviceResult) (db' : Directory)
    → pair_device texts generated arg env db ≡ (ok r, db')
    → (later : Env) → ((n : ℕ) → later.faults n ≡ false)
    → (authenticate_device_credential texts r.secret later db').0 ≡ ok r.device
unfolding pair_device
paired_secret-authenticates texts generated arg env db r db' h later calm =
    named (code_prefix texts arg) refl
  where
    named :
        (o : Outcome Error String)
        → code_prefix texts arg ≡ o
        → (authenticate_device_credential texts r.secret later db').0 ≡ ok r.device
    named (err e) is =
        let failed =
          subst
            (λ o.
              pair_with_prefix texts generated (normalized_pairing texts arg) env o db
              ≡ (ok r, db'))
            is h in
        cc
    named (ok prefix) is =
        let (token, drawn, u, ran, left) =
          returned_tx texts arg prefix is generated env db r db' h in
        let ready : IsReady token r u.db =
          after_read texts (normalized_pairing texts arg) prefix token env db r u ran
            (λ c t same there rest.
              pair_with_code-IsReady (normalized_pairing texts arg) token c env t r u rest) in
        let (own_prefix, own_hash) = opaque_inv texts generated token drawn in
        let secret = ready.secret in
        subst (λ d. (authenticate_device_credential texts r.secret later d).0 ≡ ok r.device) left
          (subst (λ s. (authenticate_device_credential texts s later u.db).0 ≡ ok r.device)
            (sym secret) (authenticates texts token r u.db later ready own_prefix own_hash calm))
