-- ===== src/Identity/Access/Revoked.antt =====
-- RevokeDevice and AuthenticateDeviceCredential of internal/domain/identity/service.go.
use seatd_v.Base.{
  ℕ, suc, ◌≡◌, refl, ap, ◌∙◌, Option-cases, sym, subst, arith, true, false, ◌&&◌, ◌==◌, String,
  Option, none, some, List, Bool-cases, inl, inr, has_row, find_row, find_key, find_row-test,
  update_rows, ended-IsOver, has_row-found, some_inj,
}
use seatd_v.Store.{
  Env, TxOn, Outcome, ok, err, no_rows, handle, after_action, after_statement, after_present,
  present, pure_inv,
}
use seatd_v.Identity.Schema.{Directory, Texts, Device, DeviceCredential}
use seatd_v.Identity.Transaction.{Error, not_found, unauthorized, already_revoked, database}
use seatd_v.Identity.Secrets.{lookup_prefix, secret_matches}
use seatd_v.Identity.Devices.Pairing.{require_match}
use seatd_v.Identity.Memberships.{TenantActor, normalize_tenant_actor, validate_tenant_actor}
use seatd_v.Identity.DeviceQueries.{
  is_unrevoked, is_usable, revoked_at, update_device, returned, update_revoked, get_device,
  mark_device_seen,
}
use seatd_v.Identity.CredentialQueries.{
  get_device_credential_by_prefix, read_credential, is_credential, with_device, device_of,
  usable_device, revoke_device_credentials, touch_device_credential,
}
use seatd_v.Identity.Devices.Credentials.{
  revoke_device, revoke_device_in_tx, require_device_permission, authenticate_device_credential,
  authenticate_in_tx, authenticate_with_prefix,
}
use seatd_v.Identity.Access.Later.{IsGone, has_id, is_unrevoked_in}
use seatd_v.Identity.Access.Calls.{Call, run}
use seatd_v.Identity.Access.Kept.{run-Later}
use seatd_v.Identity.Access.Returns.{unless_refused_inv, platform_inv, tenant_inv, begun}

-- The last statement of RevokeDevice
module _ (id organisation_id : ℕ) (now : ℕ) (db : Directory) (d : Device) (db' : Directory) where
  found-IsGone :
      (o : Option Device)
      → find_row (is_unrevoked id organisation_id) db.devices ≡ o
      → returned (revoked_at now) (is_unrevoked id organisation_id) db o ≡ ok (some d, db')
      → IsGone id organisation_id db'
  found-IsGone none e h = cc
  found-IsGone (some r) e h =
      let rows = update_rows (is_unrevoked id organisation_id) (revoked_at now) db.devices in
      let same : record db { devices = rows } ≡ db' = cc in
      let passes = find_row-test (is_unrevoked id organisation_id) db.devices r e in
      subst (IsGone id organisation_id) same (
        ended-IsOver (has_id id) (is_unrevoked_in organisation_id) (is_unrevoked id organisation_id)
          (revoked_at now) db.devices (λ x. refl) (λ x. ground arith) (λ x live. ground arith)
          (has_row-found (is_unrevoked id organisation_id) (has_id id) db.devices r e
            (ground arith)))

last-IsGone :
    (id organisation_id : ℕ) (env : Env) (db : Directory) (o : Option Device) (t : TxOn Directory)
    (d : Device) (u : TxOn Directory)
    → update_device (is_unrevoked id organisation_id) revoked_at env db ≡ ok (o, t.db)
    → present already_revoked o env t ≡ ok (d, u)
    → IsGone id organisation_id u.db
last-IsGone id organisation_id env db none t d u wrote h = cc
last-IsGone id organisation_id env db (some r) t d u wrote h =
    subst (λ v. IsGone id organisation_id v.db) (sym (pure_inv h).1)
      (found-IsGone id organisation_id env.now db r t.db
        (find_row (is_unrevoked id organisation_id) db.devices) refl wrote)

revoke_device-IsGone :
    (texts : Texts) (actor : TenantActor) (id : ℕ) (env : Env) (db : Directory) (d : Device)
    (db' : Directory)
    → revoke_device texts actor id env db ≡ (ok d, db')
    → IsGone id actor.organisation_id db'
unfolding revoke_device revoke_device_in_tx update_revoked
revoke_device-IsGone texts given id env db d db' h =
    let actor = normalize_tenant_actor texts given in
    let (u, ran, left) =
      tenant_inv (revoke_device_in_tx actor id) env db
        (unless_refused_inv (validate_tenant_actor actor false none) _ db h) in
    subst (IsGone id given.organisation_id) left (
      after_action (handle database (get_device id actor.organisation_id)) _ env (begun db) ran
        (λ found t _ h. after_present not_found found _ env t h (λ current _ h.
          after_action (require_device_permission actor current.location_id) _ env t h (λ _ t _ h.
            after_action (handle database (revoke_device_credentials actor.organisation_id id)) _
              env t h
              (λ _ t _ h.
                after_statement database
                  (update_device (is_unrevoked id actor.organisation_id) revoked_at) _ env t h
                  (λ o db1 wrote h.
                    last-IsGone id actor.organisation_id env t.db o
                      (record t { db = db1; sent = suc t.sent }) d u wrote h))))))

-- A credential that may be used is that of a device that is not revoked.
usable-IsUnrevoked :
    (id organisation_id : ℕ) (db : Directory) (device_id : ℕ) (o : Option Device) (d : Device)
    → find_key (λ x. x.id) device_id db.devices ≡ o
    → usable_device o ≡ some d
    → (d.id == id && d.organisation_id == organisation_id) ≡ true
    → has_row (λ x. has_id id x && is_unrevoked_in organisation_id x) db.devices ≡ true
usable-IsUnrevoked id organisation_id db device_id none d e h named = cc
usable-IsUnrevoked id organisation_id db device_id (some r) d e h named =
    elim (Bool-cases (is_usable r)) [
      | inl usable ↦
          let same : r ≡ d = some_inj (rw usable at h) in
          let own =
            subst (λ x. (x.id == id && x.organisation_id == organisation_id) ≡ true) (sym same)
              named in
          has_row-found (λ x. x.id == device_id) _ db.devices r e (ground arith)
      | inr useless ↦ (let absent = rw useless at h in cc)
    ]

read-IsUnrevoked :
    (id organisation_id : ℕ) (db : Directory) (o : Option DeviceCredential)
    (row : DeviceCredential × Device)
    → with_device db o ≡ some row
    → (row.1.id == id && row.1.organisation_id == organisation_id) ≡ true
    → has_row (λ x. has_id id x && is_unrevoked_in organisation_id x) db.devices ≡ true
read-IsUnrevoked id organisation_id db none row h named = cc
read-IsUnrevoked id organisation_id db (some c) row h named = elim (Option-cases (device_of db c)) [
  | inl e ↦ (let absent = rw e at h in cc)
  | inr (d, e) ↦
      let same : ◌≡◌ {A = Option (DeviceCredential × Device)} (some (c, d)) (some row) =
        rw e at h in
      let own : d ≡ row.1 = cc in
      usable-IsUnrevoked id organisation_id db c.device_id
        (find_key (λ x. x.id) c.device_id db.devices) row.1 refl (e ∙ ap some own) named
]

module _ (texts : Texts) (id organisation_id : ℕ) (env : Env) (db : Directory) where
  read-named :
      (prefix : String) (o : Option (DeviceCredential × Device)) (db1 : Directory)
      (row : DeviceCredential × Device)
      → IsGone id organisation_id db
      → read_credential prefix env db ≡ ok (o, db1)
      → o ≡ some row
      → (row.1.id == id && row.1.organisation_id == organisation_id) ≡ false
  read-named prefix o db1 row gone read e =
      elim (Bool-cases (row.1.id == id && row.1.organisation_id == organisation_id)) [
        | inl named ↦
            let c = find_row (is_credential prefix env.now db) db.device_credentials in
            let same : with_device db c ≡ o = cc in
            let live = read-IsUnrevoked id organisation_id db c row (same ∙ e) named in
            let dead = gone.1 in cc
        | inr other ↦ other
      ]

  authenticated-named :
      (secret : String) (d : Device) (after : Directory)
      → IsGone id organisation_id db
      → authenticate_device_credential texts secret env db ≡ (ok d, after)
      → (d.id == id && d.organisation_id == organisation_id) ≡ false
  unfolding authenticate_device_credential authenticate_in_tx get_device_credential_by_prefix
  authenticated-named secret d after gone = with_prefix (lookup_prefix texts secret)
    where
      with_prefix :
          (o : Outcome Error String)
          → authenticate_with_prefix texts secret env o db ≡ (ok d, after)
          → (d.id == id && d.organisation_id == organisation_id) ≡ false
      with_prefix (err e) h = cc
      with_prefix (ok prefix) h =
          let (u, ran, left) = platform_inv (authenticate_in_tx texts secret prefix) env db h in
          after_statement database (read_credential prefix) _ env (begun db) ran (λ o db1 read h.
            after_present unauthorized o _ env (record (begun db) { db = db1; sent = 3 }) h
              (λ row is h.
                let other = read-named prefix o db1 row gone read is in
                after_action (require_match (secret_matches texts secret row.0.credential_hash)) _
                  env _ h
                  (λ _ t _ h.
                    after_action (handle database (mark_device_seen row.1.id row.1.organisation_id))
                      _ env t h
                      (λ marked t _ h.
                        after_present (database no_rows) marked _ env t h (λ seen _ h.
                          after_action (handle database (touch_device_credential row.0.id)) _ env t
                            h
                            (λ _ t _ h.
                              let same : d ≡ row.1 = (pure_inv h).0 in
                              subst
                                (λ d. (d.id == id && d.organisation_id == organisation_id) ≡ false)
                                (sym same) other))))))

-- Once RevokeDevice returned a device, whatever calls on devices and web sessions follow, on any
-- connections, no secret authenticates that device of the actor's organisation again.
pub revoked_authenticates-never :
    (texts : Texts) (actor : TenantActor) (id : ℕ) (env : Env) (db : Directory) (d : Device)
    (db' : Directory)
    → revoke_device texts actor id env db ≡ (ok d, db')
    → (calls : List ((ℕ → Env) × Call)) (secret : String) (later : Env) (other : Device)
      (after : Directory)
    → authenticate_device_credential texts secret later (run texts calls db') ≡ (ok other, after)
    → (other.id == id && other.organisation_id == actor.organisation_id) ≡ false
revoked_authenticates-never texts actor id env db d db' h calls secret later other after ran =
    let gone = revoke_device-IsGone texts actor id env db d db' h in
    authenticated-named texts id actor.organisation_id later (run texts calls db') secret other
      after ((run-Later texts calls db').devices id actor.organisation_id gone) ran
