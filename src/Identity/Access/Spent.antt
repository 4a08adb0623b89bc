-- ===== src/Identity/Access/Spent.antt =====
-- PairDevice of internal/domain/identity/service.go and the code that it consumes.
use seatd_v.Base.{
  ℕ, suc, ◌≡◌, ◌≤◌, refl, sym, ap, ◌∙◌, subst, arith, Bool, true, false, ◌&&◌, ◌==◌, String, Option,
  none, some, List, ◌∷◌, if◌then◌else◌, is_some, has_row, find_row, find_row-test, update_rows,
  count_rows, only-IsOver, has_row-found,
}
use seatd_v.Store.{
  Env, TxOn, DbError, violation, duplicate, Outcome, ok, err, is_ok, handle, after_action,
  after_statement, after_present, statement, map_error_inv, statement_returns,
}
use seatd_v.Identity.Schema.{Directory, Texts, Device, DevicePairingCode}
use seatd_v.Identity.Transaction.{Error, unauthorized, database}
use seatd_v.Identity.Secrets.{
  Token, secret_matches, normalize_pairing_code, pairing_code_lookup_prefix,
}
use seatd_v.Identity.DeviceQueries.{
  NewDevice, insert_device, insert_registered_device, registered, is_registrable,
}
use seatd_v.Identity.CredentialQueries.{
  get_device_pairing_code_by_prefix, read_pairing_code, is_offered, is_open_code, consume_code,
  consumption, consumed_by, consume_device_pairing_code,
}
use seatd_v.Identity.Devices.Registration.{RegisterDeviceResult, opaque_token}
use seatd_v.Identity.Devices.Pairing.{
  PairDeviceParams, pair_device, pair_device_in_tx, pair_with_code, pair_with_prefix,
  pairing_refusal, normalized_pairing, require_match, offered_device,
}
use seatd_v.Identity.Access.Later.{IsSpent, has_code, is_unconsumed, same-Later}
use seatd_v.Identity.Access.DeviceKeeps.{equip-IsKept}
use seatd_v.Identity.Access.Calls.{Call, run}
use seatd_v.Identity.Access.Kept.{run-Later}
use seatd_v.Identity.Access.Returns.{
  unless_refused_inv, with_token_inv, platform_inv, begun, require_match-same,
}

-- The prefix that the code of a device is looked up by
abbrev pub code_prefix : Texts → PairDeviceParams → Outcome Error String
code_prefix texts arg = pairing_code_lookup_prefix texts (normalize_pairing_code texts arg.code)

inserted-codes :
    (clash storable : Bool) (d e : Device) (db after db' : Directory)
    → (after.device_pairing_codes ≡ db.device_pairing_codes)
    → ◌≡◌ {A = Outcome DbError (Device × Directory)}
        (if clash then err duplicate else if storable then ok (d, after) else err violation)
        (ok (e, db'))
    → db'.device_pairing_codes ≡ db.device_pairing_codes
inserted-codes true storable d e db after db' same h = cc
inserted-codes false true d e db after db' same h = cc
inserted-codes false false d e db after db' same h = cc

module _ (prefix : String) (env : Env) (db : Directory) (c : DevicePairingCode)
    (one : count_rows (has_code prefix) db.device_pairing_codes ≤ 1)
    (offered : find_row (is_offered prefix env.now db) db.device_pairing_codes ≡ some c) where
  open_code : is_open_code c.id env.now c ≡ true
  open_code =
      let passes = find_row-test (is_offered prefix env.now db) db.device_pairing_codes c offered in
      ground arith

  -- The code was consumed, over rows with the codes of before.
  consumed-IsSpent :
      (device_id : Option ℕ) (mid db' : Directory) (o r : Option DevicePairingCode)
      → mid.device_pairing_codes ≡ db.device_pairing_codes
      → find_row (is_open_code c.id env.now) mid.device_pairing_codes ≡ o
      → consumption device_id c.id env.now mid o ≡ ok (r, db')
      → is_some r ≡ true
      → IsSpent prefix db'
  consumed-IsSpent device_id mid db' none r same e h there = cc
  consumed-IsSpent device_id mid db' (some x) r same e h there =
      let rows =
        update_rows (is_open_code c.id env.now) (consumed_by device_id env.now)
          mid.device_pairing_codes in
      let wrote : record mid { device_pairing_codes = rows } ≡ db' = cc in
      let codes = mid.device_pairing_codes in
      subst (IsSpent prefix) wrote (
        only-IsOver (has_code prefix) is_unconsumed (is_offered prefix env.now db)
          (is_open_code c.id env.now) (consumed_by device_id env.now) codes c (λ x h. ground arith)
          (λ x. refl) (λ x. refl)
          (subst (λ rows. count_rows (has_code prefix) rows ≤ 1) (sym same) one)
          (subst (λ rows. find_row (is_offered prefix env.now db) rows ≡ some c) (sym same) offered)
          open_code)

registered-codes :
    (n : NewDevice) (env : Env) (t : TxOn Directory) (d : Device) (u : TxOn Directory)
    → handle {E = Error} database (insert_registered_device n) env t ≡ ok (d, u)
    → u.db.device_pairing_codes ≡ t.db.device_pairing_codes
unfolding insert_registered_device
registered-codes n env t d u h =
    let id = env.ids t.drawn in
    let drawn : TxOn Directory = record t { drawn = suc t.drawn } in
    let wrote =
      statement_returns (insert_device n id) env drawn
        (map_error_inv database (statement (insert_device n id) env drawn) h) in
    inserted-codes (has_row (λ d. d.id == id) t.db.devices) (is_registrable n t.db)
      (registered n id env.now) d t.db
      (record t.db { devices = registered n id env.now ∷ t.db.devices }) u.db refl wrote

module _ (prefix : String) (env : Env) (t : TxOn Directory) (c : DevicePairingCode)
    (one : count_rows (has_code prefix) t.db.device_pairing_codes ≤ 1)
    (offered : find_row (is_offered prefix env.now t.db) t.db.device_pairing_codes ≡ some c) where
  pair_with_code-IsSpent :
      (arg : PairDeviceParams) (token : Token) (r : RegisterDeviceResult) (u : TxOn Directory)
      → pair_with_code arg token c env t ≡ ok (r, u)
      → IsSpent prefix u.db
  unfolding pair_with_code consume_device_pairing_code
  pair_with_code-IsSpent arg token r u h =
      after_action (handle database (insert_registered_device (offered_device c arg))) _ env t h
        (λ d t1 wrote h.
          let same = registered-codes (offered_device c arg) env t d t1 wrote in
          after_statement database (consume_code c.id (some d.id)) _ env t1 h (λ o db2 consumed h.
            let t2 : TxOn Directory = record t1 { db = db2; sent = suc t1.sent } in
            after_present unauthorized o _ env t2 h (λ x there h.
              let spent =
                consumed-IsSpent prefix env t.db c one offered (some d.id) t1.db db2
                  (find_row (is_open_code c.id env.now) t1.db.device_pairing_codes) o same refl
                  consumed (rw there refl) in
              (equip-IsKept db2 token c d.id env t2 r u h (same-Later db2)).codes prefix spent)))

-- A transaction of PairDevice that returned had read a code that is not consumed.
module _ (texts : Texts) (arg : PairDeviceParams) (prefix : String) (token : Token) (env : Env)
    (db : Directory) (r : RegisterDeviceResult) (u : TxOn Directory)
    (ran : pair_device_in_tx texts arg prefix token env (begun db) ≡ ok (r, u)) where
  pub after_read :
      {P : Type 0}
      → ((c : DevicePairingCode) (t : TxOn Directory)
          → t.db ≡ db
          → find_row (is_offered prefix env.now db) db.device_pairing_codes ≡ some c
          → pair_with_code arg token c env t ≡ ok (r, u)
          → P)
      → P
  unfolding pair_device_in_tx get_device_pairing_code_by_prefix
  after_read go =
      after_statement database (read_pairing_code prefix) _ env (begun db) ran (λ o db1 read h.
        let t1 : TxOn Directory = record (begun db) { db = db1; sent = 3 } in
        after_present unauthorized o _ env t1 h (λ c there h.
          after_action (require_match (secret_matches texts arg.code c.pairing_code_hash)) _ env t1
            h
            (λ _ t2 matched h.
              go c t2
                (require_match-same (secret_matches texts arg.code c.pairing_code_hash) env t1 t2
                    matched
                  ∙ cc)
                (let same : find_row (is_offered prefix env.now db) db.device_pairing_codes ≡ o =
                    cc in
                  same ∙ there)
                h)))

module _ (texts : Texts) (arg : PairDeviceParams) (prefix : String)
    (named : code_prefix texts arg ≡ ok prefix) where
  pub returned_tx :
      (generated : Option String) (env : Env) (db : Directory) (r : RegisterDeviceResult)
      (db' : Directory)
      → pair_device texts generated arg env db ≡ (ok r, db')
      → (token : Token) × (opaque_token texts generated ≡ ok token)
        × (u : TxOn Directory) × (pair_device_in_tx texts
              (normalized_pairing texts arg)
              prefix
              token
              env
              (begun db)
            ≡ ok (r, u))
        × (u.db ≡ db')
  unfolding pair_device
  returned_tx generated env db r db' h =
      let normal = normalized_pairing texts arg in
      let reached =
        subst (λ o. pair_with_prefix texts generated normal env o db ≡ (ok r, db')) named h in
      let (token, drawn, ran) =
        with_token_inv _ (opaque_token texts generated) db
          (unless_refused_inv (pairing_refusal texts normal) _ db reached) in
      let (u, body, left) = platform_inv (pair_device_in_tx texts normal prefix token) env db ran in
      (token, drawn, u, body, left)

  pair_device-IsSpent :
      (generated : Option String) (env : Env) (db : Directory) (r : RegisterDeviceResult)
      (db' : Directory)
      → count_rows (has_code prefix) db.device_pairing_codes ≤ 1
      → pair_device texts generated arg env db ≡ (ok r, db')
      → IsSpent prefix db'
  pair_device-IsSpent generated env db r db' one h =
      let (token, drawn, u, ran, left) = returned_tx generated env db r db' h in
      let normal = normalized_pairing texts arg in
      subst (IsSpent prefix) left (
        after_read texts normal prefix token env db r u ran (λ c t same there rest.
          pair_with_code-IsSpent prefix env t c
            (subst (λ d. count_rows (has_code prefix) d.device_pairing_codes ≤ 1) (sym same) one)
            (subst (λ d. find_row (is_offered prefix env.now d) d.device_pairing_codes ≡ some c)
              (sym same) there)
            normal token r u rest))

  spent-pairs_never :
      (generated : Option String) (env : Env) (db : Directory)
      → IsSpent prefix db
      → is_ok (pair_device texts generated arg env db).0 ≡ false
  spent-pairs_never generated env db spent = refused (pair_device texts generated arg env db) refl
    where
      refused :
          (r : Outcome Error RegisterDeviceResult × Directory)
          → pair_device texts generated arg env db ≡ r
          → is_ok r.0 ≡ false
      refused (err e, db') h = refl
      refused (ok r, db') h =
          let (token, drawn, u, ran, left) = returned_tx generated env db r db' h in
          after_read texts (normalized_pairing texts arg) prefix token env db r u ran
            (λ c t same there rest.
              let passes =
                find_row-test (is_offered prefix env.now db) db.device_pairing_codes c there in
              let live =
                has_row-found (is_offered prefix env.now db)
                  (λ c. has_code prefix c && is_unconsumed c) db.device_pairing_codes c there
                  (ground arith) in
              let dead = spent.1 in cc)

-- Once PairDevice returned for a code, whatever calls follow, it returns for no spelling of that code
-- again. The code is normalized, and its prefix is that of one row, which a UNIQUE constraint demands.
pub paired_code-pairs_once :
    (texts : Texts) (generated : Option String) (arg : PairDeviceParams) (prefix : String)
    (env : Env) (db : Directory) (r : RegisterDeviceResult) (db' : Directory)
    → code_prefix texts arg ≡ ok prefix
    → count_rows (has_code prefix) db.device_pairing_codes ≤ 1
    → pair_device texts generated arg env db ≡ (ok r, db')
    → (calls : List ((ℕ → Env) × Call)) (next : Option String) (again : PairDeviceParams)
      (later : Env)
    → normalize_pairing_code texts again.code ≡ normalize_pairing_code texts arg.code
    → is_ok (pair_device texts next again later (run texts calls db')).0 ≡ false
paired_code-pairs_once texts generated arg prefix env db r db' named one h calls next again later
      same =
    let spent = pair_device-IsSpent texts arg prefix named generated env db r db' one h in
    spent-pairs_never texts again prefix (ap (pairing_code_lookup_prefix texts) same ∙ named) next
      later (run texts calls db') ((run-Later texts calls db').codes prefix spent)
