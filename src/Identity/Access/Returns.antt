-- ===== src/Identity/Access/Returns.antt =====
-- What a transaction of internal/domain/identity/service.go that returned a value did: its body ran on the
-- rows at BEGIN, and what it left was committed.
use seatd_v.Base.{suc, ◌≡◌, refl, Bool, true, false, Option, none, some, Bool-cases, inl, inr}
use seatd_v.Store.{Env, TxOn, Outcome, ok, err, ◌>>◌, handle, issue}
use seatd_v.Identity.Schema.{Directory}
use seatd_v.Identity.Transaction.{
  Error, Action, database, in_tx, in_tenant_db_tx, in_platform_db_tx, ended, start, unless_refused,
}
use seatd_v.Identity.Secrets.{Token}
use seatd_v.Identity.Devices.Registration.{with_token}
use seatd_v.Identity.Devices.Pairing.{require_match}

pub unless_refused_inv :
    {A : Type 0} (o : Option Error) (body : Directory → Outcome Error A × Directory)
    (db : Directory) {a : A} {db' : Directory}
    → unless_refused o body db ≡ (ok a, db')
    → body db ≡ (ok a, db')
unless_refused_inv none body db h = h
unless_refused_inv (some e) body db h = cc

pub with_token_inv :
    {A : Type 0} (body : Token → Directory → Outcome Error A × Directory) (o : Outcome Error Token)
    (db : Directory) {a : A} {db' : Directory}
    → with_token body o db ≡ (ok a, db')
    → (token : Token) × (o ≡ ok token) × (body token db ≡ (ok a, db'))
with_token_inv body (err e) db h = cc
with_token_inv body (ok token) db h = (token, refl, h)

-- The rows and the two statements before the body
abbrev pub begun : Directory → TxOn Directory
begun db = record { db = db; sent = 2; drawn = 0 }

module _ {A : Type 0} (body : Action A) (env : Env) (db : Directory) where
  ended_inv :
      (o : Outcome Error (A × TxOn Directory)) {a : A} {db' : Directory}
      → ended env db o ≡ (ok a, db')
      → (u : TxOn Directory) × (o ≡ ok (a, u)) × (u.db ≡ db')
  ended_inv (err e) h = cc
  ended_inv (ok (b, u)) {a = a} h = elim (Bool-cases (env.faults u.sent)) [
    | inl e ↦ let failed : ◌≡◌ {A = Outcome Error A × Directory} _ _ = rw e at h in cc
    | inr e ↦ let passed : ◌≡◌ {A = Outcome Error A × Directory} _ _ = rw e at h in (u, cc, cc)
  ]

  issued_inv :
      (t : TxOn Directory) {r : A × TxOn Directory}
      → (handle database issue >> body) env t ≡ ok r
      → body env (record t { sent = suc t.sent }) ≡ ok r
  issued_inv t h = elim (Bool-cases (env.faults t.sent)) [
    | inl e ↦ (let failed = rw e at h in cc)
    | inr e ↦ rw e at h
  ]

module _ {A : Type 0} (body : Action A) (env : Env) (db : Directory) {a : A} {db' : Directory} where
  in_tx_inv :
      in_tx (handle database issue >> body) env db ≡ (ok a, db')
      → (u : TxOn Directory) × (body env (begun db) ≡ ok (a, u)) × (u.db ≡ db')
  unfolding in_tx
  in_tx_inv h =
      let wrapped = handle database issue >> body in
      let (u, ran, left) =
        ended_inv wrapped env db ((handle database issue >> wrapped) env (start db)) h in
      let inner = issued_inv wrapped env db (start db) ran in
      (u, issued_inv body env db (record { db = db; sent = 1; drawn = 0 }) inner, left)

  pub platform_inv :
      in_platform_db_tx body env db ≡ (ok a, db')
      → (u : TxOn Directory) × (body env (begun db) ≡ ok (a, u)) × (u.db ≡ db')
  unfolding in_platform_db_tx
  platform_inv h = in_tx_inv h

  pub tenant_inv :
      in_tenant_db_tx body env db ≡ (ok a, db')
      → (u : TxOn Directory) × (body env (begun db) ≡ ok (a, u)) × (u.db ≡ db')
  unfolding in_tenant_db_tx
  tenant_inv h = in_tx_inv h

pub require_match-same :
    (o : Outcome Error Bool) (env : Env) (t u : TxOn Directory)
    → require_match o env t ≡ ok (tt, u)
    → u.db ≡ t.db
require_match-same (err e) env t u h = cc
require_match-same (ok true) env t u h = cc
require_match-same (ok false) env t u h = cc
