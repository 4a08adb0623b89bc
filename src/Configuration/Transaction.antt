-- ===== src/Configuration/Transaction.antt =====
-- Rows, errors and transactions of internal/domain/configuration/service.go and errors.go in the same
-- directory. Texts of errors are left out, and so is the failure of a rollback, which is joined to the
-- error of the transaction.
use seatd_v.Base.{
  ℕ, suc, ◌≡◌, refl, Bool, true, false, if◌then◌else◌, String, Option, List, Bool-cases, inl, inr,
}
use seatd_v.Store.{
  Env, Bytes, TxOn, ActionOn, DbError, no_rows, violation, duplicate, fault, Outcome, ok, err, ◌>>◌,
  issue, handle, QueryOn, after_lost_commit,
}
use seatd_v.Identity.Schema.{Directory}

pub record Floor : Type 0 where
  pub id : ℕ
  pub organisation_id : ℕ
  pub location_id : ℕ
  pub slug : String
  pub name : String
  pub sort_order : ℕ
  pub canvas : Bytes
  pub background_asset_ref : Option String
  pub is_active : Bool
  pub version : ℕ
  pub created_at : ℕ
  pub updated_at : ℕ

-- The floors, and the rows of internal/domain/identity that permissions are read from
pub record Layout : Type 0 where
  pub directory : Directory
  pub floors : List Floor

pub data Error : Type 0 where
  forbidden validation version_conflict : Error
  conflict : Error  -- ConflictError
  database : DbError → Error  -- fmt.Errorf("…: %w", err)

-- wrapWriteError, with mapConstraintError
abbrev pub wrap_write_error : DbError → Error
wrap_write_error duplicate = conflict
wrap_write_error no_rows = database no_rows
wrap_write_error violation = database violation
wrap_write_error fault = database fault

abbrev pub Action : Type 0 → Type 0
Action = ActionOn Layout Error

abbrev pub Query : Type 0 → Type 0
Query = QueryOn Layout

abbrev pub start : Layout → TxOn Layout
start db = record { db = db; sent = 0; drawn = 0 }

-- What stands after COMMIT: the rows that were written, or the rows before where the server did not
-- commit.
abbrev pub committed :
    {A : Type 0}
    → Env
    → Layout
    → A × TxOn Layout
    → Outcome DbError (Unit {0} × TxOn Layout)
    → Outcome Error A × Layout
committed env db (a, t) (err e) = (err (database e), after_lost_commit env db t.db)
committed env db (a, t) (ok v) = (ok a, t.db)

abbrev pub ended :
    {A : Type 0} → Env → Layout → Outcome Error (A × TxOn Layout) → Outcome Error A × Layout
ended env db (err e) = (err e, db)
ended env db (ok (a, t)) = committed env db (a, t) (issue env t)

unfoldable pub in_tenant_tx : {A : Type 0} → Action A → Env → Layout → Outcome Error A × Layout
in_tenant_tx body env db =
    ended env db ((handle database issue >> (handle database issue >> body)) env (start db))

-- The rows and the two statements before the body
abbrev pub begun : Layout → TxOn Layout
begun db = record { db = db; sent = 2; drawn = 0 }

-- An answer and rows stand: they are returned, or the rows are there and the answer to COMMIT is lost.
abbrev pub Stands : {A : Type 0} → (Outcome Error A × Layout → Type 0) → Env → A → Layout → Type 0
Stands P env a db = P (ok a, db) × (env.commit_applied ≡ true → P (err (database fault), db))

-- A transaction failed and left the rows, or its body returned on the rows at BEGIN and its rows stand.
module _ {A : Type 0} (P : Outcome Error A × Layout → Type 0) (env : Env) (db : Layout)
    (failed : (e : Error) → P (err e, db)) where
  ended-cases :
      (o : Outcome Error (A × TxOn Layout))
      → ((a : A) (u : TxOn Layout) → o ≡ ok (a, u) → Stands P env a u.db)
      → P (ended env db o)
  ended-cases (err e) returned = failed e
  ended-cases (ok (a, u)) returned = elim (Bool-cases (env.faults u.sent)) [
    | inl e ↦ rw e (lost env.commit_applied refl)
    | inr e ↦ rw e (returned a u refl).0
  ]
    where
      lost : (b : Bool) → env.commit_applied ≡ b → P (err (database fault), if b then u.db else db)
      lost true e = (returned a u refl).1 e
      lost false e = failed (database fault)

  issued_inv :
      (body : Action A) (t : TxOn Layout) {r : A × TxOn Layout}
      → (handle database issue >> body) env t ≡ ok r
      → body env (record t { sent = suc t.sent }) ≡ ok r
  issued_inv body t h = elim (Bool-cases (env.faults t.sent)) [
    | inl e ↦ (let absent = rw e at h in cc)
    | inr e ↦ rw e at h
  ]

  pub in_tenant_tx-cases :
      (body : Action A)
      → ((a : A) (u : TxOn Layout) → body env (begun db) ≡ ok (a, u) → Stands P env a u.db)
      → P (in_tenant_tx body env db)
  unfolding in_tenant_tx
  in_tenant_tx-cases body returned =
      let wrapped = handle database issue >> body in
      ended-cases ((handle database issue >> wrapped) env (start db)) (λ a u h. returned a u (
        issued_inv body (record { db = db; sent = 1; drawn = 0 })
          (issued_inv wrapped (start db) h)))
