-- ===== src/Identity/Transaction.antt =====
-- Errors and transactions of internal/domain/identity/service.go. The texts of errors are left out, and
-- so is the failure of a rollback, which is joined to the error of the transaction.
use seatd_v.Base.{Bool, Option, none, some, if◌then◌else◌}
use seatd_v.Store.{
  Env, TxOn, ActionOn, DbError, duplicate, Outcome, ok, err, ◌>>◌, issue, handle, after_lost_commit,
}
use seatd_v.Identity.Schema.{Directory}

pub data Error : Type 0 where
  not_found unauthorized forbidden already_exists already_revoked validation : Error
  invalid_secret : Error
  no_randomness : Error  -- of rand.Read
  database : DbError → Error  -- fmt.Errorf("…: %w", err)

abbrev pub Action : Type 0 → Type 0
Action = ActionOn Directory Error

-- mapIdentityConstraintError, of an error
abbrev pub map_identity_constraint_error : Error → Error
map_identity_constraint_error (database duplicate) = already_exists
map_identity_constraint_error e = e

abbrev pub map_constraint : {A : Type 0} → Outcome Error A × Directory → Outcome Error A × Directory
map_constraint (ok a, db) = (ok a, db)
map_constraint (err e, db) = (err (map_identity_constraint_error e), db)

-- `if refused { return err }`, the first that applies
abbrev pub refusal : Bool → Error → Option Error → Option Error
refusal b e next = if b then some e else next

abbrev pub unless_refused :
    {A : Type 0}
    → Option Error
    → (Directory → Outcome Error A × Directory)
    → Directory
    → Outcome Error A × Directory
unless_refused none body db = body db
unless_refused (some e) body db = (err e, db)

abbrev pub start : Directory → TxOn Directory
start db = record { db = db; sent = 0; drawn = 0 }

-- What stands after COMMIT: the rows that were written, or the rows before where the server did not
-- commit.
abbrev pub committed :
    {A : Type 0}
    → Env
    → Directory
    → A × TxOn Directory
    → Outcome DbError (Unit {0} × TxOn Directory)
    → Outcome Error A × Directory
committed env db (a, t) (err e) = (err (database e), after_lost_commit env db t.db)
committed env db (a, t) (ok v) = (ok a, t.db)

abbrev pub ended :
    {A : Type 0}
    → Env
    → Directory
    → Outcome Error (A × TxOn Directory)
    → Outcome Error A × Directory
ended env db (err e) = (err e, db)
ended env db (ok (a, t)) = committed env db (a, t) (issue env t)

unfoldable pub in_tx : {A : Type 0} → Action A → Env → Directory → Outcome Error A × Directory
in_tx body env db = ended env db ((handle database issue >> body) env (start db))

-- The context that the policies of the rows read; every statement names its tenant besides.
unfoldable pub in_platform_db_tx :
    {A : Type 0} → Action A → Env → Directory → Outcome Error A × Directory
unfolding in_tx
in_platform_db_tx body = in_tx (handle database issue >> body)

unfoldable pub in_tenant_db_tx :
    {A : Type 0} → Action A → Env → Directory → Outcome Error A × Directory
unfolding in_tx
in_tenant_db_tx body = in_tx (handle database issue >> body)
