-- ===== src/Operations/Commands/Cases.antt =====
-- To show a property of the rows after a command: it holds before, and after the command's work.
use seatd_v.Base.{arith, ◌≡◌, refl, sym, subst, inl, inr, Option}
use seatd_v.Store.{Database, Env, Tx, Outcome, ok, err, ◌>>◌, Action, issue, handle, after_handle}
use seatd_v.Operations.Errors.{Error, wrapped, setting_tenant, committing}
use seatd_v.Operations.Commands.{
  Caller, CommandMeta, Response, Reply, run_tenant_command, in_tenant_tx,
}
use seatd_v.Operations.Commands.Outcomes.{entered, in_transaction_returns, in_transaction_fails}
use seatd_v.Operations.Commands.Returns.{
  run_tenant_command_returns, run_tenant_command_fails, Executes,
}

module _ {T : Type 0} (env : Env) (caller : Caller) (meta : CommandMeta) (execute : Action Error T)
    (after : T → Action Error (Unit {0})) (encode : Option (T → Option Response)) (db : Database)
    (P : Database → Type 0) where
  pub after_command :
      P db
      → ((v : T) (full : Response) (db' : Database)
          → Executes env caller meta execute after encode db v full db'
          → P db')
      → P (run_tenant_command caller meta execute after encode env db).1
  after_command before executed =
      by_outcome (run_tenant_command caller meta execute after encode env db) refl
    where
      by_outcome :
          (r : Outcome Error (Reply T) × Database)
          → run_tenant_command caller meta execute after encode env db ≡ r
          → P r.1
      by_outcome (err e, db') h =
          elim (run_tenant_command_fails env caller meta execute after encode db e db' h) [
            | inl same ↦ subst P (sym same) before
            | inr (v, full, x) ↦ executed v full db' x
          ]
      by_outcome (ok (value, reply), db') h =
          elim (run_tenant_command_returns env caller meta execute after encode db value reply db'
            h) [
              | inl (_, _, same) ↦ subst P (sym same) before
              | inr (v, _, _, x) ↦ executed v reply.response db' x
            ]

module _ {A : Type 0} (env : Env) (body : Action Error A) (db : Database)
    (P : Database → Type 0) where
  abbrev tenant_body : Action Error A
  tenant_body = handle (wrapped setting_tenant) issue >> body

  pub after_tenant_tx :
      P db
      → ((t u : Tx) (a : A) → t.db ≡ db → body env t ≡ ok (a, u) → P u.db)
      → P (in_tenant_tx body env db).1
  unfolding in_tenant_tx
  after_tenant_tx before done = by_outcome (in_tenant_tx body env db) refl
    where
      committed :
          (a : A) (u : Tx) (db' : Database)
          → tenant_body env (entered {A = A} (λ _. committing) env db) ≡ ok (a, u)
          → db' ≡ u.db
          → P db'
      committed a u db' ran stored =
          after_handle (wrapped setting_tenant) issue (λ _. body) env
            (entered {A = A} (λ _. committing) env db) ran
            λ x t₁ h₁ k₁. subst P (sym stored) (done t₁ u a (ground arith) k₁)

      by_outcome : (r : Outcome Error A × Database) → in_tenant_tx body env db ≡ r → P r.1
      by_outcome (err e, db') h =
          elim (in_transaction_fails (λ _. committing) env db tenant_body h) [
            | inl same ↦ subst P (sym same) before
            | inr (a, u, ran, stored) ↦ committed a u db' ran stored
          ]
      by_outcome (ok a, db') h =
          let (u, ran, stored) = in_transaction_returns (λ _. committing) env db tenant_body h in
          committed a u db' ran stored
