-- ===== src/Identity/Keeps.antt =====
-- What the statements and transactions of internal/domain/identity keep of the rows when they return.
use seatd_v.Base.{
  ℕ, suc, ◌≡◌, refl, subst, sym, Bool, true, false, Option, none, some, Bool-cases, inl, inr,
  if◌then◌else◌,
}
use seatd_v.Store.{
  Env, TxOn, DbError, Outcome, ok, err, ◌>>=◌, ◌>>◌, pure, handle, issue, refuse_if, present,
  statement, select, after_action, new_id, map_error_inv, statement_returns, pure_inv,
}
use seatd_v.Identity.Schema.{Directory}
use seatd_v.Identity.Transaction.{
  Error, Action, database, in_tx, in_platform_db_tx, in_tenant_db_tx, map_constraint, ended, start,
}

abbrev pub Keeps : {A : Type 0} → (Directory → Type 0) → Action A → Type 0
Keeps {A = A} P m =
    (env : Env) (t : TxOn Directory) (a : A) (u : TxOn Directory)
    → m env t ≡ ok (a, u)
    → P t.db
    → P u.db

module _ (P : Directory → Type 0) where
  pub pure-Keeps : {A : Type 0} (a : A) → Keeps P (pure a)
  pure-Keeps a env t b u h p = subst (λ u. P u.db) (sym (pure_inv h).1) p

  pub bind-Keeps :
      {A B : Type 0} (m : Action A) (k : A → Action B)
      → Keeps P m
      → ((a : A) → Keeps P (k a))
      → Keeps P (m >>= k)
  bind-Keeps m k first rest env t b v h p =
      after_action m k env t h (λ a u e h'. rest a env u b v h' (first env t a u e p))

  pub query-Keeps :
      {A : Type 0} (f : Env → Directory → Outcome DbError (A × Directory))
      → ((env : Env) (db : Directory) (a : A) (db' : Directory)
          → f env db ≡ ok (a, db')
          → P db
          → P db')
      → Keeps P (handle database (statement f))
  query-Keeps f keeps env t a u h p =
      keeps env t.db a u.db
        (statement_returns f env t (map_error_inv database (statement f env t) h)) p

  pub insert-Keeps :
      {A : Type 0} (f : ℕ → Env → Directory → Outcome DbError (A × Directory))
      → ((id : ℕ) (env : Env) (db : Directory) (a : A) (db' : Directory)
          → f id env db ≡ ok (a, db')
          → P db
          → P db')
      → Keeps P (handle database (new_id >>= λ id. statement (f id)))
  insert-Keeps f keeps env t a u h p =
      let drawn : TxOn Directory = record t { drawn = suc t.drawn } in
      let id = env.ids t.drawn in
      keeps id env t.db a u.db
        (statement_returns (f id) env drawn (map_error_inv database (statement (f id) env drawn) h))
        p

  pub select-Keeps : {A : Type 0} (f : Directory → A) → Keeps P (handle database (select f))
  unfolding select
  select-Keeps f =
      query-Keeps (λ env db. ok (f db, db))
        (λ env db a db' h p. let same : db ≡ db' = cc in subst P same p)

  pub refuse_if-Keeps : (b : Bool) (e : Error) → Keeps P (refuse_if b e)
  refuse_if-Keeps true e env t a u h p = cc
  refuse_if-Keeps false e env t a u h p = pure-Keeps tt env t a u h p

  pub present-Keeps : {A : Type 0} (e : Error) (o : Option A) → Keeps P (present e o)
  present-Keeps e none env t a u h p = cc
  present-Keeps e (some x) env t a u h p = pure-Keeps x env t a u h p

  pub if-Keeps :
      {A : Type 0} (b : Bool) (m n : Action A)
      → Keeps P m
      → Keeps P n
      → Keeps P (if b then m else n)
  if-Keeps true m n p q env t a u h = p env t a u h
  if-Keeps false m n p q env t a u h = q env t a u h

  ended-kept :
      {A : Type 0} (env : Env) (db : Directory) (o : Outcome Error (A × TxOn Directory))
      → P db
      → ((a : A) (u : TxOn Directory) → o ≡ ok (a, u) → P u.db)
      → P (ended env db o).1
  ended-kept env db (err e) p kept = p
  ended-kept env db (ok (a, u)) p kept = elim (Bool-cases (env.faults u.sent)) [
    | inl e ↦ rw e (lost env.commit_applied)
    | inr e ↦ rw e (kept a u refl)
  ]
    where
      lost : (b : Bool) → P (if b then u.db else db)
      lost true = kept a u refl
      lost false = p

  issue-Keeps : Keeps P (handle database issue)
  issue-Keeps env t a u h p = elim (Bool-cases (env.faults t.sent)) [
    | inl e ↦ (let refused = rw e at h in cc)
    | inr e ↦
        let answered : ◌≡◌ {A = Outcome Error (Unit {0} × TxOn Directory)}
            (ok (tt, record t { sent = suc t.sent })) (ok (a, u)) =
          rw e at h in
        subst (λ u. P u.db) (sym (pure_inv answered).1) p
  ]

  -- Of the rows at BEGIN, whether the transaction returns or not
  pub in_tx-keeps :
      {A : Type 0} (body : Action A) (env : Env) (db : Directory)
      → Keeps P body
      → P db
      → P (in_tx body env db).1
  unfolding in_tx
  in_tx-keeps body env db keeps p =
      ended-kept env db ((handle database issue >> body) env (start db)) p (λ a u h.
        bind-Keeps (handle database issue) (λ _. body) issue-Keeps (λ _. keeps) env (start db) a u h
          p)

  pub in_platform_db_tx-keeps :
      {A : Type 0} (body : Action A) (env : Env) (db : Directory)
      → Keeps P body
      → P db
      → P (in_platform_db_tx body env db).1
  unfolding in_platform_db_tx
  in_platform_db_tx-keeps body env db keeps =
      in_tx-keeps (handle database issue >> body) env db
        (bind-Keeps (handle database issue) (λ _. body) issue-Keeps (λ _. keeps))

  pub in_tenant_db_tx-keeps :
      {A : Type 0} (body : Action A) (env : Env) (db : Directory)
      → Keeps P body
      → P db
      → P (in_tenant_db_tx body env db).1
  unfolding in_tenant_db_tx
  in_tenant_db_tx-keeps body env db keeps =
      in_tx-keeps (handle database issue >> body) env db
        (bind-Keeps (handle database issue) (λ _. body) issue-Keeps (λ _. keeps))

  pub map_constraint-keeps :
      {A : Type 0} (r : Outcome Error A × Directory) → P r.1 → P (map_constraint r).1
  map_constraint-keeps (ok a, db) p = p
  map_constraint-keeps (err e, db) p = p
