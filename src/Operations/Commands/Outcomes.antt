-- ===== src/Operations/Commands/Outcomes.antt =====
-- What the transaction of a command has done, by its outcome.
use seatd_v.Base.{
  ◌≡◌, ◌≢◌, ◌⊎◌, inl, inr, true, none, some, ◌∷◌, ◌==◌, arith, find_row, Bool-cases, Option-cases,
}
use seatd_v.Store.{Bytes, Database, Env, Tx, Outcome, ok, err, Action, pure, after_handle, pure_inv}
use seatd_v.Operations.Errors.{Error, Context, wrapped, recording_idempotency}
use seatd_v.Operations.Commands.{
  Caller, CommandMeta, Response, finish, in_transaction, record_response, record_of, is_command,
  is_recordable, insert_idempotency_record, or_object,
}

module _ {A : Type 0} (context : A → Context) (env : Env) (db : Database) where
  finish_returns :
      (r : Outcome Error (A × Tx)) {a : A} {db' : Database}
      → finish context env db r ≡ (ok a, db')
      → (u : Tx) × (r ≡ ok (a, u)) × (db' ≡ u.db)
  finish_returns (err e) h = absurd (ground arith)
  finish_returns (ok (b, u)) h = (u, ground arith, ground arith)

  finish_fails :
      (r : Outcome Error (A × Tx)) {e : Error} {db' : Database}
      → finish context env db r ≡ (err e, db')
      → (db' ≡ db) ⊎ ((a : A) × (u : Tx) × (r ≡ ok (a, u)) × (db' ≡ u.db))
  finish_fails (err e) h = inl (ground arith)
  finish_fails (ok (b, u)) h = elim (Bool-cases env.commit_applied) [
    | inl applied ↦ inr (b, u, λ i. ok (b, u), ground arith)
    | inr lost ↦ inl (ground arith)
  ]

  -- The state in which the statements of a transaction start.
  abbrev pub entered : Tx
  entered = record { db = db; sent = 1; drawn = 0 }

  pub in_transaction_returns :
      (body : Action Error A) {a : A} {db' : Database}
      → in_transaction context body env db ≡ (ok a, db')
      → (u : Tx) × (body env entered ≡ ok (a, u)) × (db' ≡ u.db)
  unfolding in_transaction
  in_transaction_returns body h = finish_returns (body env entered) (ground arith)

  -- An error leaves the rows, or it is that of a COMMIT, of what the body wrote.
  pub in_transaction_fails :
      (body : Action Error A) {e : Error} {db' : Database}
      → in_transaction context body env db ≡ (err e, db')
      → (db' ≡ db) ⊎ ((a : A) × (u : Tx) × (body env entered ≡ ok (a, u)) × (db' ≡ u.db))
  unfolding in_transaction
  in_transaction_fails body {e = e} {db' = db'} h = elim (Bool-cases (env.faults 0)) [
    | inl down ↦ inl (ground arith)
    | inr up ↦ finish_fails (body env entered) {e = e} {db' = db'} (rw up at h)
  ]

module _ (env : Env) (caller : Caller) (meta : CommandMeta) where
  -- The response is recorded under the command's id.
  pub record IsRecorded (db : Database) (full : Response) (db' : Database) : Type 0 where
    pub body : Bytes
    pub as_object : env.to_jsonb full.body ≡ some body
    pub new : find_row (is_command caller.organisation_id meta.id) db.idempotency ≡ none
    pub recordable : is_recordable meta full ≡ true
    pub stored :
        db' ≡ record db { idempotency = record_of caller meta full body env.now ∷ db.idempotency }

  insert_at :
      (t u : Tx) (full : Response) (body : Bytes) {x : Unit {0}}
      → env.to_jsonb full.body ≡ some body
      → insert_idempotency_record caller meta full env t ≡ ok (x, u)
      → IsRecorded t.db full u.db
  unfolding insert_idempotency_record
  insert_at t u full body e h = record {
    body = body;
    as_object = e;
    new = ground arith;
    recordable = ground arith;
    stored = ground arith;
  }

  insert_encodes :
      (t u : Tx) (full : Response) {x : Unit {0}}
      → insert_idempotency_record caller meta full env t ≡ ok (x, u)
      → env.to_jsonb full.body ≢ none
  unfolding insert_idempotency_record
  insert_encodes t u full h e = ground arith

  pub insert_idempotency_record_returns :
      (t u : Tx) (full : Response) {x : Unit {0}}
      → insert_idempotency_record caller meta full env t ≡ ok (x, u)
      → IsRecorded t.db full u.db
  insert_idempotency_record_returns t u full h = elim (Option-cases (env.to_jsonb full.body)) [
    | inl e ↦ absurd (insert_encodes t u full h e)
    | inr (body, e) ↦ insert_at t u full body e h
  ]

  -- Without an id nothing is recorded.
  abbrev pub Recorded : Response → Database → Response → Database → Type 0
  Recorded response db full db' =
      ((meta.id ≡ 0) × (full ≡ response) × (db' ≡ db))
      ⊎ ((meta.id ≢ 0)
          × (full ≡ record response { body = or_object response.body })
          × IsRecorded db full db')

  pub record_response_returns :
      (t u : Tx) (response full : Response)
      → record_response caller meta response env t ≡ ok (full, u)
      → Recorded response t.db full u.db
  unfolding record_response
  record_response_returns t u response full h = elim (Bool-cases (meta.id == 0)) [
    | inl nil ↦ inl (ground arith, ground arith, ground arith)
    | inr id ↦
        let whole : Response = record response { body = or_object response.body } in
        after_handle (wrapped recording_idempotency) (insert_idempotency_record caller meta whole)
          (λ _. pure whole) env t (rw id at h)
          λ x t' h' k.
            let (e, e') = pure_inv k in
            inr (ground arith, e, rw e (rw e' (insert_idempotency_record_returns t t' whole h')))
  ]
