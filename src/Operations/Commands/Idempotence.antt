-- ===== src/Operations/Commands/Idempotence.antt =====
-- runTenantCommand on a command whose id has been used.
use seatd_v.Base.{
  ℕ, ◌≡◌, sym, ◌∙◌, ◌≢◌, inl, inr, true, false, Option, none, some, arith, find_row, str_eq,
  eq_refl, ==_refl, ◌&&◌,
}
use seatd_v.Store.{
  bytes_equal, bytes_equal_refl, Bytes, Database, IdempotencyRow, Env, ok, err, Action,
}
use seatd_v.Operations.Errors.{Error, idempotency_conflict}
use seatd_v.Operations.Commands.{
  Caller, CommandMeta, Response, CommandReplay, run_tenant_command, is_command, same_command,
  replay_of, rolled_back, get_idempotency_replay, record_of,
}
use seatd_v.Operations.Commands.Returns.{run_tenant_command_returns, Executes}

module _ {T : Type 0} (env : Env) (caller : Caller) (meta : CommandMeta) (execute : Action Error T)
    (after : T → Action Error (Unit {0})) (encode : Option (T → Option Response))
    (db : Database) where
  -- While the connection holds, a record answers for its command.
  replays :
      (r : IdempotencyRow)
      → ((k : ℕ) → env.faults k ≡ false)
      → meta.id ≢ 0
      → find_row (is_command caller.organisation_id meta.id) db.idempotency ≡ some r
      → same_command meta r ≡ true
      → run_tenant_command caller meta execute after encode env db ≡ (ok (none, replay_of r), db)
  unfolding run_tenant_command get_idempotency_replay
  replays r holds id found same = ground (arith, holds 0, holds 1, holds 2, holds 3)

  conflicts :
      (r : IdempotencyRow)
      → ((k : ℕ) → env.faults k ≡ false)
      → meta.id ≢ 0
      → find_row (is_command caller.organisation_id meta.id) db.idempotency ≡ some r
      → same_command meta r ≡ false
      → run_tenant_command caller meta execute after encode env db
        ≡ (err (rolled_back env idempotency_conflict), db)
  unfolding run_tenant_command get_idempotency_replay
  conflicts r holds id found same = ground (arith, holds 0, holds 1, holds 2, holds 3)

-- The row that an executed command has left.
module _ {T : Type 0} (env : Env) (caller : Caller) (meta : CommandMeta) (execute : Action Error T)
    (after : T → Action Error (Unit {0})) (encode : Option (T → Option Response))
    (db : Database) where
  abbrev row_of : Response → Bytes → IdempotencyRow
  row_of full body = record_of caller meta full body env.now

  row-is_command :
      (full : Response) (body : Bytes)
      → is_command caller.organisation_id meta.id (row_of full body) ≡ true
  row-is_command full body = ground (arith, ==_refl caller.organisation_id, ==_refl meta.id)

  row-same_command : (full : Response) (body : Bytes) → same_command meta (row_of full body) ≡ true
  row-same_command full body = rw (eq_refl, bytes_equal_refl)

  recorded_row :
      (v : T) (full : Response) (db' : Database)
      → Executes env caller meta execute after encode db v full db'
      → meta.id ≢ 0
      → (body : Bytes) × (env.to_jsonb full.body ≡ some body)
        × (find_row (is_command caller.organisation_id meta.id) db'.idempotency
            ≡ some (row_of full body))
  unfolding find_row
  recorded_row v full db' x id = elim x.recorded [
    | inl (nil, _, _) ↦ absurd (id nil)
    | inr (_, _, r) ↦ (r.body, r.as_object, rw (r.stored, row-is_command full r.body))
  ]

  executed :
      (v : T) (reply : CommandReplay) (db' : Database)
      → run_tenant_command caller meta execute after encode env db ≡ (ok (some v, reply), db')
      → Executes env caller meta execute after encode db v reply.response db'
  executed v reply db' h =
      elim (run_tenant_command_returns env caller meta execute after encode db (some v) reply db'
        h) [ inl (e, _, _) ↦ cc | inr (w, e, _, x) ↦ ground arith ]

  -- After a command with an id has executed, the same command from the same organisation, sent again
  -- while the connection holds, returns the recorded status and the recorded body as jsonb keeps it,
  -- and changes nothing, whatever work the second call would do.
  pub run_tenant_command-replay :
      (v : T) (reply : CommandReplay) (db' : Database)
      → run_tenant_command caller meta execute after encode env db ≡ (ok (some v, reply), db')
      → meta.id ≢ 0
      → (env' : Env) (execute' : Action Error T) (after' : T → Action Error (Unit {0}))
        (encode' : Option (T → Option Response))
      → ((k : ℕ) → env'.faults k ≡ false)
      → (body : Bytes) × (env.to_jsonb reply.response.body ≡ some body)
        × (run_tenant_command caller meta execute' after' encode' env' db' ≡ (
          ok (
            none,
            record {
              replayed = true;
              response = record { status = reply.response.status; body = body };
            },
          ),
          db',
        ))
  run_tenant_command-replay v reply db' h id env' execute' after' encode' holds =
      let (body, e, found) = recorded_row v reply.response db' (executed v reply db' h) id in
      (
        body,
        e,
        replays env' caller meta execute' after' encode' db' (row_of reply.response body) holds id
            found (row-same_command reply.response body),
      )

  -- After a command with an id has executed, a command of the same organisation under that id whose
  -- type or payload hash differs is refused as an idempotency conflict, and nothing changes.
  pub run_tenant_command-conflict :
      (v : T) (reply : CommandReplay) (db' : Database)
      → run_tenant_command caller meta execute after encode env db ≡ (ok (some v, reply), db')
      → meta.id ≢ 0
      → (env' : Env) (meta' : CommandMeta) (execute' : Action Error T)
        (after' : T → Action Error (Unit {0})) (encode' : Option (T → Option Response))
      → ((k : ℕ) → env'.faults k ≡ false)
      → meta'.id ≡ meta.id
      → (str_eq meta.kind meta'.kind && bytes_equal meta.payload_hash meta'.payload_hash) ≡ false
      → run_tenant_command caller meta' execute' after' encode' env' db'
        ≡ (err (rolled_back env' idempotency_conflict), db')
  run_tenant_command-conflict v reply db' h id env' meta' execute' after' encode' holds same
        differs =
      let (body, e, found) = recorded_row v reply.response db' (executed v reply db' h) id in
      conflicts env' caller meta' execute' after' encode' db' (row_of reply.response body) holds
        (λ z. id (sym same ∙ z)) (rw same found) differs
