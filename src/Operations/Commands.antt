-- ===== src/Operations/Commands.antt =====
-- `runTenantCommand` of internal/domain/operations/service.go: one transaction that replays a command
-- which was recorded before, or executes it, writes its event and records its response. The command
-- sees the rows that are committed. An error before COMMIT leaves them as they were, since pgx rolls
-- back; a COMMIT whose round trip fails returns an error, and the server has applied it or not.
pub mod Outcomes
pub mod Returns
pub mod Cases
pub mod Idempotence
use seatd_v.Base.{
  ℕ, ◌+◌, ◌*◌, ◌/◌, Bool, true, false, not, ◌&&◌, String, Option, none, some, [], ◌∷◌,
  if◌then◌else◌, ltb, leb, ◌==◌, str_eq, is_empty, length, find_row, has_row,
}
use seatd_v.Store.{
  bytes_equal, Bytes, Database, IdempotencyRow, Env, Tx, Outcome, ok, err, Action, Query, ◌>>=◌,
  ◌>>◌, pure, throw, rows, environment, write, issue, check, handle, after_lost_commit,
}
use seatd_v.Operations.Errors.{
  Error, Context, joined, wrapped, idempotency_conflict, beginning, setting_tenant, committing,
  committing_replay, getting_idempotency, recording_idempotency, encoding_response,
}
use seatd_v.Operations.Events.{encoded, as_jsonb}

-- The id is `uuid.Nil`, 0, for a call that is no command. A retention is in nanoseconds, 0 for none.
pub record CommandMeta : Type 0 where
  pub id : ℕ
  pub kind : String  -- Type
  pub payload_hash : Bytes
  pub device_id : Option ℕ
  pub retention : ℕ

pub record Response : Type 0 where
  pub status : ℕ
  pub body : Bytes

pub record CommandReplay : Type 0 where
  pub replayed : Bool
  pub response : Response

-- The tenant and the actor on whose behalf a command runs.
pub record Caller : Type 0 where
  pub organisation_id : ℕ
  pub location_id : ℕ
  pub actor_ref : String

abbrev pub is_command : ℕ → ℕ → IdempotencyRow → Bool
is_command organisation id r = r.organisation_id == organisation && r.command_id == id

abbrev pub same_command : CommandMeta → IdempotencyRow → Bool
same_command meta r =
    str_eq r.command_type meta.kind && bytes_equal r.payload_hash meta.payload_hash

abbrev pub replay_of : IdempotencyRow → CommandReplay
replay_of r = record {
  replayed = true;
  response = record { status = r.response_status; body = r.response_body };
}

-- `none` is the Go function's `found = false`.
abbrev pub check_replay : CommandMeta → Option IdempotencyRow → Action Error (Option CommandReplay)
check_replay meta none = pure none
check_replay meta (some r) =
    if same_command meta r then pure (some (replay_of r)) else throw idempotency_conflict

abbrev pub select_idempotency : ℕ → ℕ → Query (Option IdempotencyRow)
select_idempotency organisation id = do
  issue
  db ← rows
  pure (find_row (is_command organisation id) db.idempotency)

unfoldable pub get_idempotency_replay : ℕ → CommandMeta → Action Error (Option CommandReplay)
get_idempotency_replay organisation meta = do
  row ← handle (wrapped getting_idempotency) (select_idempotency organisation meta.id)
  check_replay meta row

-- DefaultIdempotencyRetention, 30 days
abbrev pub default_retention : ℕ
default_retention = 30 * 24 * 3600 * 1000000000

abbrev pub retention_of : CommandMeta → ℕ
retention_of meta = if meta.retention == 0 then default_retention else meta.retention

abbrev pub record_of : Caller → CommandMeta → Response → Bytes → ℕ → IdempotencyRow
record_of caller meta response body now = record {
  command_id = meta.id;
  organisation_id = caller.organisation_id;
  location_id = caller.location_id;
  command_type = meta.kind;
  payload_hash = meta.payload_hash;
  response_status = response.status;
  response_body = body;
  created_at = now;
  expires_at = now + retention_of meta / 1000000000 * 1000000;
}

-- The CHECK constraints of `api_idempotency_records`; the last is expires_at > created_at.
abbrev pub is_recordable : CommandMeta → Response → Bool
is_recordable meta response =
    not (is_empty meta.kind)
    && leb 32 (length meta.payload_hash)
    && leb 100 response.status
    && leb response.status 599
    && ltb 0 (retention_of meta / 1000000000)

unfoldable pub insert_idempotency_record : Caller → CommandMeta → Response → Query (Unit {0})
insert_idempotency_record caller meta response = do
  issue
  db ← rows
  env ← environment
  check (not (has_row (is_command caller.organisation_id meta.id) db.idempotency))
  check (is_recordable meta response)
  body ← as_jsonb response.body
  write (record db { idempotency = record_of caller meta response body env.now ∷ db.idempotency })

-- `{}`
abbrev pub empty_object : Bytes
empty_object = b'{' ∷ b'}' ∷ []

abbrev pub or_object : Bytes → Bytes
or_object [] = empty_object
or_object (b ∷ bs) = b ∷ bs

-- `if meta.ID != uuid.Nil { … }` after the command's own work.
unfoldable pub record_response : Caller → CommandMeta → Response → Action Error Response
record_response caller meta response = if meta.id == 0 then pure response else do
  let full : Response = record response { body = or_object response.body }
  handle (wrapped recording_idempotency) (insert_idempotency_record caller meta full)
  pure full

-- A value that only a command has that was executed: Go returns the zero value beside a replay.
abbrev pub Reply : Type 0 → Type 0
Reply T = Option T × CommandReplay

abbrev pub find_replay : Caller → CommandMeta → Action Error (Option CommandReplay)
find_replay caller meta =
    if meta.id == 0 then pure none else get_idempotency_replay caller.organisation_id meta

-- fmt.Errorf("committing …: %w", err)
abbrev pub commit_context : {T : Type 0} → Reply T → Context
commit_context r = if r.1.replayed then committing_replay else committing

-- rollback: the error, joined with that of the rollback.
abbrev pub rolled_back : Env → Error → Error
rolled_back env e = if env.rollback_fails then joined e else e

-- The statements between BEGIN and COMMIT; an error among them is rolled back.
module _ {A : Type 0} (context : A → Context) (env : Env) (db : Database) where
  abbrev pub committed : A × Tx → Outcome Error A × Database
  committed (a, t) = elim (handle (wrapped (context a)) issue env t) [
    | err e ↦ (err e, after_lost_commit env db t.db)
    | ok (_, t') ↦ (ok a, t'.db)
  ]

  abbrev pub finish : Outcome Error (A × Tx) → Outcome Error A × Database
  finish (err e) = (err (rolled_back env e), db)
  finish (ok r) = committed r

  abbrev pub begun : Action Error A → Outcome Error (Unit {0} × Tx) → Outcome Error A × Database
  begun body (err e) = (err e, db)
  begun body (ok (_, t)) = finish (body env t)

abbrev pub start : Database → Tx
start db = record { db = db; sent = 0; drawn = 0 }

unfoldable pub in_transaction :
    {A : Type 0} → (A → Context) → Action Error A → Env → Database → Outcome Error A × Database
in_transaction context body env db =
    begun context env db body (handle (wrapped beginning) issue env (start db))

-- inTenantTx
unfoldable pub in_tenant_tx :
    {A : Type 0} → Action Error A → Env → Database → Outcome Error A × Database
unfolding in_transaction
in_tenant_tx body env db =
    in_transaction (λ _. committing) (handle (wrapped setting_tenant) issue >> body) env db

-- `var status int32 = 200; var body []byte; if encode != nil { … }`
abbrev pub encode_response : {T : Type 0} → Option (T → Option Response) → T → Action Error Response
encode_response none value = pure (record { status = 200; body = [] })
encode_response (some f) value = encoded (f value) encoding_response

module _ {T : Type 0} (caller : Caller) (meta : CommandMeta) (execute : Action Error T)
    (after : T → Action Error (Unit {0})) (encode : Option (T → Option Response)) where
  unfoldable pub execute_command : Action Error (Reply T)
  execute_command = do
    value ← execute
    after value
    response ← encode_response encode value
    full ← record_response caller meta response
    pure (some value, record { replayed = false; response = full })

  abbrev pub replay_or_execute : Option CommandReplay → Action Error (Reply T)
  replay_or_execute none = execute_command
  replay_or_execute (some r) = pure (none, r)

  unfoldable pub tenant_command : Action Error (Reply T)
  unfolding execute_command
  tenant_command = do
    handle (wrapped setting_tenant) issue
    found ← find_replay caller meta
    replay_or_execute found

  unfoldable pub run_tenant_command : Env → Database → Outcome Error (Reply T) × Database
  unfolding tenant_command in_transaction
  run_tenant_command env db = in_transaction commit_context tenant_command env db
