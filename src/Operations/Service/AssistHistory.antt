-- ===== src/Operations/Service/AssistHistory.antt =====
-- What any calls of the service can do to an assist request.
use seatd_v.Base.{
  ℕ, ◌+◌, ◌≡◌, ◌≤◌, refl, ap, sym, subst, ◌⊎◌, inl, inr, true, Option, some, String, List, [], ◌∷◌,
  arith, Bool-cases, find_key, find_key-cons,
}
use seatd_v.Store.{
  Database, AssistRequest, AssistStatus, pending, acknowledged, resolved, cancelled, Env,
  after_action, pure_inv,
}
use seatd_v.Operations.Events.{write_operational_event}
use seatd_v.Operations.Events.Effects.{write_operational_event_returns}
use seatd_v.Operations.Commands.{CommandMeta}
use seatd_v.Operations.Commands.Cases.{after_command, after_tenant_tx}
use seatd_v.Operations.Tables.{
  OccupyTableParams, ClearTableParams, TableResult, occupy_table_in_tx, clear_table_in_tx,
  nullable_text,
}
use seatd_v.Operations.Tables.Returns.{occupy_table_in_tx_returns, clear_table_in_tx_returns}
use seatd_v.Operations.Tables.Consistency.{updated}
use seatd_v.Operations.Assists.{
  ChangeAssistParams, RequestAssistParams, change_assist_in_tx, request_assist_in_tx,
}
use seatd_v.Operations.Assists.Graph.{
  ◌⟶◌, ◌⟶*◌, here, follow, acknowledge, resolve_pending, resolve_acknowledged, cancel_pending,
  cancel_acknowledged, IsTerminal, IsTerminal-⟶*,
}
use seatd_v.Operations.Assists.Requested.{Requests, request_assist_in_tx_returns}
use seatd_v.Operations.Assists.Returns.{
  Changes, allowed, is_changeable, changed_by_at, change_assist_in_tx_returns,
}
use seatd_v.Operations.Service.{
  Encoder, Call, occupies, clears, acknowledges, resolves, cancels, requests, caller_of,
  occupied_event, cleared_event, changed_event, requested_event, occupy_table_command,
  clear_table_command, change_assist_command, request_assist, step, run,
}
use seatd_v.Operations.Service.Frame.{Executes-SameState}

abbrev pub assist_at : Database → ℕ → Option AssistRequest
assist_at db k = find_key (λ a. a.id) k db.assists

-- One edge of its life, one version on, and what was asked stays.
pub record Moves (a b : AssistRequest) : Type 0 where
  pub edge : a.status ⟶ b.status
  pub next_version : b.version ≡ a.version + 1
  pub same_table : b.table_id ≡ a.table_id
  pub same_session : b.table_session_id ≡ a.table_session_id
  pub same_source : b.source ≡ a.source
  pub same_note : b.note ≡ a.note

-- The request is there after a call, as it was or moved on by one edge.
abbrev pub Survives : ℕ → AssistRequest → Database → Type 0
Survives k a db = (b : AssistRequest) × (assist_at db k ≡ some b) × ((b ≡ a) ⊎ Moves a b)

edge : (s t : AssistStatus) → allowed t s ≡ true → s ⟶ t
edge pending acknowledged h = acknowledge
edge pending resolved h = resolve_pending
edge acknowledged resolved h = resolve_acknowledged
edge pending cancelled h = cancel_pending
edge acknowledged cancelled h = cancel_acknowledged
edge _ _ h = absurd (ground arith)

changed_status :
    (next : AssistStatus) (by : Option String) (now : ℕ) (a : AssistRequest)
    → allowed next a.status ≡ true
    → Moves a (changed_by_at next by now a)
changed_status pending by now a h = cc
changed_status acknowledged by now a h = record {
  edge = edge a.status acknowledged h;
  next_version = refl;
  same_table = refl;
  same_session = refl;
  same_source = refl;
  same_note = refl;
}
changed_status resolved by now a h = record {
  edge = edge a.status resolved h;
  next_version = refl;
  same_table = refl;
  same_session = refl;
  same_source = refl;
  same_note = refl;
}
changed_status cancelled by now a h = record {
  edge = edge a.status cancelled h;
  next_version = refl;
  same_table = refl;
  same_session = refl;
  same_source = refl;
  same_note = refl;
}

changed_id :
    (next : AssistStatus) (by : Option String) (now : ℕ) (a : AssistRequest)
    → (changed_by_at next by now a).id ≡ a.id
changed_id pending by now a = refl
changed_id acknowledged by now a = refl
changed_id resolved by now a = refl
changed_id cancelled by now a = refl

module _ (k : ℕ) (a : AssistRequest) where
  Survives-same :
      (db db' : Database) → assist_at db k ≡ some a → db'.assists ≡ db.assists → Survives k a db'
  Survives-same db db' h e = (a, rw e h, inl refl)

  Changes-Survives :
      (env : Env) (db db' : Database) (r : AssistRequest) (next : AssistStatus)
      (arg : ChangeAssistParams)
      → assist_at db k ≡ some a
      → Changes env db r db' next arg
      → Survives k a db'
  Changes-Survives env db db' r next arg h c =
      let by = nullable_text arg.actor_ref in
      let moved =
        updated (λ a. a.id) (is_changeable next arg) (changed_by_at next by env.now) k db.assists a
          (changed_id next by env.now) h in
      elim (Bool-cases (is_changeable next arg a)) [
        | inl passes ↦ (
          changed_by_at next by env.now a,
          ground (arith, moved, ap (λ (d : Database). d.assists) c.stored),
          inr (changed_status next by env.now a (ground arith)),
        )
        | inr fails ↦
            (a, ground (arith, moved, ap (λ (d : Database). d.assists) c.stored), inl refl)
      ]

  Requests-Survives :
      (env : Env) (db db' : Database) (r : AssistRequest) (arg : RequestAssistParams)
      → assist_at db k ≡ some a
      → Requests env db r db' arg
      → Survives k a db'
  Requests-Survives env db db' r arg h q = (
    a,
    ground (
      arith,
      find_key-cons (λ a. a.id) k r db.assists,
      q.fresh,
      ap (λ (d : Database). d.assists) q.stored,
    ),
    inl refl,
  )

module _ (k : ℕ) (a : AssistRequest) (env : Env) (db : Database) (h : assist_at db k ≡ some a) where
  abbrev kept : Survives k a db
  kept = (a, h, inl refl)

  occupy_table_command-Survives :
      (arg : OccupyTableParams) (meta : CommandMeta) (encode : Encoder TableResult)
      → Survives k a (occupy_table_command arg meta encode env db).1
  unfolding occupy_table_command
  occupy_table_command-Survives arg meta encode =
      after_command env (caller_of arg.table arg.actor_ref) meta (occupy_table_in_tx arg)
        (λ r. write_operational_event (occupied_event arg meta r)) encode db (Survives k a) kept
        λ v full db' x.
          let same =
            Executes-SameState env (caller_of arg.table arg.actor_ref) meta (occupy_table_in_tx arg)
              (occupied_event arg meta) encode db v full db' x in
          let done = (occupy_table_in_tx_returns env x.before x.worked v arg x.executed).stored in
          Survives-same k a db db' h (ground (arith, same, done, x.unchanged))

  clear_table_command-Survives :
      (arg : ClearTableParams) (meta : CommandMeta) (encode : Encoder TableResult)
      → Survives k a (clear_table_command arg meta encode env db).1
  unfolding clear_table_command
  clear_table_command-Survives arg meta encode =
      after_command env (caller_of arg.table arg.actor_ref) meta (clear_table_in_tx arg)
        (λ r. write_operational_event (cleared_event arg meta r)) encode db (Survives k a) kept
        λ v full db' x.
          let same =
            Executes-SameState env (caller_of arg.table arg.actor_ref) meta (clear_table_in_tx arg)
              (cleared_event arg meta) encode db v full db' x in
          let done = (clear_table_in_tx_returns env x.before x.worked v arg x.executed).stored in
          Survives-same k a db db' h (ground (arith, same, done, x.unchanged))

  change_assist_command-Survives :
      (next : AssistStatus) (arg : ChangeAssistParams) (meta : CommandMeta)
      (encode : Encoder AssistRequest)
      → Survives k a (change_assist_command next arg meta encode env db).1
  unfolding change_assist_command
  change_assist_command-Survives next arg meta encode =
      after_command env (caller_of arg.assist arg.actor_ref) meta (change_assist_in_tx next arg)
        (λ r. write_operational_event (changed_event next arg meta r)) encode db (Survives k a) kept
        λ v full db' x.
          let same =
            Executes-SameState env (caller_of arg.assist arg.actor_ref) meta
              (change_assist_in_tx next arg) (changed_event next arg meta) encode db v full db' x in
          let done = (change_assist_in_tx_returns env x.before x.worked v next arg x.executed).0 in
          let (b, at, moved) =
            Changes-Survives k a env x.before.db x.worked.db v next arg
              (subst (λ d. assist_at d k ≡ some a) (sym x.unchanged) h) done in
          (b, rw same.assists at, moved)

  request_assist-Survives : (arg : RequestAssistParams) → Survives k a (request_assist arg env db).1
  unfolding request_assist
  request_assist-Survives arg = after_tenant_tx env _ db (Survives k a) kept λ t u r same ran.
      after_action (request_assist_in_tx arg) _ env t ran λ r t₁ h₁ k₁.
        after_action (write_operational_event (requested_event arg r)) _ env t₁ k₁ λ x t₂ h₂ k₂.
          let made = request_assist_in_tx_returns env t t₁ r arg h₁ in
          let told =
            (write_operational_event_returns env (requested_event arg r) t₁ t₂ h₂).stored in
          let last = (pure_inv k₂).1 in
          let (b, at, moved) =
            Requests-Survives k a env t.db t₁.db r arg
              (subst (λ d. assist_at d k ≡ some a) (sym same) h) made in
          let assists : u.db.assists ≡ t₁.db.assists = ground (arith, told, last) in
          (b, rw assists at, moved)

-- Whatever call is made, a request that was there is there, unchanged or moved on by one edge of its
-- life, at the next version.
pub step-Survives :
    (k : ℕ) (a : AssistRequest) (db : Database) (call : Env × Call)
    → assist_at db k ≡ some a
    → Survives k a (step db call)
unfolding step
step-Survives k a db (env, occupies arg meta encode) h =
    occupy_table_command-Survives k a env db h arg meta encode
step-Survives k a db (env, clears arg meta encode) h =
    clear_table_command-Survives k a env db h arg meta encode
step-Survives k a db (env, acknowledges arg meta encode) h =
    change_assist_command-Survives k a env db h acknowledged arg meta encode
step-Survives k a db (env, resolves arg meta encode) h =
    change_assist_command-Survives k a env db h resolved arg meta encode
step-Survives k a db (env, cancels arg meta encode) h =
    change_assist_command-Survives k a env db h cancelled arg meta encode
step-Survives k a db (env, requests arg) h = request_assist-Survives k a env db h arg

-- Through any sequence of calls, an assist request stays stored, its status follows a path of the
-- graph of statuses, its version never falls, and its table stays the same.
pub run-assist :
    (k : ℕ) (a : AssistRequest) (db : Database) (calls : List (Env × Call))
    → assist_at db k ≡ some a
    → (b : AssistRequest) × (assist_at (run db calls) k ≡ some b)
      × (a.status ⟶* b.status)
      × (a.version ≤ b.version)
      × (b.table_id ≡ a.table_id)
unfolding run
run-assist k a db [] h = (a, h, here, omega arith, refl)
run-assist k a db (call ∷ calls) h =
    let (b, at, moved) = step-Survives k a db call h in
    let (c, at', path, version, table) = run-assist k b (step db call) calls at in
    (c, at', from_move b c path moved, ground arith, ground arith)
  where
    from_move :
        (b c : AssistRequest) → b.status ⟶* c.status → (b ≡ a) ⊎ Moves a b → a.status ⟶* c.status
    from_move b c path (inl same) = subst (λ (b : AssistRequest). b.status ⟶* c.status) same path
    from_move b c path (inr m) = follow m.edge path

-- A request that was resolved or cancelled keeps that status through any sequence of calls.
pub run-assist_terminal :
    (k : ℕ) (a : AssistRequest) (db : Database) (calls : List (Env × Call))
    → assist_at db k ≡ some a
    → IsTerminal a.status
    → (b : AssistRequest) × (assist_at (run db calls) k ≡ some b) × (b.status ≡ a.status)
run-assist_terminal k a db calls h e =
    let (b, at, path, _, _) = run-assist k a db calls h in (b, at, IsTerminal-⟶* e path)
