-- ===== src/Operations/Service/Consistency.antt =====
-- The exported commands and the consistency of occupancies and sessions.
use seatd_v.Base.{ℕ, ◌≡◌, ap, sym, ◌∙◌, List, [], ◌∷◌, arith}
use seatd_v.Store.{
  Database, TableOccupancy, TableSession, AssistRequest, AssistStatus, acknowledged, resolved,
  cancelled, Env, after_action, pure_inv,
}
use seatd_v.Operations.Events.{write_operational_event}
use seatd_v.Operations.Events.Effects.{write_operational_event_returns}
use seatd_v.Operations.Commands.{CommandMeta}
use seatd_v.Operations.Commands.Cases.{after_command, after_tenant_tx}
use seatd_v.Operations.Tables.{
  OccupyTableParams, ClearTableParams, TableResult, occupy_table_in_tx, clear_table_in_tx,
}
use seatd_v.Operations.Tables.Returns.{occupy_table_in_tx_returns, clear_table_in_tx_returns}
use seatd_v.Operations.Tables.Consistency.{IsConsistent, Holds, occupancy_at, session_at}
use seatd_v.Operations.Tables.Occupying.{Occupies-IsConsistent}
use seatd_v.Operations.Tables.Clearing.{Clears-IsConsistent}
use seatd_v.Operations.Assists.{
  ChangeAssistParams, RequestAssistParams, change_assist_in_tx, request_assist_in_tx,
}
use seatd_v.Operations.Assists.Requested.{request_assist_in_tx_returns}
use seatd_v.Operations.Assists.Returns.{change_assist_in_tx_returns}
use seatd_v.Operations.Service.{
  Encoder, Call, occupies, clears, acknowledges, resolves, cancels, requests, caller_of,
  occupied_event, cleared_event, changed_event, requested_event, occupy_table_command,
  clear_table_command, change_assist_command, request_assist, step, run,
}
use seatd_v.Operations.Service.Frame.{Executes-SameState}

-- Consistency speaks of the occupancies and the sessions alone.
module _ (db db' : Database) (o : db'.occupancies ≡ db.occupancies) (s : db'.sessions ≡ db.sessions)
    (c : IsConsistent db) where
  same_occupancy : (k : ℕ) → occupancy_at db' k ≡ occupancy_at db k
  same_occupancy k = rw o

  same_session : (k : ℕ) → session_at db' k ≡ session_at db k
  same_session k = rw s

  Holds-same : (k : ℕ) (o : TableOccupancy) (s : TableSession) → Holds db k o s → Holds db' k o s
  Holds-same k o s h = record {
    named = h.named;
    stored = same_session s.id ∙ h.stored;
    of_table = h.of_table;
    is_open = h.is_open;
    same_organisation = h.same_organisation;
    same_location = h.same_location;
  }

  pub IsConsistent-same : IsConsistent db'
  IsConsistent-same = record {
    keyed_occupancies = rw o c.keyed_occupancies;
    keyed_sessions = rw s c.keyed_sessions;
    available_free = λ k x h. c.available_free k x (sym (same_occupancy k) ∙ h);
    occupied_held = λ k x h e.
        let (y, held) = c.occupied_held k x (sym (same_occupancy k) ∙ h) e in
        (y, Holds-same k x y held);
    open_named = λ k y h e.
        let (x, at, named) = c.open_named k y (sym (same_session k) ∙ h) e in
        (x, same_occupancy y.table_id ∙ at, named);
  }

module _ (env : Env) (db : Database) (c : IsConsistent db) where
  -- A completed occupy command keeps the rows consistent, and so does one that failed or replayed.
  occupy_table_command-IsConsistent :
      (arg : OccupyTableParams) (meta : CommandMeta) (encode : Encoder TableResult)
      → IsConsistent (occupy_table_command arg meta encode env db).1
  unfolding occupy_table_command
  occupy_table_command-IsConsistent arg meta encode =
      after_command env (caller_of arg.table arg.actor_ref) meta (occupy_table_in_tx arg)
        (λ r. write_operational_event (occupied_event arg meta r)) encode db IsConsistent c
        λ v full db' x.
          let same =
            Executes-SameState env (caller_of arg.table arg.actor_ref) meta (occupy_table_in_tx arg)
              (occupied_event arg meta) encode db v full db' x in
          let done = occupy_table_in_tx_returns env x.before x.worked v arg x.executed in
          IsConsistent-same x.worked.db db' same.occupancies same.sessions (
            Occupies-IsConsistent env x.before.db x.worked.db v arg
              (IsConsistent-same db x.before.db (ap (λ (d : Database). d.occupancies) x.unchanged)
                (ap (λ (d : Database). d.sessions) x.unchanged) c)
              done)

  clear_table_command-IsConsistent :
      (arg : ClearTableParams) (meta : CommandMeta) (encode : Encoder TableResult)
      → IsConsistent (clear_table_command arg meta encode env db).1
  unfolding clear_table_command
  clear_table_command-IsConsistent arg meta encode =
      after_command env (caller_of arg.table arg.actor_ref) meta (clear_table_in_tx arg)
        (λ r. write_operational_event (cleared_event arg meta r)) encode db IsConsistent c
        λ v full db' x.
          let same =
            Executes-SameState env (caller_of arg.table arg.actor_ref) meta (clear_table_in_tx arg)
              (cleared_event arg meta) encode db v full db' x in
          let done = clear_table_in_tx_returns env x.before x.worked v arg x.executed in
          IsConsistent-same x.worked.db db' same.occupancies same.sessions (
            Clears-IsConsistent env x.before.db x.worked.db v arg
              (IsConsistent-same db x.before.db (ap (λ (d : Database). d.occupancies) x.unchanged)
                (ap (λ (d : Database). d.sessions) x.unchanged) c)
              done)

  change_assist_command-IsConsistent :
      (next : AssistStatus) (arg : ChangeAssistParams) (meta : CommandMeta)
      (encode : Encoder AssistRequest)
      → IsConsistent (change_assist_command next arg meta encode env db).1
  unfolding change_assist_command
  change_assist_command-IsConsistent next arg meta encode =
      after_command env (caller_of arg.assist arg.actor_ref) meta (change_assist_in_tx next arg)
        (λ r. write_operational_event (changed_event next arg meta r)) encode db IsConsistent c
        λ v full db' x.
          let same =
            Executes-SameState env (caller_of arg.assist arg.actor_ref) meta
              (change_assist_in_tx next arg) (changed_event next arg meta) encode db v full db' x in
          let done = (change_assist_in_tx_returns env x.before x.worked v next arg x.executed).0 in
          IsConsistent-same db db' (ground (arith, same, done, x.unchanged))
            (ground (arith, same, done, x.unchanged)) c

  request_assist-IsConsistent :
      (arg : RequestAssistParams) → IsConsistent (request_assist arg env db).1
  unfolding request_assist
  request_assist-IsConsistent arg = after_tenant_tx env _ db IsConsistent c λ t u a same ran.
      after_action (request_assist_in_tx arg) _ env t ran λ r t₁ h₁ k₁.
        after_action (write_operational_event (requested_event arg r)) _ env t₁ k₁ λ x t₂ h₂ k₂.
          let made = (request_assist_in_tx_returns env t t₁ r arg h₁).stored in
          let told =
            (write_operational_event_returns env (requested_event arg r) t₁ t₂ h₂).stored in
          let last = (pure_inv k₂).1 in
          IsConsistent-same db u.db (ground (arith, made, told, last))
            (ground (arith, made, told, last)) c

-- Whatever call is made, and whatever fails in it, consistent rows stay consistent.
pub step-IsConsistent :
    (db : Database) (call : Env × Call) → IsConsistent db → IsConsistent (step db call)
unfolding step
step-IsConsistent db (env, occupies arg meta encode) c =
    occupy_table_command-IsConsistent env db c arg meta encode
step-IsConsistent db (env, clears arg meta encode) c =
    clear_table_command-IsConsistent env db c arg meta encode
step-IsConsistent db (env, acknowledges arg meta encode) c =
    change_assist_command-IsConsistent env db c acknowledged arg meta encode
step-IsConsistent db (env, resolves arg meta encode) c =
    change_assist_command-IsConsistent env db c resolved arg meta encode
step-IsConsistent db (env, cancels arg meta encode) c =
    change_assist_command-IsConsistent env db c cancelled arg meta encode
step-IsConsistent db (env, requests arg) c = request_assist-IsConsistent env db c arg

-- After any sequence of calls, failing ones included, on rows that were consistent: an available
-- table names no session, an occupied table names an open session of its own, and every open session
-- is the one that the occupancy of its table names; table and session ids stay unique.
pub run-IsConsistent :
    (db : Database) (calls : List (Env × Call)) → IsConsistent db → IsConsistent (run db calls)
unfolding run
run-IsConsistent db [] c = c
run-IsConsistent db (call ∷ calls) c =
    run-IsConsistent (step db call) calls (step-IsConsistent db call c)
