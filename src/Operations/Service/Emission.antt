-- ===== src/Operations/Service/Emission.antt =====
-- The events and the outbox rows of the exported commands.
use seatd_v.Base.{some_inj, ◌≡◌, ap, sym, subst, ◌∙◌, inl, inr, Option, some, List, ◌∷◌, arith}
use seatd_v.Store.{Database, AssistRequest, AssistStatus, EventRow, OutboxRow, Env, Tx, ok, Action}
use seatd_v.Operations.Errors.{Error}
use seatd_v.Operations.Events.{OperationalEvent, write_operational_event, or_default, or_topic}
use seatd_v.Operations.Events.Effects.{IsEvent, Queued}
use seatd_v.Operations.Commands.{Caller, CommandMeta, Response, CommandReplay, run_tenant_command}
use seatd_v.Operations.Commands.Outcomes.{Recorded}
use seatd_v.Operations.Commands.Returns.{Executes, run_tenant_command_returns}
use seatd_v.Operations.Tables.{
  OccupyTableParams, ClearTableParams, TableResult, occupy_table_in_tx, clear_table_in_tx,
}
use seatd_v.Operations.Tables.Returns.{occupy_table_in_tx_returns, clear_table_in_tx_returns}
use seatd_v.Operations.Assists.{ChangeAssistParams, change_assist_in_tx}
use seatd_v.Operations.Assists.Returns.{change_assist_in_tx_returns}
use seatd_v.Operations.Service.{
  Encoder, caller_of, occupied_event, cleared_event, changed_event, occupy_table_command,
  clear_table_command, change_assist_command,
}
use seatd_v.Operations.Service.Frame.{Executes-Emits}

-- The events and the outbox have grown by the row of this event and by its deliveries.
pub record Told (event : OperationalEvent) (db db' : Database) : Type 0 where
  pub row : EventRow
  pub is_event : IsEvent event row
  pub one_event : db'.events ≡ row ∷ db.events
  pub deliveries :
      Queued event row.id
        (or_default event.topic event.entity_type)
        row.payload
        (or_topic event.destinations (or_default event.topic event.entity_type))
        db.outbox
        db'.outbox

Recorded-events :
    (env : Env) (caller : Caller) (meta : CommandMeta) (response full : Response)
    (db db' : Database)
    → Recorded env caller meta response db full db'
    → (db'.events ≡ db.events) × (db'.outbox ≡ db.outbox)
Recorded-events env caller meta response full db db' (inl (_, _, e)) = ground arith
Recorded-events env caller meta response full db db' (inr (_, _, r)) = ground (arith, r.stored)

module _ {T : Type 0} (env : Env) (caller : Caller) (meta : CommandMeta) (execute : Action Error T)
    (event : T → OperationalEvent) (encode : Option (T → Option Response)) (db : Database)
    (quiet : (t u : Tx) (v : T)
      → execute env t ≡ ok (v, u)
      → (u.db.events ≡ t.db.events) × (u.db.outbox ≡ t.db.outbox)) where
  Executes-Told :
      (v : T) (full : Response) (db' : Database)
      → Executes env caller meta execute
          (λ v. write_operational_event (event v))
          encode
          db
          v
          full
          db'
      → Told (event v) db db'
  Executes-Told v full db' x =
      let e = Executes-Emits env caller meta execute event encode db v full db' x in
      let (events, outbox) = quiet x.before x.worked v x.executed in
      let (events', outbox') =
        Recorded-events env caller meta x.response full x.emitted.db db' x.recorded in
      let outbox_before : x.worked.db.outbox ≡ db.outbox =
        outbox ∙ ap (λ (d : Database). d.outbox) x.unchanged in
      let outbox_after : e.added ≡ db'.outbox =
        sym (outbox' ∙ ap (λ (d : Database). d.outbox) e.stored) in
      record {
        row = e.row;
        is_event = e.is_event;
        one_event = ground (arith, e.stored, events, events', x.unchanged);
        deliveries =
            subst
              (λ (before : List OutboxRow).
                Queued (event v) e.row.id (or_default (event v).topic (event v).entity_type)
                  e.row.payload
                  (or_topic (event v).destinations
                    (or_default (event v).topic (event v).entity_type))
                  before db'.outbox)
              outbox_before
              (subst
                (λ (after : List OutboxRow).
                  Queued (event v) e.row.id (or_default (event v).topic (event v).entity_type)
                    e.row.payload
                    (or_topic (event v).destinations
                      (or_default (event v).topic (event v).entity_type))
                    x.worked.db.outbox after)
                outbox_after e.queued);
      }

  run_tenant_command-Told :
      (v : T) (reply : CommandReplay) (db' : Database)
      → run_tenant_command caller meta execute
          (λ v. write_operational_event (event v))
          encode
          env
          db
        ≡ (ok (some v, reply), db')
      → Told (event v) db db'
  run_tenant_command-Told v reply db' h =
      elim (run_tenant_command_returns env caller meta execute
        (λ v. write_operational_event (event v)) encode db (some v) reply db' h) [
          | inl (e, _, _) ↦ absurd (ground arith)
          | inr (w, e, _, x) ↦
              subst (λ (v : T). Told (event v) db db') (some_inj (sym e))
                (Executes-Told w reply.response db' x)
        ]

-- The event and the deliveries of each command
pub occupy_table_command-Told :
    (arg : OccupyTableParams) (meta : CommandMeta) (encode : Encoder TableResult) (env : Env)
    (db db' : Database) (v : TableResult) (reply : CommandReplay)
    → occupy_table_command arg meta encode env db ≡ (ok (some v, reply), db')
    → Told (occupied_event arg meta v) db db'
unfolding occupy_table_command
occupy_table_command-Told arg meta encode env db db' v reply h =
    run_tenant_command-Told env (caller_of arg.table arg.actor_ref) meta (occupy_table_in_tx arg)
      (occupied_event arg meta) encode db
      (λ t u r e. ground (arith, (occupy_table_in_tx_returns env t u r arg e).stored)) v reply db' h

pub clear_table_command-Told :
    (arg : ClearTableParams) (meta : CommandMeta) (encode : Encoder TableResult) (env : Env)
    (db db' : Database) (v : TableResult) (reply : CommandReplay)
    → clear_table_command arg meta encode env db ≡ (ok (some v, reply), db')
    → Told (cleared_event arg meta v) db db'
unfolding clear_table_command
clear_table_command-Told arg meta encode env db db' v reply h =
    run_tenant_command-Told env (caller_of arg.table arg.actor_ref) meta (clear_table_in_tx arg)
      (cleared_event arg meta) encode db
      (λ t u r e. ground (arith, (clear_table_in_tx_returns env t u r arg e).stored)) v reply db' h

pub change_assist_command-Told :
    (next : AssistStatus) (arg : ChangeAssistParams) (meta : CommandMeta)
    (encode : Encoder AssistRequest) (env : Env) (db db' : Database) (v : AssistRequest)
    (reply : CommandReplay)
    → change_assist_command next arg meta encode env db ≡ (ok (some v, reply), db')
    → Told (changed_event next arg meta v) db db'
unfolding change_assist_command
change_assist_command-Told next arg meta encode env db db' v reply h =
    run_tenant_command-Told env (caller_of arg.assist arg.actor_ref) meta
      (change_assist_in_tx next arg) (changed_event next arg meta) encode db
      (λ t u r e. ground (arith, (change_assist_in_tx_returns env t u r next arg e).0.stored)) v
      reply db' h
