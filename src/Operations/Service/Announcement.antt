-- ===== src/Operations/Service/Announcement.antt =====
-- What internal/domain/operations/service.go tells the rest of the system of a command that executed: the
-- values of the event and of its rows of the outbox, written out.
use seatd_v.Base.{
  ℕ, suc, ◌≡◌, refl, sym, subst, ◌∙◌, some_inj, inl, inr, String, Option, some, List, [], ◌∷◌,
  arith, find_row-test, is_empty, if◌then◌else◌,
}
use seatd_v.Store.{
  Database, AssistRequest, AssistStatus, pending, acknowledged, resolved, cancelled, EventRow,
  OutboxRow, waiting, Env, Tx, ok, Action,
}
use seatd_v.Operations.Errors.{Error}
use seatd_v.Operations.Events.{OperationalEvent, write_operational_event}
use seatd_v.Operations.Events.Effects.{IsEvent, IsQueued, Queued}
use seatd_v.Operations.Queries.{is_occupiable, is_clearable}
use seatd_v.Operations.Commands.{Caller, CommandMeta, Response, CommandReplay, run_tenant_command}
use seatd_v.Operations.Commands.Returns.{run_tenant_command_returns}
use seatd_v.Operations.Tables.{
  OccupyTableParams, ClearTableParams, TableResult, occupy_table_in_tx, clear_table_in_tx,
}
use seatd_v.Operations.Tables.Returns.{occupy_table_in_tx_returns, clear_table_in_tx_returns}
use seatd_v.Operations.Assists.{ChangeAssistParams, change_assist_in_tx}
use seatd_v.Operations.Assists.Returns.{change_assist_in_tx_returns, Changes, is_changeable}
use seatd_v.Operations.Service.{
  Encoder, caller_of, occupied_event, cleared_event, changed_event, occupy_table_command,
  clear_table_command, change_assist_command,
}
use seatd_v.Operations.Service.Emission.{
  occupy_table_command-Told, clear_table_command-Told, change_assist_command-Told,
}

-- A row of the outbox that waits, was not tried, and brings an event to a destination.
pub record Brings (destination topic : String) (row : EventRow) (o : OutboxRow) : Type 0 where
  pub destined : o.destination ≡ destination
  pub on_topic : o.topic ≡ topic
  pub of_event : o.event_id ≡ row.id
  pub of_organisation : o.organisation_id ≡ row.organisation_id
  pub of_location : o.location_id ≡ row.location_id
  pub carries : o.payload ≡ row.payload
  pub waits : o.status ≡ waiting
  pub not_tried : o.attempts ≡ 0

-- The events have grown by one row, and the outbox by three: for the realtime updates, the analytics and the
-- audit. An actor without a name is the system.
pub record Announces (kind entity_type topic : String)
    (organisation_id location_id entity_id version : ℕ) (actor_ref : String) (db db' : Database)
    : Type 0 where
  pub row : EventRow
  pub one_event : db'.events ≡ row ∷ db.events
  pub kind_of_event : row.event_type ≡ kind
  pub entity : row.entity_type ≡ entity_type
  pub entity_named : row.entity_id ≡ entity_id
  pub at_version : row.entity_version ≡ version
  pub in_organisation : row.organisation_id ≡ organisation_id
  pub at_location : row.location_id ≡ location_id
  pub by_actor : row.actor_ref ≡ (if is_empty actor_ref then "system" else actor_ref)
  pub realtime : OutboxRow
  pub analytics : OutboxRow
  pub audit : OutboxRow
  pub three_rows : db'.outbox ≡ audit ∷ analytics ∷ realtime ∷ db.outbox
  pub to_realtime : Brings "realtime.operations" topic row realtime
  pub to_analytics : Brings "analytics.operations" topic row analytics
  pub to_audit : Brings "audit.operations" topic row audit

abbrev three : List String
three = "realtime.operations" ∷ "analytics.operations" ∷ "audit.operations" ∷ []

module _ (event : OperationalEvent) (topic : String) (row : EventRow)
    (same_organisation : row.organisation_id ≡ event.organisation_id)
    (same_location : row.location_id ≡ event.location_id) where
  brought :
      (destination : String) (o : OutboxRow)
      → IsQueued event row.id topic destination row.payload o
      → Brings destination topic row o
  brought destination o q = record {
    destined = q.for_destination;
    on_topic = q.on_topic;
    of_event = q.of_event;
    of_organisation = q.of_organisation ∙ sym same_organisation;
    of_location = q.of_location ∙ sym same_location;
    carries = q.carries;
    waits = q.waits;
    not_tried = q.not_tried;
  }

announced :
    (event : OperationalEvent) (kind entity_type topic : String) (version : ℕ) (db db' : Database)
    (row : EventRow)
    → IsEvent event row
    → db'.events ≡ row ∷ db.events
    → Queued event row.id topic row.payload three db.outbox db'.outbox
    → event.event_type ≡ kind
    → event.entity_type ≡ entity_type
    → event.entity_version ≡ version
    → Announces kind entity_type topic event.organisation_id event.location_id event.entity_id
        version event.actor_ref db db'
announced event kind entity_type topic version db db' row (org, loc, e, et, id, v, actor, _) one
      (o1, q1, (o2, q2, (o3, q3, rows))) same_kind same_entity same_version =
    let bring = brought event topic row org loc in
    record {
      row = row;
      one_event = one;
      kind_of_event = e ∙ same_kind;
      entity = et ∙ same_entity;
      entity_named = id;
      at_version = v ∙ same_version;
      in_organisation = org;
      at_location = loc;
      by_actor = actor;
      realtime = o1;
      analytics = o2;
      audit = o3;
      three_rows = rows;
      to_realtime = bring _ o1 q1;
      to_analytics = bring _ o2 q2;
      to_audit = bring _ o3 q3;
    }

-- The work of a command that executed ran to its end.
executed :
    {T : Type 0} (env : Env) (caller : Caller) (meta : CommandMeta) (execute : Action Error T)
    (after : T → Action Error (Unit {0})) (encode : Option (T → Option Response))
    (db db' : Database) (v : T) (reply : CommandReplay)
    → run_tenant_command caller meta execute after encode env db ≡ (ok (some v, reply), db')
    → (t u : Tx) × (execute env t ≡ ok (v, u))
executed env caller meta execute after encode db db' v reply h =
    elim (run_tenant_command_returns env caller meta execute after encode db (some v) reply db' h) [
      | inl (e, _, _) ↦ absurd (ground arith)
      | inr (w, e, _, x) ↦
          subst (λ v. (t u : Tx) × (execute env t ≡ ok (v, u))) (some_inj (sym e))
            (x.before, x.worked, x.executed)
    ]

-- An occupation that executed, under whatever command, has appended one event `table.occupied` of that table
-- with the version after the expected one, and to the outbox one row each for `realtime.operations`,
-- `analytics.operations` and `audit.operations`, on the topic `operations.table`, with the payload of the
-- event, waiting and not yet tried. Nothing else is appended to either.
pub occupy_table_command-Announces :
    (arg : OccupyTableParams) (meta : CommandMeta) (encode : Encoder TableResult) (env : Env)
    (db db' : Database) (v : TableResult) (reply : CommandReplay)
    → occupy_table_command arg meta encode env db ≡ (ok (some v, reply), db')
    → Announces "table.occupied" "table" "operations.table" arg.table.organisation_id
        arg.table.location_id arg.table.id
        (suc arg.expected_version)
        arg.actor_ref
        db
        db'
unfolding occupy_table_command
occupy_table_command-Announces arg meta encode env db db' v reply h =
    let told = occupy_table_command-Told arg meta encode env db db' v reply h in
    let (t, u, ran) =
      executed env (caller_of arg.table arg.actor_ref) meta (occupy_table_in_tx arg)
        (λ r. write_operational_event (occupied_event arg meta r)) encode db db' v reply h in
    let x = occupy_table_in_tx_returns env t u v arg ran in
    let met = find_row-test (is_occupiable arg.table arg.expected_version) _ x.marked x.found in
    announced (occupied_event arg meta v) "table.occupied" "table" "operations.table"
      (suc arg.expected_version) db db' told.row told.is_event told.one_event told.deliveries refl
      refl (ground (arith, met, x.occupancy))

-- A clearing that executed has appended one event `table.cleared` of that table with the version after the
-- expected one, and to the outbox one row each for `realtime.operations`, `analytics.operations` and
-- `audit.operations`, on the topic `operations.table`, with the payload of the event, waiting and not yet
-- tried. Nothing else is appended to either.
pub clear_table_command-Announces :
    (arg : ClearTableParams) (meta : CommandMeta) (encode : Encoder TableResult) (env : Env)
    (db db' : Database) (v : TableResult) (reply : CommandReplay)
    → clear_table_command arg meta encode env db ≡ (ok (some v, reply), db')
    → Announces "table.cleared" "table" "operations.table" arg.table.organisation_id
        arg.table.location_id arg.table.id
        (suc arg.expected_version)
        arg.actor_ref
        db
        db'
unfolding clear_table_command
clear_table_command-Announces arg meta encode env db db' v reply h =
    let told = clear_table_command-Told arg meta encode env db db' v reply h in
    let (t, u, ran) =
      executed env (caller_of arg.table arg.actor_ref) meta (clear_table_in_tx arg)
        (λ r. write_operational_event (cleared_event arg meta r)) encode db db' v reply h in
    let x = clear_table_in_tx_returns env t u v arg ran in
    let met = find_row-test (is_clearable arg.table arg.expected_version) _ x.marked x.found in
    announced (cleared_event arg meta v) "table.cleared" "table" "operations.table"
      (suc arg.expected_version) db db' told.row told.is_event told.one_event told.deliveries refl
      refl (ground (arith, met, x.occupancy))

-- The three changes of an assist, and the types of their events
pub data IsKindOf : AssistStatus → String → Type 0 where
  acknowledging : IsKindOf acknowledged "assist.acknowledged"
  resolving : IsKindOf resolved "assist.resolved"
  cancelling : IsKindOf cancelled "assist.cancelled"

named_kind :
    (next : AssistStatus) (kind : String) (arg : ChangeAssistParams) (meta : CommandMeta)
    (v : AssistRequest)
    → IsKindOf next kind
    → (changed_event next arg meta v).event_type ≡ kind
named_kind acknowledged kind arg meta v acknowledging = refl
named_kind resolved kind arg meta v resolving = refl
named_kind cancelled kind arg meta v cancelling = refl
named_kind pending kind arg meta v h = elim h [ ]

raised :
    (env : Env) (db db' : Database) (v : AssistRequest) (arg : ChangeAssistParams)
    (next : AssistStatus) (kind : String)
    → IsKindOf next kind
    → Changes env db v db' next arg
    → v.version ≡ suc arg.expected_version
raised env db db' v arg acknowledged kind acknowledging x =
    ground (arith, find_row-test (is_changeable acknowledged arg) _ x.before x.found, x.changed)
raised env db db' v arg resolved kind resolving x =
    ground (arith, find_row-test (is_changeable resolved arg) _ x.before x.found, x.changed)
raised env db db' v arg pending kind named x = elim named [ ]
raised env db db' v arg cancelled kind cancelling x =
    ground (arith, find_row-test (is_changeable cancelled arg) _ x.before x.found, x.changed)

-- Acknowledging, resolving or cancelling an assist request, when it executed, has appended one event
-- `assist.acknowledged`, `assist.resolved` or `assist.cancelled` of that request, with the version after the
-- expected one, and to the outbox one row each for `realtime.operations`, `analytics.operations` and
-- `audit.operations`, on the topic `operations.assist`, with the payload of the event, waiting and not yet
-- tried. Nothing else is appended to either.
pub change_assist_command-Announces :
    (next : AssistStatus) (kind : String) (arg : ChangeAssistParams) (meta : CommandMeta)
    (encode : Encoder AssistRequest) (env : Env) (db db' : Database) (v : AssistRequest)
    (reply : CommandReplay)
    → IsKindOf next kind
    → change_assist_command next arg meta encode env db ≡ (ok (some v, reply), db')
    → Announces kind "assist" "operations.assist" arg.assist.organisation_id arg.assist.location_id
        arg.assist.id
        (suc arg.expected_version)
        arg.actor_ref
        db
        db'
unfolding change_assist_command
change_assist_command-Announces next kind arg meta encode env db db' v reply named h =
    let told = change_assist_command-Told next arg meta encode env db db' v reply h in
    let (t, u, ran) =
      executed env (caller_of arg.assist arg.actor_ref) meta (change_assist_in_tx next arg)
        (λ r. write_operational_event (changed_event next arg meta r)) encode db db' v reply h in
    let x = (change_assist_in_tx_returns env t u v next arg ran).0 in
    announced (changed_event next arg meta v) kind "assist" "operations.assist"
      (suc arg.expected_version) db db' told.row told.is_event told.one_event told.deliveries
      (named_kind next kind arg meta v named) refl (raised env t.db u.db v arg next kind named x)
