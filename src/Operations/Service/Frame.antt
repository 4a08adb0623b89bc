-- ===== src/Operations/Service/Frame.antt =====
-- The event and the record of a command leave the tables, sessions and assists as its work left them.
use seatd_v.Base.{◌≡◌, inl, inr, Option, arith}
use seatd_v.Store.{Database, Env, Action}
use seatd_v.Operations.Errors.{Error}
use seatd_v.Operations.Events.{OperationalEvent, write_operational_event}
use seatd_v.Operations.Events.Effects.{Emits, write_operational_event_returns}
use seatd_v.Operations.Commands.{Caller, CommandMeta, Response}
use seatd_v.Operations.Commands.Outcomes.{Recorded}
use seatd_v.Operations.Commands.Returns.{Executes}

pub record SameState (db db' : Database) : Type 0 where
  pub tables : db'.tables ≡ db.tables
  pub occupancies : db'.occupancies ≡ db.occupancies
  pub sessions : db'.sessions ≡ db.sessions
  pub assists : db'.assists ≡ db.assists

Emits-SameState :
    (env : Env) (event : OperationalEvent) (db db' : Database)
    → Emits env event db db'
    → SameState db db'
Emits-SameState env event db db' e = ground (arith, e.stored)

Recorded-SameState :
    (env : Env) (caller : Caller) (meta : CommandMeta) (response full : Response)
    (db db' : Database)
    → Recorded env caller meta response db full db'
    → SameState db db'
Recorded-SameState env caller meta response full db db' (inl (_, _, e)) = ground arith
Recorded-SameState env caller meta response full db db' (inr (_, _, r)) = ground (arith, r.stored)

module _ {T : Type 0} (env : Env) (caller : Caller) (meta : CommandMeta) (execute : Action Error T)
    (event : T → OperationalEvent) (encode : Option (T → Option Response)) (db : Database) (v : T)
    (full : Response) (db' : Database)
    (x : Executes env caller meta execute
      (λ v. write_operational_event (event v))
      encode
      db
      v
      full
      db') where
  pub Executes-Emits : Emits env (event v) x.worked.db x.emitted.db
  Executes-Emits = write_operational_event_returns env (event v) x.worked x.emitted x.reports

  pub Executes-SameState : SameState x.worked.db db'
  Executes-SameState =
      let e = Emits-SameState env (event v) x.worked.db x.emitted.db Executes-Emits in
      let r = Recorded-SameState env caller meta x.response full x.emitted.db db' x.recorded in
      ground (arith, e, r)
