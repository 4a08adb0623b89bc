-- ===== src/Outbox/Steps.antt =====
-- The transactions of the worker of internal/outbox/outbox.go as steps on the rows of the database and
-- on the calls of consumers. A statement that meets a failing connection leaves its transaction
-- without effect; a COMMIT whose round trip fails returns an error and takes effect or not.
pub mod Keeps
use seatd_v.Base.{ℕ, suc, Bool, String, Option, List, if◌then◌else◌}
use seatd_v.Store.{Bytes, Envelope, Database, Outcome, ok, err}

pub data Error : Type 0 where
  connection : Error
  violation : Error
  no_rows : Error
  decoding : Error
  handling : String → ℕ → String → Error  -- the consumer, the event and its error

-- The server and the decoder: now() at each statement, which statements fail, json.Unmarshal, and the
-- texts of errors.
pub record Connection : Type 0 where
  pub clock : ℕ → ℕ
  pub faults : ℕ → Bool
  pub commit_applied : Bool  -- whether the server committed when the answer to COMMIT was lost
  pub decode : Bytes → Option Envelope
  pub describe : Error → String

-- A call of a consumer: its name, the event, and what it returned.
pub record Handling : Type 0 where
  pub consumer : String
  pub event_id : ℕ
  pub failure : Option String

pub record World : Type 0 where
  pub db : Database
  pub sent : ℕ  -- statements issued so far
  pub handled : List Handling

abbrev pub Step : Type 0 → Type 0
Step A = Connection → World → Outcome Error A × World

abbrev pub continue :
    {A B : Type 0} → Outcome Error A × World → (A → Step B) → Connection → Outcome Error B × World
continue (ok a, w) f c = f a c w
continue (err e, w) f c = (err e, w)

infixl 5 ◌>>=◌ ◌>>◌
abbrev pub ◌>>=◌ : {A B : Type 0} → Step A → (A → Step B) → Step B
◌>>=◌ m f c w = continue (m c w) f c

abbrev pub ◌>>◌ : {B : Type 0} → Step (Unit {0}) → Step B → Step B
◌>>◌ m k = m >>= λ _. k

abbrev pub pure : {A : Type 0} → A → Step A
pure a c w = (ok a, w)

abbrev pub throw : {A : Type 0} → Error → Step A
throw e c w = (err e, w)

abbrev pub rows : Step Database
rows c w = (ok w.db, w)

abbrev pub described : Error → Step String
described e c w = (ok (c.describe e), w)

-- One round trip, BEGIN and COMMIT among them.
unfoldable pub send : Step (Unit {0})
send c w =
    if c.faults w.sent
    then (err connection, record w { sent = suc w.sent })
    else (ok tt, record w { sent = suc w.sent })

-- What a transaction wrote stands once it has committed.
unfoldable pub commit : Database → Step (Unit {0})
commit db c w =
    if c.faults w.sent
    then (
      err connection,
      record w { db = if c.commit_applied then db else w.db; sent = suc w.sent },
    )
    else (ok tt, record w { db = db; sent = suc w.sent })

-- now() in the transaction whose first statement is the next one
abbrev pub now : Step ℕ
now c w = (ok (c.clock w.sent), w)

-- adminExec: BEGIN, set_config, the statement, COMMIT
unfoldable pub admin_exec : (ℕ → Database → Database) → Step (Unit {0})
unfolding commit
admin_exec change = do t ← now; send; send; send; db ← rows; commit (change t db)
