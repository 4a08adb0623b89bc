-- ===== src/Store/Transaction.antt =====
-- What runs inside a transaction: a state of the rows, and an outcome that is a value or an error.
-- Identifiers, clocks, encoders and the connection's faults come from the environment.
use seatd_v.Base.{
  ℕ, suc, ◌≡◌, refl, sym, subst, Bool, true, false, String, Option, none, some, if◌then◌else◌,
}
use seatd_v.Store.Events.{Bytes, Data, Envelope}
use seatd_v.Store.Schema.{Database}

-- How a statement fails: `pgx.ErrNoRows`, a constraint of the schema, or the connection. A service
-- that tells code 23505 from the other violations has it as `duplicate`.
pub data DbError : Type 0 where
  no_rows violation duplicate fault : DbError

-- What a command does not decide itself. `ids` are the uuids drawn in turn, `faults` says which
-- statements meet a failing connection, and the encoders stand for encoding/json and for the
-- server's reading of a text as a jsonb object.
pub record Env : Type 0 where
  pub now : ℕ  -- now() of the transaction
  pub wall : ℕ  -- time.Now()
  pub ids : ℕ → ℕ
  pub faults : ℕ → Bool
  pub rollback_fails : Bool
  pub commit_applied : Bool  -- whether the server committed when the answer to COMMIT was lost
  pub traceparent : String
  pub tracestate : String
  pub encode_data : Data → Option Bytes
  pub encode_envelope : Envelope → Option Bytes
  pub to_jsonb : Bytes → Option Bytes

-- A transaction on the rows of type `D`.
pub record TxOn (D : Type 0) : Type 0 where
  pub db : D
  pub sent : ℕ  -- statements issued so far
  pub drawn : ℕ  -- uuids drawn so far

pub data Outcome (E A : Type 0) : Type 0 where
  ok : A → Outcome E A
  err : E → Outcome E A

abbrev pub is_ok : {E A : Type 0} → Outcome E A → Bool
is_ok (ok a) = true
is_ok (err e) = false

abbrev pub ActionOn : Type 0 → Type 0 → Type 0 → Type 0
ActionOn D E A = Env → TxOn D → Outcome E (A × TxOn D)

-- A method of `db.Queries`, or a statement.
abbrev pub QueryOn : Type 0 → Type 0 → Type 0
QueryOn D = ActionOn D DbError

abbrev pub Tx : Type 0
Tx = TxOn Database

abbrev pub Action : Type 0 → Type 0 → Type 0
Action = ActionOn Database

abbrev pub Query : Type 0 → Type 0
Query = QueryOn Database

abbrev pub continue :
    {D E A B : Type 0}
    → Outcome E (A × TxOn D)
    → (A → ActionOn D E B)
    → Env
    → Outcome E (B × TxOn D)
continue (ok (a, t)) f env = f a env t
continue (err e) f env = err e

infixl 5 ◌>>=◌ ◌>>◌
abbrev pub ◌>>=◌ : {D E A B : Type 0} → ActionOn D E A → (A → ActionOn D E B) → ActionOn D E B
◌>>=◌ m f env t = continue (m env t) f env

abbrev pub ◌>>◌ : {D E B : Type 0} → ActionOn D E (Unit {0}) → ActionOn D E B → ActionOn D E B
◌>>◌ m k = m >>= λ _. k

abbrev pub pure : {D E A : Type 0} → A → ActionOn D E A
pure a env t = ok (a, t)

abbrev pub throw : {D E A : Type 0} → E → ActionOn D E A
throw e env t = err e

abbrev pub rows : {D E : Type 0} → ActionOn D E D
rows env t = ok (t.db, t)

abbrev pub environment : {D E : Type 0} → ActionOn D E Env
environment env t = ok (env, t)

abbrev pub write : {D E : Type 0} → D → ActionOn D E (Unit {0})
write db env t = ok (tt, record t { db = db })

-- uuid.New() and gen_random_uuid()
abbrev pub new_id : {D E : Type 0} → ActionOn D E ℕ
new_id env t = ok (env.ids t.drawn, record t { drawn = suc t.drawn })

-- A statement reaches the server, or the connection fails.
abbrev pub issue : {D : Type 0} → QueryOn D (Unit {0})
issue env t = if env.faults t.sent then err fault else ok (tt, record t { sent = suc t.sent })

-- The rows after a COMMIT whose round trip failed: the client cannot tell which.
abbrev pub after_lost_commit : {D : Type 0} → Env → D → D → D
after_lost_commit env before written = if env.commit_applied then written else before

-- A constraint of the schema.
abbrev pub check : {D : Type 0} → Bool → QueryOn D (Unit {0})
check true = pure tt
check false = throw violation

-- A value that a constraint of the schema demands.
abbrev pub require : {D A : Type 0} → Option A → QueryOn D A
require none = throw violation
require (some a) = pure a

-- `:one` without a row is `pgx.ErrNoRows`.
abbrev pub one : {D A : Type 0} → Option A → QueryOn D A
one none = throw no_rows
one (some a) = pure a

abbrev pub map_error : {E F A : Type 0} → (E → F) → Outcome E A → Outcome F A
map_error f (ok a) = ok a
map_error f (err e) = err (f e)

-- `if err != nil { return wrap(err) }`
abbrev pub handle : {D A E : Type 0} → (DbError → E) → QueryOn D A → ActionOn D E A
handle f q env t = map_error f (q env t)

pub continue_inv :
    {D E A B : Type 0} (r : Outcome E (A × TxOn D)) (f : A → ActionOn D E B) (env : Env) {b : B}
    {u : TxOn D}
    → continue r f env ≡ ok (b, u)
    → (a : A) × (t : TxOn D) × (r ≡ ok (a, t)) × (f a env t ≡ ok (b, u))
continue_inv (ok (a, t)) f env h = (a, t, refl, h)
continue_inv (err e) f env h = cc

-- What a block returned, its first action returned before.
pub bind_inv :
    {D E A B : Type 0} (m : ActionOn D E A) (f : A → ActionOn D E B) (env : Env) (t : TxOn D)
    {b : B} {u : TxOn D}
    → (m >>= f) env t ≡ ok (b, u)
    → (a : A) × (t' : TxOn D) × (m env t ≡ ok (a, t')) × (f a env t' ≡ ok (b, u))
bind_inv m f env t h = continue_inv (m env t) f env h

pub map_error_inv :
    {E F A : Type 0} (f : E → F) (r : Outcome E A) {a : A} → map_error f r ≡ ok a → r ≡ ok a
map_error_inv f (ok a) h = cc
map_error_inv f (err e) h = cc

-- To use that a block returned: each statement that it ran returned, and each refusal was passed.
-- The rest of the proof is a function of what the statement returned.
pub after_handle :
    {D P A B E : Type 0} (f : DbError → E) (q : QueryOn D A) (k : A → ActionOn D E B) (env : Env)
    (t : TxOn D) {r : B × TxOn D}
    → (handle f q >>= k) env t ≡ ok r
    → ((a : A) (t' : TxOn D) → q env t ≡ ok (a, t') → k a env t' ≡ ok r → P)
    → P
after_handle f q k env t h go =
    let (a, t', e, h') = continue_inv (handle f q env t) k env h in
    go a t' (map_error_inv f (q env t) e) h'

pub after_action :
    {D P A B E : Type 0} (m : ActionOn D E A) (k : A → ActionOn D E B) (env : Env) (t : TxOn D)
    {r : B × TxOn D}
    → (m >>= k) env t ≡ ok r
    → ((a : A) (t' : TxOn D) → m env t ≡ ok (a, t') → k a env t' ≡ ok r → P)
    → P
after_action m k env t h go = let (a, t', e, h') = continue_inv (m env t) k env h in go a t' e h'

-- `if failed { return err }`
abbrev pub refuse_if : {D E : Type 0} → Bool → E → ActionOn D E (Unit {0})
refuse_if b e = if b then throw e else pure tt

pub after_refusal :
    {D P B E : Type 0} (b : Bool) (e : E) (k : ActionOn D E B) (env : Env) (t : TxOn D)
    {r : B × TxOn D}
    → (refuse_if b e >> k) env t ≡ ok r
    → (b ≡ false → k env t ≡ ok r → P)
    → P
after_refusal true e k env t h go = cc
after_refusal false e k env t h go = go refl h

pub pure_inv :
    {D E A : Type 0} {a b : A} {t u : TxOn D}
    → ◌≡◌ {A = Outcome E (A × TxOn D)} (ok (a, t)) (ok (b, u))
    → (b ≡ a) × (u ≡ t)
pure_inv h = (cc, cc)

-- A statement: the round trip, then what the server makes of the rows.
abbrev pub answered :
    {D A : Type 0} → TxOn D → Outcome DbError (A × D) → Outcome DbError (A × TxOn D)
answered t (err e) = err e
answered t (ok (a, db)) = ok (a, record t { db = db; sent = suc t.sent })

unfoldable pub statement : {D A : Type 0} → (Env → D → Outcome DbError (A × D)) → QueryOn D A
statement f env t = if env.faults t.sent then err fault else answered t (f env t.db)

-- A query, of what it finds
unfoldable pub select : {D A : Type 0} → (D → A) → QueryOn D A
unfolding statement
select f = statement (λ env db. ok (f db, db))

-- `if errors.Is(err, pgx.ErrNoRows) { return e }`
abbrev pub present : {D E A : Type 0} → E → Option A → ActionOn D E A
present e none = throw e
present e (some a) = pure a

answered_inv :
    {D A : Type 0} (t : TxOn D) (o : Outcome DbError (A × D)) {a : A} {u : TxOn D}
    → answered t o ≡ ok (a, u)
    → (o ≡ ok (a, u.db)) × (u ≡ record t { db = u.db; sent = suc t.sent })
answered_inv t (err e) h = cc
answered_inv t (ok (b, db)) h = (cc, cc)

statement_inv :
    {D A : Type 0} (b : Bool) (o : Outcome DbError (A × D)) (t : TxOn D) {a : A} {u : TxOn D}
    → (if b then err fault else answered t o) ≡ ok (a, u)
    → answered t o ≡ ok (a, u)
statement_inv true o t h = cc
statement_inv false o t h = h

pub statement_returns :
    {D A : Type 0} (f : Env → D → Outcome DbError (A × D)) (env : Env) (t : TxOn D) {a : A}
    {u : TxOn D}
    → statement f env t ≡ ok (a, u)
    → f env t.db ≡ ok (a, u.db)
unfolding statement
statement_returns f env t h =
    (answered_inv t (f env t.db) (statement_inv (env.faults t.sent) (f env t.db) t h)).0

-- A block returned that a statement begins: the server answered with rows, on which the rest ran.
pub after_statement :
    {D P A B E : Type 0} (e : DbError → E) (f : Env → D → Outcome DbError (A × D))
    (k : A → ActionOn D E B) (env : Env) (t : TxOn D) {r : B × TxOn D}
    → (handle e (statement f) >>= k) env t ≡ ok r
    → ((a : A) (db : D)
        → f env t.db ≡ ok (a, db)
        → k a env (record t { db = db; sent = suc t.sent }) ≡ ok r
        → P)
    → P
unfolding statement
after_statement e f k env t {r} h go = after_handle e (statement f) k env t h (λ a u q h'.
    let (o, same) =
      answered_inv t (f env t.db) (statement_inv (env.faults t.sent) (f env t.db) t q) in
    go a u.db o (subst (λ v. k a env v ≡ ok r) same h'))

pub after_select :
    {D P A B E : Type 0} (e : DbError → E) (f : D → A) (k : A → ActionOn D E B) (env : Env)
    (t : TxOn D) {r : B × TxOn D}
    → (handle e (select f) >>= k) env t ≡ ok r
    → (k (f t.db) env (record t { sent = suc t.sent }) ≡ ok r → P)
    → P
unfolding select
after_select e f k env t {r} h go =
    after_statement e (λ env db. ok (f db, db)) k env t h
      (λ a db o h'.
        let same_row : f t.db ≡ a = cc in
        let same_db : t.db ≡ db = cc in
        go (
          subst (λ v. k v env (record t { sent = suc t.sent }) ≡ ok r) (sym same_row)
            (subst (λ d. k a env (record t { db = d; sent = suc t.sent }) ≡ ok r) (sym same_db)
              h')))

pub after_present :
    {D P A B E : Type 0} (e : E) (o : Option A) (k : A → ActionOn D E B) (env : Env) (t : TxOn D)
    {r : B × TxOn D}
    → (present e o >>= k) env t ≡ ok r
    → ((a : A) → o ≡ some a → k a env t ≡ ok r → P)
    → P
after_present e none k env t h go = cc
after_present e (some a) k env t h go = go a refl h
