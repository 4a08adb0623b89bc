-- ===== src/Outbox/Steps/Keeps.antt =====
-- What a step keeps of the rows and of the calls, whether it returns or fails.
use seatd_v.Base.{ℕ, suc, ◌≡◌, refl, Bool, true, false, if◌then◌else◌, List, Bool-cases, inl, inr}
use seatd_v.Store.{Database, Outcome, ok, err}
use seatd_v.Outbox.Steps.{
  Error, connection, Connection, Handling, World, Step, continue, ◌>>=◌, ◌>>◌, send, commit,
  admin_exec,
}

-- The two ways that a statement goes.
pub after_send :
    {B : Type 0} (Q : Outcome Error B × World → Type 0) (k : Step B) (c : Connection) (w : World)
    → Q (err connection, record w { sent = suc w.sent })
    → Q (k c (record w { sent = suc w.sent }))
    → Q ((send >> k) c w)
unfolding send
after_send Q k c w failed sent = elim (Bool-cases (c.faults w.sent)) [
  | inl e ↦ rw e failed
  | inr e ↦ rw e sent
]

pub after_commit :
    {B : Type 0} (Q : Outcome Error B × World → Type 0) (db : Database) (k : Step B)
    (c : Connection) (w : World)
    → Q (err connection, record w { sent = suc w.sent })
    → Q (err connection, record w { db = db; sent = suc w.sent })
    → Q (k c (record w { db = db; sent = suc w.sent }))
    → Q ((commit db >> k) c w)
unfolding commit
after_commit Q db k c w failed lost written = elim (Bool-cases (c.faults w.sent)) [
  | inl e ↦ rw e (either c.commit_applied)
  | inr e ↦ rw e written
]
  where
    either :
        (b : Bool) → Q (err connection, record w { db = if b then db else w.db; sent = suc w.sent })
    either true = lost
    either false = failed

-- A COMMIT that nothing follows.
after_last_commit :
    (Q : Outcome Error (Unit {0}) × World → Type 0) (db : Database) (c : Connection) (w : World)
    → Q (err connection, record w { sent = suc w.sent })
    → Q (err connection, record w { db = db; sent = suc w.sent })
    → Q (ok tt, record w { db = db; sent = suc w.sent })
    → Q (commit db c w)
unfolding commit
after_last_commit Q db c w failed lost written = elim (Bool-cases (c.faults w.sent)) [
  | inl e ↦ rw e (either c.commit_applied)
  | inr e ↦ rw e written
]
  where
    either :
        (b : Bool) → Q (err connection, record w { db = if b then db else w.db; sent = suc w.sent })
    either true = lost
    either false = failed

-- The ways that adminExec goes.
pub after_admin_exec :
    (Q : Outcome Error (Unit {0}) × World → Type 0) (change : ℕ → Database → Database)
    (c : Connection) (w : World)
    → ((sent : ℕ) → Q (err connection, record w { sent = sent }))
    → ((t sent : ℕ) → Q (err connection, record w { db = change t w.db; sent = sent }))
    → ((t sent : ℕ) → Q (ok tt, record w { db = change t w.db; sent = sent }))
    → Q (admin_exec change c w)
unfolding admin_exec
after_admin_exec Q change c w failed lost written = after_send Q _ c w (failed _) (
    after_send Q _ c _ (failed _) (
      after_send Q _ c _ (failed _)
        (after_last_commit Q _ c _ (failed _) (lost _ _) (written _ _))))

-- adminExec on a connection that holds.
pub admin_exec_holds :
    (change : ℕ → Database → Database) (c : Connection) (w : World)
    → ((k : ℕ) → c.faults k ≡ false)
    → admin_exec change c w
      ≡ (ok tt, record w { db = change (c.clock w.sent) w.db; sent = suc (suc (suc (suc w.sent))) })
unfolding admin_exec commit send
admin_exec_holds change c w holds = rw (holds w.sent) (
    rw (holds (suc w.sent))
      (rw (holds (suc (suc w.sent))) (rw (holds (suc (suc (suc w.sent)))) refl)))

module _ (P : Database → List Handling → Type 0) where
  abbrev pub Keeps : {A : Type 0} → Step A → Type 0
  Keeps m = (c : Connection) (w : World) → P w.db w.handled → P (m c w).1.db (m c w).1.handled

  pub bind-Keeps :
      {A B : Type 0} (m : Step A) (f : A → Step B)
      → Keeps m
      → ((a : A) → Keeps (f a))
      → Keeps (m >>= f)
  bind-Keeps {A} {B} m f first rest c w p = after (m c w) (first c w p)
    where
      after :
          (r : Outcome Error A × World)
          → P r.1.db r.1.handled
          → P (continue r f c).1.db (continue r f c).1.handled
      after (ok a, w') q = rest a c w' q
      after (err e, w') q = q

  pub send-Keeps : Keeps send
  unfolding send
  send-Keeps c w p = elim (Bool-cases (c.faults w.sent)) [ inl e ↦ rw e p | inr e ↦ rw e p ]

  pub admin_exec-Keeps :
      (change : ℕ → Database → Database)
      → ((t : ℕ) (db : Database) (h : List Handling) → P db h → P (change t db) h)
      → Keeps (admin_exec change)
  admin_exec-Keeps change step c w p =
      after_admin_exec (λ r. P r.1.db r.1.handled) change c w (λ _. p)
        (λ t _. step t w.db w.handled p) (λ t _. step t w.db w.handled p)
