-- ===== src/Configuration/Register.antt =====
-- The floors of internal/domain/configuration/service.go as registers with versions, and the contract of the
-- calls on them.
use seatd_v.Base.{
  ℕ, suc, ◌≡◌, refl, ap, ◌∙◌, arith, ◌⊎◌, inl, inr, Bool, true, false, not, ◌||◌, ◌==◌, Option,
  none, some, ◌∷◌, Bool-cases, Option-cases, has_row, find_row, find_key, update_rows, IsKeyed,
  find_row-find_key, find_row-test, find_key-update_rows, find_key-eq_key, find_row-narrower,
}
use mathlib.Core.Option
use seatd_v.Store.{Env, Outcome, ok, err, fault}
use seatd_v.Identity.Memberships.{TenantActor}
use seatd_v.Configuration.Transaction.{Floor, Layout, Error, database, in_tenant_tx, Stands}
use seatd_v.Configuration.Queries.{
  FloorContent, is_floor_at, edited, set_active, is_floor_clash, new_floor, update_floor_row,
  archive_floor_row, restore_floor_row,
}
use seatd_v.Configuration.Floors.{
  Formats, UpsertFloorParams, Call, create, update, change_active, answer, floor_content,
  create_floor, create_with, update_floor, update_with, update_floor_in_tx, change_floor_active,
  change_active_in_tx, is_valid_actor,
}
use seatd_v.Configuration.Cases.{write-cases, insert-cases}

pub record Sheet : Type 0 where
  pub content : FloorContent
  pub is_active : Bool

pub record Register : Type 0 where
  pub version : ℕ
  pub sheet : Sheet

abbrev pub register_of : Floor → Register
register_of f = record {
  version = f.version;
  sheet = record {
    content = record {
      slug = f.slug;
      name = f.name;
      sort_order = f.sort_order;
      canvas = f.canvas;
      background_asset_ref = f.background_asset_ref;
    };
    is_active = f.is_active;
  };
}

-- The register of a floor, none where there is no floor with that id
abbrev pub view : ℕ → Layout → Option Register
view id db = Option.map register_of (find_key (λ f. f.id) id db.floors)

abbrev pub SameOthers : ℕ → Layout → Layout → Type 0
SameOthers id before after = (k : ℕ) → (k == id) ≡ false → view k after ≡ view k before

-- A compare-and-set: the register had the version that the caller named, it has the next one and the
-- sheet that the change makes, and the others stay.
pub record IsSwapped (id expected : ℕ) (change : Sheet → Sheet) (before after : Layout)
    : Type 0 where
  pub old : Sheet
  pub had : view id before ≡ some (record { version = expected; sheet = old })
  pub has : view id after ≡ some (record { version = suc expected; sheet = change old })
  pub others : SameOthers id before after

-- A register that was not there begins with version 1, active.
pub record IsOpened (sheet : Sheet) (before after : Layout) : Type 0 where
  pub id : ℕ
  pub had : view id before ≡ none
  pub has : view id after ≡ some (record { version = 1; sheet = sheet })
  pub others : SameOthers id before after

abbrev pub with_content : FloorContent → Sheet → Sheet
with_content content s = record s { content = content }

abbrev pub with_active : Bool → Sheet → Sheet
with_active active s = record s { is_active = active }

-- What the abstract registers do on a call that returns a floor; the content of invalid parameters is
-- none.
abbrev pub Contract : Formats → Call → Layout → Layout → Type 0
Contract formats (create arg) before after =
    (c : FloorContent) × (floor_content formats arg ≡ some c)
    × IsOpened (record { content = c; is_active = true }) before after
Contract formats (update arg) before after =
    (c : FloorContent) × (floor_content formats arg ≡ some c)
    × IsSwapped arg.id arg.expected_version (with_content c) before after
Contract formats (change_active actor id expected_version active) before after =
    IsSwapped id expected_version (with_active active) before after

-- A call that returns an error leaves the rows; or the server committed, the answer to COMMIT was lost,
-- and the error is that of the connection.
abbrev pub Meets : Formats → Env → Call → Layout → Outcome Error Floor × Layout → Type 0
Meets formats env call before (err e, after) =
    (after ≡ before)
    ⊎ ((env.commit_applied ≡ true) × (e ≡ database fault) × Contract formats call before after)
Meets formats env call before (ok f, after) = Contract formats call before after

stands :
    (formats : Formats) (env : Env) (call : Call) (before : Layout) (f : Floor) (after : Layout)
    → Contract formats call before after
    → Stands (Meets formats env call before) env f after
stands formats env call before f after c = (c, λ applied. inr (applied, refl, c))

module _ (id organisation_id location_id version : ℕ) (change : Floor → Floor) (db : Layout)
    (r : Floor) (keyed : IsKeyed (λ f. f.id) db.floors) (keeps : (x : Floor) → (change x).id ≡ x.id)
    (found : find_row (is_floor_at id organisation_id location_id version) db.floors ≡ some r) where
  abbrev test : Floor → Bool
  test = is_floor_at id organisation_id location_id version

  abbrev after : Layout
  after = record db { floors = update_rows test change db.floors }

  stored : find_key (λ f. f.id) id db.floors ≡ some r
  stored = find_row-find_key (λ f. f.id) test id db.floors r (λ x h. ground arith) keyed found

  passes : test r ≡ true
  passes = find_row-test test db.floors r found

  swapped : find_key (λ f. f.id) id (update_rows test change db.floors) ≡ some (change r)
  swapped =
      let moved = find_key-update_rows (λ f. f.id) test change id db.floors keeps in
      let reached = passes in moved ∙ rw (stored, reached) refl

  others_stay : SameOthers id db after
  others_stay k other = elim (Option-cases (find_key (λ f. f.id) k db.floors)) [
    | inl e ↦
        let moved = find_key-update_rows (λ f. f.id) test change k db.floors keeps in
        rw (moved, e) refl
    | inr (x, e) ↦
        let moved = find_key-update_rows (λ f. f.id) test change k db.floors keeps in
        let named = find_key-eq_key (λ f. f.id) k db.floors x e in
        let passed_over : test x ≡ false = ground (arith, named) in rw (moved, e, passed_over) refl
  ]

  same_version : r.version ≡ version
  same_version = let reached = passes in ground arith

  update-IsSwapped :
      (c : Sheet → Sheet)
      → register_of (change r) ≡ record { version = suc r.version; sheet = c (register_of r).sheet }
      → IsSwapped id version c db after
  update-IsSwapped c moved = record {
    old = (register_of r).sheet;
    had = rw (stored, same_version) refl;
    has =
        ap (Option.map register_of) swapped
        ∙ ap some moved
        ∙ ap (λ n. some (record { version = suc n; sheet = c (register_of r).sheet })) same_version;
    others = others_stay;
  }

-- A floor is inserted whose id no floor has.
module _ (db : Layout) (floor : Floor) (content : FloorContent)
    (free : has_row (is_floor_clash floor) db.floors ≡ false) where
  absent : find_key (λ f. f.id) floor.id db.floors ≡ none
  absent =
      find_row-narrower (is_floor_clash floor) (λ f. f.id == floor.id) db.floors
        (λ x h. ground arith) free

  insert-IsOpened :
      (sheet : Sheet)
      → register_of floor ≡ record { version = 1; sheet = sheet }
      → IsOpened sheet db (record db { floors = floor ∷ db.floors })
  unfolding find_row
  insert-IsOpened sheet as_made = record {
    id = floor.id;
    had = rw absent refl;
    has = rw (own_id floor.id) (ap some as_made);
    others = λ k other. rw (apart k other) refl;
  }
    where
      own_id : (n : ℕ) → (n == n) ≡ true
      own_id n = ground arith

      apart : (k : ℕ) → (k == floor.id) ≡ false → (floor.id == k) ≡ false
      apart k other = ground arith

module _ (formats : Formats) (env : Env) (db : Layout) (keyed : IsKeyed (λ f. f.id) db.floors) where
  create-Meets :
      (arg : UpsertFloorParams) (o : Option FloorContent)
      → floor_content formats arg ≡ o
      → Meets formats env (create arg) db (create_with arg.actor env o db)
  create-Meets arg none e = inl refl
  create-Meets arg (some c) e =
      insert-cases (Meets formats env (create arg) db) env db (λ e. inl refl) arg.actor c
        (λ id free.
          stands formats env (create arg) db
            (new_floor arg.actor.organisation_id arg.actor.location_id c id env.now) _
            (c, e, insert-IsOpened db _ c free (record { content = c; is_active = true }) refl))

  update-Meets :
      (arg : UpsertFloorParams) (o : Option FloorContent)
      → floor_content formats arg ≡ o
      → Meets formats env (update arg) db (update_with arg env o db)
  unfolding update_floor_in_tx update_floor_row
  update-Meets arg none e = inl refl
  update-Meets arg (some c) e = elim (Bool-cases (arg.id == 0 || arg.expected_version == 0)) [
    | inl invalid ↦ rw invalid (inl refl)
    | inr valid ↦ rw valid (
        write-cases (Meets formats env (update arg) db) env db (λ e. inl refl) arg.actor
          (is_floor_at arg.id arg.actor.organisation_id arg.actor.location_id arg.expected_version)
          (edited c)
          (λ r found. stands formats env (update arg) db (edited c env.now r) _ (
            c,
            e,
            update-IsSwapped arg.id arg.actor.organisation_id arg.actor.location_id
                arg.expected_version (edited c env.now) db r keyed (λ x. refl) found
                (with_content c) refl,
          )))
  ]

  change-Meets :
      (actor : TenantActor) (id expected_version : ℕ) (active : Bool)
      → Meets formats env
          (change_active actor id expected_version active)
          db
          (in_tenant_tx (change_active_in_tx actor id expected_version active) env db)
  unfolding change_active_in_tx restore_floor_row archive_floor_row
  change-Meets actor id expected_version true =
      write-cases (Meets formats env (change_active actor id expected_version true) db) env db
        (λ e. inl refl) actor
        (is_floor_at id actor.organisation_id actor.location_id expected_version) (set_active true)
        (λ r found.
          stands formats env (change_active actor id expected_version true) db
            (set_active true env.now r) _
            (update-IsSwapped id actor.organisation_id actor.location_id expected_version
              (set_active true env.now) db r keyed (λ x. refl) found (with_active true) refl))
  change-Meets actor id expected_version false =
      write-cases (Meets formats env (change_active actor id expected_version false) db) env db
        (λ e. inl refl) actor
        (is_floor_at id actor.organisation_id actor.location_id expected_version) (set_active false)
        (λ r found.
          stands formats env (change_active actor id expected_version false) db
            (set_active false env.now r) _
            (update-IsSwapped id actor.organisation_id actor.location_id expected_version
              (set_active false env.now) db r keyed (λ x. refl) found (with_active false) refl))

  -- Where ids are unique, creating, updating, archiving and restoring floors refines registers with
  -- versions. A call that returns a floor was a compare-and-set of one register: it had the version that
  -- the caller named, and has the next one with the caller's content or state; a created one is new,
  -- with version 1 and active. All other registers stay. A call that returns an error changes nothing,
  -- except that a call whose COMMIT took effect while its answer was lost returns the connection's
  -- error and has kept the same contract.
  pub answer-Meets : (call : Call) → Meets formats env call db (answer formats env call db)
  unfolding answer create_floor update_floor change_floor_active
  answer-Meets (create arg) = create-Meets arg (floor_content formats arg) refl
  answer-Meets (update arg) = update-Meets arg (floor_content formats arg) refl
  answer-Meets (change_active actor id expected_version active) =
      elim (Bool-cases (not (is_valid_actor formats actor) || id == 0 || expected_version == 0)) [
        | inl invalid ↦ rw invalid (inl refl)
        | inr valid ↦ rw valid (change-Meets actor id expected_version active)
      ]
