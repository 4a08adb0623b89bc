-- ===== src/Configuration/Stale.antt =====
-- Versions of floors over sequences of calls of internal/domain/configuration/service.go.
use seatd_v.Base.{
  ℕ, suc, ◌≡◌, ◌≤◌, ◌<◌, refl, sym, ap, ◌∙◌, subst, arith, Bool, true, false, ◌||◌, ◌==◌, not,
  Option, none, some, List, [], ◌∷◌, Bool-cases, inl, inr, if◌then◌else◌, has_row, find_row,
  find_key, find_row-narrower, update_rows, IsKeyed, update_rows-IsKeyed, find_key-update_rows,
}
use mathlib.Core.Option
use seatd_v.Store.{Env, Outcome, ok, err, is_ok}
use seatd_v.Configuration.Transaction.{Floor, Layout, Error, in_tenant_tx}
use seatd_v.Configuration.Queries.{
  FloorContent, is_floor_at, edited, set_active, is_floor_clash, update_floor_row,
  archive_floor_row, restore_floor_row,
}
use seatd_v.Configuration.Floors.{
  Formats, Call, create, update, change_active, answer, run, floor_content, create_floor,
  create_with, update_floor, update_with, update_floor_in_tx, change_floor_active,
  change_active_in_tx, is_valid_actor,
}
use seatd_v.Configuration.Cases.{write-cases, insert-cases}
use seatd_v.Configuration.Register.{
  Sheet, Register, view, register_of, Contract, Meets, answer-Meets, IsSwapped,
}

-- The floor and the version that a call names
abbrev pub target : Call → Option (ℕ × ℕ)
target (create arg) = none
target (update arg) = some (arg.id, arg.expected_version)
target (change_active actor id expected_version active) = some (id, expected_version)

abbrev VersionAt : ℕ → ℕ → Layout → Type 0
VersionAt id v db = (s : Sheet) × (view id db ≡ some (record { version = v; sheet = s }))

swap-versions :
    (k n : ℕ) (change : Sheet → Sheet) (before after : Layout) (id v : ℕ)
    → IsSwapped k n change before after
    → k ≡ id
    → n ≡ v
    → VersionAt id v before × VersionAt id (suc v) after
swap-versions k n change before after id v swap same version =
    subst (λ id. VersionAt id v before × VersionAt id (suc v) after) same
      (subst (λ v. VersionAt k v before × VersionAt k (suc v) after) version
        ((swap.old, swap.had), (change swap.old, swap.has)))

named_versions :
    (formats : Formats) (call : Call) (before after : Layout) (id v : ℕ)
    → target call ≡ some (id, v)
    → Contract formats call before after
    → VersionAt id v before × VersionAt id (suc v) after
named_versions formats (create arg) before after id v h c = cc
named_versions formats (update arg) before after id v h (content, e, swap) =
    let same : arg.id ≡ id = cc in
    let version : arg.expected_version ≡ v = cc in
    swap-versions arg.id arg.expected_version _ before after id v swap same version
named_versions formats (change_active actor k n active) before after id v h swap =
    let same : k ≡ id = cc in
    let version : n ≡ v = cc in swap-versions k n _ before after id v swap same version

-- The version of a floor is beyond one, and the ids are unique.
abbrev IsBeyond : ℕ → ℕ → Layout → Type 0
IsBeyond id n db =
    IsKeyed (λ f. f.id) db.floors
    × ((f : Floor) × (find_key (λ f. f.id) id db.floors ≡ some f) × (n < f.version))

update-IsBeyond :
    (id n : ℕ) (db : Layout) (test : Floor → Bool) (change : Floor → Floor)
    → ((x : Floor) → (change x).id ≡ x.id)
    → ((x : Floor) → (change x).version ≡ suc x.version)
    → IsBeyond id n db
    → IsBeyond id n (record db { floors = update_rows test change db.floors })
update-IsBeyond id n db test change keeps grows (keyed, (f, e, more)) =
    (update_rows-IsKeyed (λ f. f.id) test change db.floors keeps keyed, moved (test f) refl)
  where
    found :
        find_key (λ f. f.id) id (update_rows test change db.floors)
        ≡ Option.map (λ x. if test x then change x else x) (some f)
    found =
        find_key-update_rows (λ f. f.id) test change id db.floors keeps
        ∙ ap (Option.map (λ x. if test x then change x else x)) e

    moved :
        (b : Bool)
        → test f ≡ b
        → (g : Floor) × (find_key (λ f. f.id) id (update_rows test change db.floors) ≡ some g)
          × (n < g.version)
    moved true reached = (change f, found ∙ rw reached refl, rw (grows f) (omega (arith, more)))
    moved false reached = (f, found ∙ rw reached refl, more)

insert-IsBeyond :
    (id n : ℕ) (db : Layout) (floor : Floor)
    → has_row (is_floor_clash floor) db.floors ≡ false
    → IsBeyond id n db
    → IsBeyond id n (record db { floors = floor ∷ db.floors })
unfolding find_row
insert-IsBeyond id n db floor free (keyed, (f, e, more)) = elim (Bool-cases (floor.id == id)) [
  | inl same ↦
      let own : floor.id ≡ id = ground arith in
      let there : find_key (λ f. f.id) floor.id db.floors ≡ some f =
        subst (λ k. find_key (λ f. f.id) k db.floors ≡ some f) (sym own) e in
      let missing = absent in cc
  | inr other ↦ ((absent, keyed), (f, rw other e, more))
]
  where
    absent : find_key (λ f. f.id) floor.id db.floors ≡ none
    absent =
        find_row-narrower (is_floor_clash floor) (λ f. f.id == floor.id) db.floors
          (λ x h. ground arith) free

-- What updates that increment the version and insertions of new floors keep, all calls keep.
module _ (formats : Formats) (P : Layout → Type 0)
    (update_kept : (db : Layout) (test : Floor → Bool) (change : Floor → Floor)
      → ((x : Floor) → (change x).id ≡ x.id)
      → ((x : Floor) → (change x).version ≡ suc x.version)
      → P db
      → P (record db { floors = update_rows test change db.floors }))
    (insert_kept : (db : Layout) (floor : Floor)
      → has_row (is_floor_clash floor) db.floors ≡ false
      → P db
      → P (record db { floors = floor ∷ db.floors })) where
  abbrev Stays : {A : Type 0} → Outcome Error A × Layout → Type 0
  Stays r = P r.1

  both : {X Y : Type 0} → X → X × (Y → X)
  both p = (p, λ _. p)

  answer_kept : (env : Env) (call : Call) (db : Layout) → P db → P (answer formats env call db).1
  unfolding answer create_floor update_floor change_floor_active update_floor_in_tx update_floor_row
      change_active_in_tx restore_floor_row archive_floor_row
  answer_kept env (create arg) db p = created (floor_content formats arg)
    where
      created : (o : Option FloorContent) → P (create_with arg.actor env o db).1
      created none = p
      created (some c) =
          insert-cases Stays env db (λ e. p) arg.actor c (λ k free. both (insert_kept db _ free p))
  answer_kept env (update arg) db p = updated (floor_content formats arg)
    where
      updated : (o : Option FloorContent) → P (update_with arg env o db).1
      updated none = p
      updated (some c) = elim (Bool-cases (arg.id == 0 || arg.expected_version == 0)) [
        | inl e ↦ rw e p
        | inr e ↦ rw e (
            write-cases Stays env db (λ e. p) arg.actor
              (is_floor_at arg.id arg.actor.organisation_id arg.actor.location_id
                arg.expected_version)
              (edited c)
              (λ r found. both (update_kept db _ (edited c env.now) (λ x. refl) (λ x. refl) p)))
      ]
  answer_kept env (change_active actor k v active) db p =
      elim (Bool-cases (not (is_valid_actor formats actor) || k == 0 || v == 0)) [
        | inl e ↦ rw e p
        | inr e ↦ rw e (changed active)
      ]
    where
      changed : (b : Bool) → P (in_tenant_tx (change_active_in_tx actor k v b) env db).1
      changed true =
          write-cases Stays env db (λ e. p) actor
            (is_floor_at k actor.organisation_id actor.location_id v) (set_active true)
            (λ r found. both (update_kept db _ (set_active true env.now) (λ x. refl) (λ x. refl) p))
      changed false =
          write-cases Stays env db (λ e. p) actor
            (is_floor_at k actor.organisation_id actor.location_id v) (set_active false)
            (λ r found.
              both (update_kept db _ (set_active false env.now) (λ x. refl) (λ x. refl) p))

  run_kept : (calls : List (Env × Call)) (db : Layout) → P db → P (run formats calls db)
  unfolding run
  run_kept [] db p = p
  run_kept ((env, call) ∷ calls) db p =
      run_kept calls (answer formats env call db).1 (answer_kept env call db p)

insert-IsKeyed :
    (db : Layout) (floor : Floor)
    → has_row (is_floor_clash floor) db.floors ≡ false
    → IsKeyed (λ f. f.id) db.floors
    → IsKeyed (λ f. f.id) (floor ∷ db.floors)
insert-IsKeyed db floor free keyed = (
  find_row-narrower (is_floor_clash floor) (λ f. f.id == floor.id) db.floors (λ x h. ground arith)
      free,
  keyed,
)

module _ (formats : Formats) (env : Env) (call : Call) (db : Layout)
    (keyed : IsKeyed (λ f. f.id) db.floors) where
  -- A call that names a version and returns finds that version.
  versions_named :
      (f : Floor) (after : Layout) (id v : ℕ)
      → answer formats env call db ≡ (ok f, after)
      → target call ≡ some (id, v)
      → VersionAt id v db × VersionAt id (suc v) after
  versions_named f after id v h named =
      named_versions formats call db after id v named
        (subst (Meets formats env call db) h (answer-Meets formats env db keyed call))

  answer-IsKeyed : IsKeyed (λ f. f.id) (answer formats env call db).1.floors
  answer-IsKeyed =
      answer_kept formats (λ db. IsKeyed (λ f. f.id) db.floors)
        (λ db test change keeps grows. update_rows-IsKeyed (λ f. f.id) test change db.floors keeps)
        insert-IsKeyed env call db keyed

  answered-IsBeyond :
      (f : Floor) (after : Layout) (id n : ℕ)
      → answer formats env call db ≡ (ok f, after)
      → target call ≡ some (id, n)
      → IsBeyond id n after
  answered-IsBeyond f after id n h named = (
    subst (λ r. IsKeyed (λ f. f.id) r.1.floors) h answer-IsKeyed,
    beyond (find_key (λ f. f.id) id after.floors) refl (versions_named f after id n h named).1,
  )
    where
      beyond :
          (o : Option Floor)
          → find_key (λ f. f.id) id after.floors ≡ o
          → VersionAt id (suc n) after
          → (f : Floor) × (find_key (λ f. f.id) id after.floors ≡ some f) × (n < f.version)
      beyond none e (s, has) = (let absent = rw e at has in cc)
      beyond (some g) e (s, has) =
          let same : ◌≡◌ {A = Option Register} (some (register_of g))
              (some (record { version = suc n; sheet = s })) =
            rw e at has in
          let version : g.version ≡ suc n = cc in (g, e, omega (arith, version))

  beyond_fails :
      (id n m : ℕ)
      → IsBeyond id n db
      → target call ≡ some (id, m)
      → m ≤ n
      → is_ok (answer formats env call db).0 ≡ false
  beyond_fails id n m (unique, (f, e, more)) named less = stopped (answer formats env call db) refl
    where
      stopped :
          (r : Outcome Error Floor × Layout) → answer formats env call db ≡ r → is_ok r.0 ≡ false
      stopped (err e, after) h = refl
      stopped (ok g, after) h =
          let (s, had) = (versions_named g after id m h named).0 in
          let same : ◌≡◌ {A = Option Register} (some (register_of f))
              (some (record { version = m; sheet = s })) =
            rw e at had in
          let version : f.version ≡ m = cc in ground (arith, version, more, less)

-- Once a call that names a version of a floor returned, ids being unique, every later call that names that
-- version or an earlier one of that floor fails, whatever calls came between, over any connections.
pub stale_call-fails :
    (formats : Formats) (env : Env) (call : Call) (db : Layout) (floor : Floor) (after : Layout)
    (id n : ℕ)
    → IsKeyed (λ f. f.id) db.floors
    → answer formats env call db ≡ (ok floor, after)
    → target call ≡ some (id, n)
    → (calls : List (Env × Call)) (later : Env) (stale : Call) (m : ℕ) → target stale ≡ some (id, m)
    → m ≤ n
    → is_ok (answer formats later stale (run formats calls after)).0 ≡ false
stale_call-fails formats env call db floor after id n keyed h named calls later stale m stale_named
      less =
    let start = answered-IsBeyond formats env call db keyed floor after id n h named in
    let beyond =
      run_kept formats (IsBeyond id n) (update-IsBeyond id n) (insert-IsBeyond id n) calls after
        start in
    beyond_fails formats later stale (run formats calls after) beyond.0 id n m beyond stale_named
      less
