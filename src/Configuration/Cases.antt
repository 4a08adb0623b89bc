-- ===== src/Configuration/Cases.antt =====
-- How a write of a floor in internal/domain/configuration/service.go ends.
use seatd_v.Base.{
  ℕ, suc, ◌≡◌, refl, sym, ap, ◌∙◌, subst, Bool, true, false, not, ◌&&◌, ltb, String, Option, none,
  some, ◌∷◌, Bool-cases, inl, inr, if◌then◌else◌, has_row, find_row, update_rows, is_empty,
}
use seatd_v.Store.{
  Env, TxOn, DbError, violation, duplicate, Outcome, ok, err, ◌>>=◌, ◌>>◌, handle, statement,
  after_action, after_statement, after_select, present, pure_inv, map_error_inv, statement_returns,
  refuse_if,
}
use seatd_v.Identity.DeviceQueries.{is_located, is_permitted_at}
use seatd_v.Identity.Memberships.{TenantActor}
use seatd_v.Configuration.Transaction.{
  Floor, Layout, Error, forbidden, version_conflict, database, wrap_write_error, Action,
  in_tenant_tx, in_tenant_tx-cases, begun, Stands,
}
use seatd_v.Configuration.Queries.{
  FloorContent, insert_floor, new_floor, is_floor_clash, is_named, write_floor, written_floor,
  is_slug_taken, create_floor_row, actor_has_location_permission,
}
use seatd_v.Configuration.Floors.{require_permission, create_floor_in_tx, layout_write}

-- The permission is read, the rows stay.
permission_same :
    (actor : TenantActor) (permission : String) (env : Env) (t u : TxOn Layout)
    → require_permission actor permission env t ≡ ok (tt, u)
    → u.db ≡ t.db
unfolding require_permission actor_has_location_permission
permission_same actor permission env t u h =
    let allowed =
      is_permitted_at actor.organisation_id actor.location_id actor.actor_ref permission
        t.db.directory in
    after_select database
      (λ db.
        is_permitted_at actor.organisation_id actor.location_id actor.actor_ref permission
          db.directory)
      _ env t h (λ h. passed allowed h)
  where
    passed :
        (allowed : Bool)
        → refuse_if (not allowed) forbidden env (record t { sent = suc t.sent }) ≡ ok (tt, u)
        → u.db ≡ t.db
    passed true h = cc
    passed false h = cc

written_inv :
    (test : Floor → Bool) (change : Floor → Floor) (db : Layout) (o : Option Floor) (f : Floor)
    (db' : Layout)
    → written_floor test change db o ≡ ok (some f, db')
    → (r : Floor) × (o ≡ some r)
      × (f ≡ change r)
      × (db' ≡ record db { floors = update_rows test change db.floors })
written_inv test change db none f db' h = cc
written_inv test change db (some r) f db' h = elim (Bool-cases (is_slug_taken (change r) db)) [
  | inl e ↦ (let clash = rw e at h in cc)
  | inr e ↦
      let storable =
        ltb r.version 2147483647
        && not (is_empty (change r).slug)
        && not (is_empty (change r).name) in
      elim (Bool-cases storable) [
        | inl s ↦ (let wrote = rw (e, s) at h in (r, refl, cc, cc))
        | inr s ↦ (let refused = rw (e, s) at h in cc)
      ]
]

inserted_inv :
    (clash storable : Bool) (f g : Floor) (after db' : Layout)
    → ◌≡◌ {A = Outcome DbError (Floor × Layout)}
        (if clash then err duplicate else if storable then ok (f, after) else err violation)
        (ok (g, db'))
    → (clash ≡ false) × (g ≡ f) × (db' ≡ after)
inserted_inv true storable f g after db' h = cc
inserted_inv false true f g after db' h = (refl, cc, cc)
inserted_inv false false f g after db' h = cc

-- A transaction that asks for the permission and writes a floor
module _ (P : Outcome Error Floor × Layout → Type 0) (env : Env) (db : Layout)
    (failed : (e : Error) → P (err e, db)) (actor : TenantActor) where
  permitted_cases :
      (rest : Action Floor)
      → ((t u : TxOn Layout) (f : Floor) → t.db ≡ db → rest env t ≡ ok (f, u) → Stands P env f u.db)
      → P (in_tenant_tx (require_permission actor layout_write >> rest) env db)
  permitted_cases rest returned =
      in_tenant_tx-cases P env db failed (require_permission actor layout_write >> rest) (λ f u h.
        after_action (require_permission actor layout_write) _ env (begun db) h (λ _ t asked h.
          returned t u f (permission_same actor layout_write env (begun db) t asked) h))

  pub write-cases :
      (test : Floor → Bool) (change : ℕ → Floor → Floor)
      → ((r : Floor)
          → find_row test db.floors ≡ some r
          → Stands P env
              (change env.now r)
              (record db { floors = update_rows test (change env.now) db.floors }))
      → P (
          in_tenant_tx
            (require_permission actor layout_write
              >> (handle wrap_write_error (statement (write_floor test change))
                  >>= present version_conflict))
            env
            db)
  write-cases test change wrote = permitted_cases _ (λ t u f same h.
      after_statement wrap_write_error (write_floor test change) _ env t h (λ o db1 answered h.
        let t1 : TxOn Layout = record t { db = db1; sent = suc t.sent } in
        written o t1 u f h
          (subst (λ d. write_floor test change env d ≡ ok (o, db1)) same answered)))
    where
      written :
          (o : Option Floor) (t u : TxOn Layout) (f : Floor)
          → present version_conflict o env t ≡ ok (f, u)
          → write_floor test change env db ≡ ok (o, t.db)
          → Stands P env f u.db
      written none t u f h answered = cc
      written (some g) t u f h answered =
          let (r, found, made, left) =
            written_inv test (change env.now) db (find_row test db.floors) g t.db answered in
          let (own, stays) = pure_inv h in
          let value : f ≡ change env.now r = own ∙ made in
          let rows : u.db ≡ record db { floors = update_rows test (change env.now) db.floors } =
            ap (λ t. t.db) stays ∙ left in
          subst (λ d. Stands P env f d) (sym rows)
            (subst
              (λ f.
                Stands P env f (record db { floors = update_rows test (change env.now) db.floors }))
              (sym value) (wrote r found))

  module _ (content : FloorContent) where
    abbrev made : ℕ → Floor
    made id = new_floor actor.organisation_id actor.location_id content id env.now

    pub insert-cases :
        ((id : ℕ)
          → has_row (is_floor_clash (made id)) db.floors ≡ false
          → Stands P env (made id) (record db { floors = made id ∷ db.floors }))
        → P (in_tenant_tx (create_floor_in_tx actor content) env db)
    unfolding create_floor_in_tx create_floor_row
    insert-cases inserted = permitted_cases _ (λ t u f same h.
        let id = env.ids t.drawn in
        let insert = insert_floor actor.organisation_id actor.location_id content id in
        let drawn : TxOn Layout = record t { drawn = suc t.drawn } in
        let wrote =
          statement_returns insert env drawn
            (map_error_inv wrap_write_error (statement insert env drawn) h) in
        let here = subst (λ d. insert env d ≡ ok (f, u.db)) same wrote in
        let (free, own, left) =
          inserted_inv (has_row (is_floor_clash (made id)) db.floors)
            (is_located actor.organisation_id (some actor.location_id) db.directory
              && is_named content)
            (made id) f (record db { floors = made id ∷ db.floors }) u.db here in
        subst (λ d. Stands P env f d) (sym left)
          (subst (λ f. Stands P env f (record db { floors = made id ∷ db.floors })) (sym own)
            (inserted id free)))
