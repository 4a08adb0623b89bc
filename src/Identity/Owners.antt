-- ===== src/Identity/Owners.antt =====
-- The active owners of an organisation under the statements of internal/domain/identity/memberships.go.
pub mod Actions
pub mod Creation
pub mod Operations
pub mod Run
pub mod Runs
pub mod Reassignment
use seatd_v.Base.{
  ℕ, ◌≤◌, ◌≡◌, ◌⊎◌, refl, ap, subst, sym, arith, Bool, true, false, not, ◌&&◌, ◌||◌, ◌==◌,
  Bool-cases, inl, inr, String, Option, none, some, List, [], ◌∷◌, if◌then◌else◌, str_eq, find_row,
  find_key, has_row, is_some, update_rows, IsKeyed, update_rows-IsKeyed, count_rows,
  count_rows-update_rows_one, count_rows-update_rows_kept, count_rows-cons-le, find_row-narrower,
  find_row-find_key, find_row-test,
}
use seatd_v.Store.{
  Env, TxOn, Outcome, ok, err, ◌>>◌, handle, statement, after_statement, DbError, duplicate,
  violation,
}
use seatd_v.Identity.Schema.{Directory, MembershipRow}
use seatd_v.Identity.Transaction.{Error, Action, database}
use seatd_v.Identity.Queries.{
  ManagedMembership, memberships_of, with_memberships, is_location, is_membership, is_owner,
  is_active, owners, insert_membership, is_insertable, is_clash, is_role, organisation_owner,
}
use seatd_v.Identity.Updates.{update_memberships, lock_or_refuse}

-- Membership ids are unique, and the organisation has an active owner.
pub record HasOwner (organisation_id : ℕ) (db : Directory) : Type 0 where
  pub keyed : IsKeyed (λ m. m.id) db.organisation_memberships
  pub owned : 1 ≤ owners organisation_id db

inserted :
    {E X : Type 0} (refused allowed : Bool) (e e' : E) (x y : X)
    → ◌≡◌ {A = Outcome E X} (if refused then err e else if allowed then ok x else err e') (ok y)
    → (refused ≡ false) × (x ≡ y)
inserted true allowed e e' x y h = cc
inserted false true e e' x y h = (refl, cc)
inserted false false e e' x y h = cc

module _ (env : Env) (db : Directory) where
  update_returns :
      (scope : String) (test : MembershipRow → Bool) (change : ℕ → MembershipRow → MembershipRow)
      (db' : Directory)
      → update_memberships scope test change env db ≡ ok (tt, db')
      → with_memberships scope (update_rows test (change env.now) (memberships_of scope db)) db
        ≡ db'
  update_returns scope test change db' h = ground (arith, h)

  insert_returns :
      (scope : String) (row : ℕ → MembershipRow) (m : MembershipRow) (db' : Directory)
      → insert_membership scope row env db ≡ ok (m, db')
      → (has_row (is_clash scope (row env.now)) (memberships_of scope db) ≡ false)
        × (with_memberships scope (row env.now ∷ memberships_of scope db) db ≡ db')
  insert_returns scope row m db' h =
      let (fresh, same) =
        inserted (has_row (is_clash scope (row env.now)) (memberships_of scope db))
          (is_insertable (row env.now) db) duplicate violation _ _ h in
      (fresh, ap (λ p. p.1) same)

module _ (organisation_id : ℕ) where
  abbrev Has : Directory → Type 0
  Has = HasOwner organisation_id

  -- A change that leaves an owner: of another table, of a row beside another owner, or of a row that was no
  -- active owner or stays one.
  abbrev pub Safe : Bool → ℕ → (MembershipRow → MembershipRow) → Directory → Type 0
  Safe elsewhere id change db =
      (elsewhere ≡ true)
      ⊎ (2 ≤ owners organisation_id db)
      ⊎ ((row : MembershipRow) × (find_key (λ m. m.id) id db.organisation_memberships ≡ some row)
          × (is_owner organisation_id row ≡ true → is_owner organisation_id (change row) ≡ true))

  rows-HasOwner :
      (id : ℕ) (test : MembershipRow → Bool) (change : MembershipRow → MembershipRow)
      (db : Directory)
      → ((m : MembershipRow) → test m ≡ true → m.id ≡ id)
      → ((m : MembershipRow) → (change m).id ≡ m.id)
      → Safe false id change db
      → Has db
      → Has (record db {
        organisation_memberships = update_rows test change db.organisation_memberships;
      })
  rows-HasOwner id test change db pins same safe p = record {
    keyed = update_rows-IsKeyed (λ m. m.id) test change db.organisation_memberships same p.keyed;
    owned = left safe;
  }
    where
      left :
          Safe false id change db
          → 1
            ≤ count_rows
                (is_owner organisation_id)
                (update_rows test change db.organisation_memberships)
      left (inl h) = cc
      left (inr (inl h)) = omega (
        arith,
        h,
        count_rows-update_rows_one (is_owner organisation_id) test change (λ m. m.id) id pins
            db.organisation_memberships p.keyed,
      )
      left (inr (inr (row, stored, kept))) = omega (
        arith,
        p.owned,
        count_rows-update_rows_kept (is_owner organisation_id) test change (λ m. m.id) id pins
            db.organisation_memberships row p.keyed stored kept,
      )

  pub update_memberships-HasOwner :
      (scope : String) (id : ℕ) (test : MembershipRow → Bool)
      (change : ℕ → MembershipRow → MembershipRow) (env : Env) (db db' : Directory)
      → ((m : MembershipRow) → test m ≡ true → m.id ≡ id)
      → ((now : ℕ) (m : MembershipRow) → (change now m).id ≡ m.id)
      → Safe (is_location scope) id (change env.now) db
      → update_memberships scope test change env db ≡ ok (tt, db')
      → Has db
      → Has db'
  update_memberships-HasOwner scope id test change env db db' pins same safe h p =
      subst Has (update_returns env db scope test change db' h)
        (written (is_location scope) refl safe)
    where
      written :
          (b : Bool)
          → is_location scope ≡ b
          → Safe b id (change env.now) db
          → Has (
              with_memberships scope
                (update_rows test (change env.now) (memberships_of scope db))
                db)
      written true e safe = record { keyed = rw e p.keyed; owned = rw e p.owned }
      written false e safe =
          let q = rows-HasOwner id test (change env.now) db pins (same env.now) safe p in
          record { keyed = rw e q.keyed; owned = rw e q.owned }

  pub insert_membership-HasOwner :
      (scope : String) (row : ℕ → MembershipRow) (env : Env) (db : Directory) (m : MembershipRow)
      (db' : Directory)
      → insert_membership scope row env db ≡ ok (m, db')
      → Has db
      → Has db'
  insert_membership-HasOwner scope row env db m db' h p =
      let (fresh, written) = insert_returns env db scope row m db' h in
      subst Has written (elim (Bool-cases (is_location scope)) [
        | inl e ↦ record { keyed = rw e p.keyed; owned = rw e p.owned }
        | inr e ↦
            let rows = db.organisation_memberships in
            let here : memberships_of scope db ≡ rows = rw e refl in
            let fresh' =
              subst (λ xs. has_row (is_clash scope (row env.now)) xs ≡ false) here fresh in
            record {
              keyed = rw e (
                find_row-narrower (is_clash scope (row env.now)) (λ m. m.id == (row env.now).id)
                    rows (λ x h. ground arith) fresh',
                p.keyed,
              );
              owned = rw e (
                  omega (
                    arith,
                    p.owned,
                    count_rows-cons-le (is_owner organisation_id) (row env.now) rows,
                  ));
            }
      ])
