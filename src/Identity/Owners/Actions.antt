-- ===== src/Identity/Owners/Actions.antt =====
-- The active owners of an organisation under the steps that the operations of
-- internal/domain/identity/memberships.go share.
use seatd_v.Base.{
  ℕ, suc, ◌≤◌, ◌≡◌, refl, subst, sym, arith, Bool, true, false, not, ◌==◌, Bool-cases, inl, inr,
  String, Option, none, some, if◌then◌else◌, leb, find_row, find_key, find_row-find_key,
  find_row-test,
}
use seatd_v.Store.{
  after_refusal, Env, TxOn, ok, ◌>>◌, handle, statement, select, present, refuse_if,
  after_statement, after_select, pure_inv,
}
use seatd_v.Identity.Schema.{Directory, MembershipRow}
use seatd_v.Identity.Transaction.{database, not_found, validation}
use seatd_v.Identity.Queries.{
  valid_membership_scope, ManagedMembership, memberships_of, managed, is_location, is_membership,
  is_owner, owners, lock_managed_membership, count_organisation_owners,
  actor_has_organisation_permission, scope_organisation, scope_location,
}
use seatd_v.Identity.Updates.{update_memberships, lock_or_refuse}
use seatd_v.Identity.Memberships.{TenantActor, require_organisation_permission}
use seatd_v.Identity.Management.{require_another_organisation_owner, require_other_owner_if}
use seatd_v.Identity.Keeps.{
  Keeps, pure-Keeps, bind-Keeps, select-Keeps, refuse_if-Keeps, present-Keeps,
}
use seatd_v.Identity.Owners.{HasOwner, Safe, update_memberships-HasOwner}

-- A membership that was read from the rows
pub record IsLocked (organisation_id : ℕ) (scope : String) (id : ℕ) (m : ManagedMembership)
    (db : Directory) : Type 0 where
  pub row : MembershipRow
  pub found : find_row (is_membership organisation_id id) (memberships_of scope db) ≡ some row
  pub role : m.role ≡ row.role
  pub disabled_at : m.disabled_at ≡ row.disabled_at
  pub scope_kept : m.scope ≡ (if is_location scope then scope_location else scope_organisation)

module _ (P : Directory → Type 0) where
  pub lock_or_refuse-Keeps :
      (organisation_id : ℕ) (scope : String) (id : ℕ)
      → Keeps P (lock_or_refuse organisation_id scope id)
  unfolding lock_or_refuse lock_managed_membership
  lock_or_refuse-Keeps organisation_id scope id =
      bind-Keeps P _ _ (refuse_if-Keeps P (not (valid_membership_scope scope)) validation)
        (λ v. bind-Keeps P _ _ (select-Keeps P _) (λ row. present-Keeps P not_found row))

  pub require_organisation_permission-Keeps :
      (actor : TenantActor) (permission : String)
      → Keeps P (require_organisation_permission actor permission)
  unfolding require_organisation_permission actor_has_organisation_permission
  require_organisation_permission-Keeps actor permission =
      bind-Keeps P _ _ (select-Keeps P _) (λ allowed. refuse_if-Keeps P (not allowed) _)

  pub require_other_owner_if-Keeps :
      (b : Bool) (organisation_id : ℕ) → Keeps P (require_other_owner_if b organisation_id)
  unfolding require_another_organisation_owner count_organisation_owners
  require_other_owner_if-Keeps true organisation_id env t a u =
      bind-Keeps P (handle database (select (owners organisation_id)))
        (λ n. refuse_if (leb n 1) validation) (select-Keeps P (owners organisation_id))
        (λ n. refuse_if-Keeps P (leb n 1) validation) env t a u
  require_other_owner_if-Keeps false organisation_id env t a u = pure-Keeps P tt env t a u

pub lock_or_refuse-IsLocked :
    (organisation_id : ℕ) (scope : String) (id : ℕ) (env : Env) (t : TxOn Directory)
    (m : ManagedMembership) (u : TxOn Directory)
    → lock_or_refuse organisation_id scope id env t ≡ ok (m, u)
    → IsLocked organisation_id scope id m u.db
unfolding lock_or_refuse lock_managed_membership
lock_or_refuse-IsLocked organisation_id scope id env t m u h =
    after_refusal (not (valid_membership_scope scope)) validation _ env t h (λ valid h'.
      after_select database
        (λ db.
          managed scope db (find_row (is_membership organisation_id id) (memberships_of scope db)))
        (present not_found) env t h'
        (λ h''.
          locked (find_row (is_membership organisation_id id) (memberships_of scope t.db)) refl
            h''))
  where
    locked :
        (o : Option MembershipRow)
        → find_row (is_membership organisation_id id) (memberships_of scope t.db) ≡ o
        → present {D = Directory} not_found
            (managed scope t.db o)
            env
            (record t { sent = suc t.sent })
          ≡ ok (m, u)
        → IsLocked organisation_id scope id m u.db
    locked none e h = cc
    locked (some row) e h =
        let (same_m, same_u) = pure_inv h in
        subst (λ u. IsLocked organisation_id scope id m u.db) (sym same_u)
          (subst (λ m. IsLocked organisation_id scope id m t.db) (sym same_m)
            (record { row = row; found = e; role = refl; disabled_at = refl; scope_kept = refl }))

pub require_other_owner_inv :
    (b : Bool) (organisation_id : ℕ) (env : Env) (t : TxOn Directory) (a : Unit {0})
    (u : TxOn Directory)
    → require_other_owner_if b organisation_id env t ≡ ok (a, u)
    → b ≡ true
    → 2 ≤ owners organisation_id u.db
unfolding require_another_organisation_owner count_organisation_owners
require_other_owner_inv true organisation_id env t a u h e =
    after_select database (owners organisation_id) (λ n. refuse_if (leb n 1) validation) env t h
      (λ h'. counted (leb (owners organisation_id t.db) 1) refl h')
  where
    counted :
        (b : Bool)
        → leb (owners organisation_id t.db) 1 ≡ b
        → refuse_if b validation env (record t { sent = suc t.sent }) ≡ ok (a, u)
        → 2 ≤ owners organisation_id u.db
    counted true e h = cc
    counted false e h =
        subst (λ u. 2 ≤ owners organisation_id u.db) (sym (pure_inv h).1) (ground arith)
require_other_owner_inv false organisation_id env t a u h e = cc

module _ (organisation_id : ℕ) where
  abbrev Has : Directory → Type 0
  Has = HasOwner organisation_id

  -- An update of a membership, and the read that follows
  pub updating-HasOwner :
      (tenant : ℕ) (scope : String) (id : ℕ) (test : MembershipRow → Bool)
      (change : ℕ → MembershipRow → MembershipRow) (env : Env) (t : TxOn Directory)
      (m : ManagedMembership) (u : TxOn Directory)
      → ((m : MembershipRow) → test m ≡ true → m.id ≡ id)
      → ((now : ℕ) (m : MembershipRow) → (change now m).id ≡ m.id)
      → Safe organisation_id (is_location scope) id (change env.now) t.db
      → (handle database (statement (update_memberships scope test change))
            >> lock_or_refuse tenant scope id)
          env t
        ≡ ok (m, u)
      → Has t.db
      → Has u.db
  updating-HasOwner tenant scope id test change env t m u pins same safe h p =
      after_statement database (update_memberships scope test change)
        (λ _. lock_or_refuse tenant scope id) env t h
        (λ a db o h'.
          lock_or_refuse-Keeps Has tenant scope id env (record t { db = db; sent = suc t.sent }) m u
            h'
            (update_memberships-HasOwner organisation_id scope id test change env t.db db pins same
              safe o p))

  -- The change of a membership that was read, beside another owner where that is asked for
  pub locked-Safe :
      (tenant : ℕ) (scope : String) (id : ℕ) (m : ManagedMembership) (db : Directory)
      (change : MembershipRow → MembershipRow) (guarded : Bool)
      → IsLocked tenant scope id m db
      → Has db
      → (guarded ≡ true → 2 ≤ owners tenant db)
      → ((row : MembershipRow)
          → is_location scope ≡ false
          → row.role ≡ m.role
          → row.disabled_at ≡ m.disabled_at
          → guarded ≡ false
          → is_owner tenant row ≡ true
          → is_owner tenant (change row) ≡ true)
      → Safe organisation_id (is_location scope) id change db
  locked-Safe tenant scope id m db change guarded locked p guard kept =
      elim (Bool-cases (is_location scope)) [
        | inl e ↦ inl e
        | inr e ↦
            let row = locked.row in
            let here : memberships_of scope db ≡ db.organisation_memberships = rw e refl in
            let found =
              subst (λ rows. find_row (is_membership tenant id) rows ≡ some row) here
                locked.found in
            let passes =
              find_row-test (is_membership tenant id) db.organisation_memberships row found in
            let stored : find_key (λ m. m.id) id db.organisation_memberships ≡ some row =
              find_row-find_key (λ m. m.id) (is_membership tenant id) id db.organisation_memberships
                row (λ m h. ground arith) p.keyed found in
            let same_tenant : is_owner organisation_id row ≡ true → tenant ≡ organisation_id =
              λ w. ground arith in
            elim (Bool-cases guarded) [
              | inl g ↦ elim (Bool-cases (organisation_id == tenant)) [
                | inl s ↦
                    (let same_id : tenant ≡ organisation_id = ground arith in
                      inr (inl (subst (λ o. 2 ≤ owners o db) same_id (guard g))))
                | inr s ↦ inr (inr (row, stored, λ w. ground (arith, same_tenant w)))
              ]
              | inr g ↦ inr (
                  inr (
                    row,
                    stored,
                    λ w.
                        subst (λ o. is_owner o (change row) ≡ true) (same_tenant w)
                          (kept row e (sym locked.role) (sym locked.disabled_at) g
                            (subst (λ o. is_owner o row ≡ true) (sym (same_tenant w)) w)),
                  ))
            ]
      ]
