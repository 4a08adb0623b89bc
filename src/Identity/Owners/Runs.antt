-- ===== src/Identity/Owners/Runs.antt =====
-- What the steps of PlatformReassignOwnership of internal/domain/identity/memberships.go do on a connection
-- that holds.
use seatd_v.Base.{
  ℕ, suc, ◌≡◌, refl, sym, subst, ◌∙◌, arith, Bool, true, false, ◌&&◌, String, some, List,
  Bool-cases, inl, inr, find_row, find_key, has_row, is_some, IsKeyed, find_row-eq-none,
  find_key-eq_key, some_inj,
}
use seatd_v.Store.{Env, TxOn, DbError, Outcome, ok, ◌>>=◌, handle, select, statement}
use seatd_v.Identity.Schema.{Directory, Texts, UserProfile, MembershipRow}
use seatd_v.Identity.Transaction.{Error, Action, database, in_tx, in_platform_db_tx}
use seatd_v.Identity.Queries.{
  ManagedMembership, scan_managed_membership, profile_of, is_membership, is_active, is_profile_of,
  is_member_at, nullable_uuid, scope_organisation, lock_managed_membership,
  get_user_profile_by_email, get_membership_by_profile,
}
use seatd_v.Identity.Updates.{
  lock_or_refuse, disable_membership, update_memberships, disabled, is_active_membership,
}
use seatd_v.Identity.Memberships.{get_or_create_user_profile_by_email, profile_or_new}
use seatd_v.Identity.Ownership.{next_owner}

module _ (env : Env) (holds : (n : ℕ) → env.faults n ≡ false) where
  select_runs :
      {A B : Type 0} (f : Directory → A) (k : A → Action B) (t : TxOn Directory)
      → (handle database (select f) >>= k) env t ≡ k (f t.db) env (record t { sent = suc t.sent })
  unfolding select statement
  select_runs f k t = rw (holds t.sent) refl

  pub statement_runs :
      {A B : Type 0} (f : Env → Directory → Outcome DbError (A × Directory)) (k : A → Action B)
      (t : TxOn Directory) (a : A) (db : Directory)
      → f env t.db ≡ ok (a, db)
      → (handle database (statement f) >>= k) env t
        ≡ k a env (record t { db = db; sent = suc t.sent })
  unfolding statement
  statement_runs f k t a db h = rw (holds t.sent, h) refl

  pub lock_runs :
      {B : Type 0} {r : Outcome Error (B × TxOn Directory)} (tenant : ℕ) (id : ℕ)
      (k : ManagedMembership → Action B) (t : TxOn Directory) (row : MembershipRow)
      → find_row (is_membership tenant id) t.db.organisation_memberships ≡ some row
      → k
          (scan_managed_membership scope_organisation row (profile_of t.db row))
          env
          (record t { sent = suc t.sent })
        ≡ r
      → (lock_or_refuse tenant scope_organisation id >>= k) env t ≡ r
  unfolding lock_or_refuse lock_managed_membership select statement
  lock_runs tenant id k t row h rest = rw (holds t.sent, h) rest

  pub profile_runs :
      {B : Type 0} {r : Outcome Error (B × TxOn Directory)} (texts : Texts) (email name : String)
      (k : UserProfile → Action B) (t : TxOn Directory) (profile : UserProfile)
      → find_row (is_profile_of texts email) t.db.user_profiles ≡ some profile
      → k profile env (record t { sent = suc t.sent }) ≡ r
      → (get_or_create_user_profile_by_email texts email name >>= k) env t ≡ r
  unfolding get_or_create_user_profile_by_email get_user_profile_by_email profile_or_new select
      statement
  profile_runs texts email name k t profile h rest = rw (holds t.sent, h) rest

  pub platform_runs :
      {A : Type 0} (body : Action A) (db : Directory) (a : A) (u : TxOn Directory)
      → body env (record { db = db; sent = 2; drawn = 0 }) ≡ ok (a, u)
      → in_platform_db_tx body env db ≡ (ok a, u.db)
  unfolding in_platform_db_tx in_tx
  platform_runs body db a u h = rw (holds 0, holds 1, h, holds u.sent) refl

  pub disable_runs :
      {B : Type 0} {r : Outcome Error (B × TxOn Directory)} (tenant : ℕ) (id : ℕ)
      (k : ManagedMembership → Action B) (t : TxOn Directory) (db : Directory) (row : MembershipRow)
      → update_memberships scope_organisation (is_active_membership tenant id) disabled env t.db
        ≡ ok (tt, db)
      → find_row (is_membership tenant id) db.organisation_memberships ≡ some row
      → k
          (scan_managed_membership scope_organisation row (profile_of db row))
          env
          (record t { db = db; sent = suc (suc t.sent) })
        ≡ r
      → (disable_membership tenant scope_organisation id >>= k) env t ≡ r
  unfolding disable_membership lock_or_refuse lock_managed_membership select statement
  disable_runs tenant id k t db row h h' rest = rw (holds t.sent, h, holds (suc t.sent), h') rest

  pub next_runs :
      {B : Type 0} {r : Outcome Error (B × TxOn Directory)} (texts : Texts) (tenant : ℕ)
      (profile : UserProfile) (k : ManagedMembership → Action B) (t : TxOn Directory)
      (row : MembershipRow)
      → find_row
          (is_member_at scope_organisation tenant 0 (nullable_uuid profile.id) t.db)
          t.db.organisation_memberships
        ≡ some row
      → is_active row ≡ true
      → k
          (scan_managed_membership scope_organisation row (profile_of t.db row))
          env
          (record t { sent = suc (suc t.sent) })
        ≡ r
      → (handle database (get_membership_by_profile tenant scope_organisation 0 profile.id)
            >>= λ existing. next_owner texts tenant profile existing >>= k)
          env t
        ≡ r
  unfolding get_membership_by_profile next_owner select statement
  next_runs texts tenant profile k t row h active rest =
      let enabled : is_some row.disabled_at ≡ false = ground arith in
      rw (holds t.sent, h, enabled, holds (suc t.sent), h) rest

-- The row with an id is the only one that a test which pins the id passes.
pub pinned :
    (id : ℕ) (test P : MembershipRow → Bool) (rows : List MembershipRow) (row : MembershipRow)
    → IsKeyed (λ m. m.id) rows
    → find_key (λ m. m.id) id rows ≡ some row
    → ((m : MembershipRow) → test m ≡ true → m.id ≡ id)
    → P row ≡ false
    → has_row (λ m. test m && P m) rows ≡ false
pinned id test P rows row keyed stored pins fails =
    rw (find_row-eq-none (λ m. m.id) (λ m. test m && P m) rows none_passes keyed) refl
  where
    none_passes :
        (k : ℕ) (m : MembershipRow) → find_key (λ m. m.id) k rows ≡ some m → (test m && P m) ≡ false
    none_passes k m h = elim (Bool-cases (test m)) [
      | inl e ↦
          let same_key : k ≡ id = sym (find_key-eq_key (λ m. m.id) k rows m h) ∙ pins m e in
          let here = subst (λ k. find_key (λ m. m.id) k rows ≡ some m) same_key h in
          let same : row ≡ m = some_inj (sym stored ∙ here) in
          let fails' = subst (λ m. P m ≡ false) same fails in ground arith
      | inr e ↦ ground arith
    ]
