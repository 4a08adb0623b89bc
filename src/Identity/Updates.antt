-- ===== src/Identity/Updates.antt =====
-- The statements of internal/domain/identity/memberships.go that change a membership or add an audit
-- event, and the reads that follow them.
use seatd_v.Base.{
  ℕ, Bool, not, ◌&&◌, ◌||◌, ◌==◌, String, Option, none, some, List, ◌∷◌, if◌then◌else◌, is_empty,
  is_some, holds, has_row, update_rows,
}
use seatd_v.Store.{
  Env, DbError, violation, duplicate, Outcome, ok, err, ◌>>=◌, ◌>>◌, new_id, handle, statement,
  present, refuse_if,
}
use seatd_v.Identity.Schema.{Directory, MembershipRow, AuditEvent, Entry}
use seatd_v.Identity.Transaction.{database, Action, not_found, validation}
use seatd_v.Identity.Queries.{
  Query, ManagedMembership, lock_managed_membership, memberships_of, with_memberships,
  is_membership, is_active, is_clash, is_role, valid_membership_scope,
}

-- UPDATE … SET change WHERE test, with the foreign key of the role and the unique indexes
abbrev pub update_memberships :
    String
    → (MembershipRow → Bool)
    → (ℕ → MembershipRow → MembershipRow)
    → Env
    → Directory
    → Outcome DbError (Unit {0} × Directory)
update_memberships scope test change env db =
    if has_row
      (λ m.
        test m
        && has_row (λ x. not (x.id == m.id) && is_clash scope (change env.now m) x)
            (memberships_of scope db))
      (memberships_of scope db)
    then err duplicate
    else if has_row (λ m. test m && not (is_role (change env.now m).role db))
        (memberships_of scope db)
    then err violation
    else ok (
      tt,
      with_memberships scope (update_rows test (change env.now) (memberships_of scope db)) db,
    )

abbrev pub role_changed : String → ℕ → MembershipRow → MembershipRow
role_changed role now m = record m { role = role; updated_at = now }

abbrev pub enabled_as : String → ℕ → MembershipRow → MembershipRow
enabled_as role now m = record m { role = role; disabled_at = none; updated_at = now }

abbrev pub disabled : ℕ → MembershipRow → MembershipRow
disabled now m = record m { disabled_at = some now; updated_at = now }

abbrev pub is_active_membership : ℕ → ℕ → MembershipRow → Bool
is_active_membership organisation_id id m = is_membership organisation_id id m && is_active m

-- The row, with ErrValidation of another scope and ErrNotFound of scanManagedMembership
unfoldable pub lock_or_refuse : ℕ → String → ℕ → Action ManagedMembership
unfolding lock_managed_membership
lock_or_refuse organisation_id scope id = do
  refuse_if (not (valid_membership_scope scope)) validation
  row ← handle database (lock_managed_membership organisation_id scope id)
  present not_found row

module _ (organisation_id : ℕ) (scope : String) (id : ℕ) where
  -- updateMembershipRole
  unfoldable pub update_membership_role : String → Action ManagedMembership
  unfolding statement lock_or_refuse
  update_membership_role role = do
    handle database (
        statement
          (update_memberships scope (is_active_membership organisation_id id) (role_changed role)))
    lock_or_refuse organisation_id scope id

  -- updateMembershipEnabled
  unfoldable pub update_membership_enabled : String → Action ManagedMembership
  unfolding statement lock_or_refuse
  update_membership_enabled role = do
    handle database
        (statement (update_memberships scope (is_membership organisation_id id) (enabled_as role)))
    lock_or_refuse organisation_id scope id

  -- disableMembership
  unfoldable pub disable_membership : Action ManagedMembership
  unfolding statement lock_or_refuse
  disable_membership = do
    handle database
        (statement (update_memberships scope (is_active_membership organisation_id id) disabled))
    lock_or_refuse organisation_id scope id

-- RecordAuditEvent, with the CHECK constraints of texts that are not constants
abbrev pub insert_audit_event :
    (ℕ → AuditEvent) → Env → Directory → Outcome DbError (Unit {0} × Directory)
insert_audit_event event env db =
    if is_empty (event env.now).actor_ref || is_empty (event env.now).target_id
    then err violation
    else if has_row (λ a. a.id == (event env.now).id) db.audit_events
    then err duplicate
    else if not (is_some (event env.now).organisation_id)
        || has_row (λ o. holds (event env.now).organisation_id o) db.organisations
    then ok (tt, record db { audit_events = event env.now ∷ db.audit_events })
    else err violation

abbrev pub audit_event :
    Option ℕ → Option ℕ → String → String → String → String → List Entry → ℕ → ℕ → AuditEvent
audit_event organisation_id location_id actor_ref action target_type target_id metadata id now =
    record {
      id = id;
      organisation_id = organisation_id;
      location_id = location_id;
      actor_ref = actor_ref;
      action = action;
      target_type = target_type;
      target_id = target_id;
      metadata = metadata;
      created_at = now;
    }

unfoldable pub record_audit_event :
    Option ℕ → Option ℕ → String → String → String → String → List Entry → Query (Unit {0})
unfolding statement
record_audit_event organisation_id location_id actor_ref action target_type target_id metadata = do
  id ← new_id
  statement (
      insert_audit_event (
        audit_event organisation_id location_id actor_ref action target_type target_id metadata id))
