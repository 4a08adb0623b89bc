-- ===== src/Identity/Management.antt =====
-- CreateMembership, UpdateMembershipRole and DisableMembership of
-- internal/domain/identity/memberships.go.
use seatd_v.Base.{
  ℕ, leb, Bool, false, not, ◌&&◌, ◌||◌, ◌==◌, String, Option, none, some, ◌∷◌, if◌then◌else◌,
  is_empty, is_some, str_eq,
}
use seatd_v.Store.{Env, Outcome, err, ◌>>=◌, ◌>>◌, pure, handle, refuse_if, present}
use seatd_v.Identity.Schema.{Directory, Texts}
use seatd_v.Identity.Transaction.{
  Error, not_found, validation, database, Action, map_constraint, refusal, unless_refused,
  in_tenant_db_tx,
}
use seatd_v.Identity.Queries.{
  valid_membership_scope, scope_organisation, scope_location, organisation_owner, ManagedMembership,
  get_location, count_organisation_owners, is_location,
}
use seatd_v.Identity.Updates.{update_membership_role, disable_membership, lock_or_refuse}
use seatd_v.Identity.Memberships.{
  CreateMembershipParams, UpdateMembershipRoleParams, DisableMembershipParams, organisation_manage,
  normalize_tenant_actor, validate_tenant_actor, normalize_email, valid_membership_role,
  require_organisation_permission, user_profile_actor_ref, get_or_create_user_profile_by_email,
  create_or_reactivate_membership, record_membership_audit, membership_metadata, text_entry,
}

-- requireAnotherOrganisationOwner
unfoldable pub require_another_organisation_owner : ℕ → Action (Unit {0})
unfolding count_organisation_owners
require_another_organisation_owner organisation_id = do
  owner_count ← handle database (count_organisation_owners organisation_id)
  refuse_if (leb owner_count 1) validation

-- The parameters with their texts trimmed, the address in place of the text that names it
abbrev pub normalized_create : Texts → CreateMembershipParams → String → CreateMembershipParams
normalized_create texts arg email = record arg {
  actor = normalize_tenant_actor texts arg.actor;
  scope = texts.trim_space arg.scope;
  role = texts.trim_space arg.role;
  display_name =
      if is_empty (texts.trim_space arg.display_name)
      then email
      else texts.trim_space arg.display_name;
  email = email;
}

abbrev pub create_refusal : CreateMembershipParams → Option Error
create_refusal arg = validate_tenant_actor arg.actor false (
    refusal (not (valid_membership_role arg.scope arg.role)) validation (
      refusal (str_eq arg.scope scope_location && arg.location_id == 0) validation (
        refusal (str_eq arg.scope scope_organisation && not (arg.location_id == 0)) validation
          none)))

unfoldable pub require_location : String → ℕ → ℕ → Action (Unit {0})
unfolding get_location
require_location scope id organisation_id =
    if is_location scope
    then (do
      found ← handle database (get_location id organisation_id)
      location ← present not_found found
      pure tt)
    else pure tt

unfoldable pub create_membership_in_tx : Texts → CreateMembershipParams → Action ManagedMembership
unfolding require_organisation_permission get_or_create_user_profile_by_email require_location
    create_or_reactivate_membership record_membership_audit
create_membership_in_tx texts arg = do
  require_organisation_permission arg.actor organisation_manage
  profile ← get_or_create_user_profile_by_email texts arg.email arg.display_name
  require_location arg.scope arg.location_id arg.actor.organisation_id
  membership ←
      create_or_reactivate_membership arg.actor.organisation_id arg.scope arg.location_id arg.role
        profile (user_profile_actor_ref texts profile.id)
  record_membership_audit texts arg.actor "membership.create" membership
      (membership_metadata texts membership)
  pure membership

abbrev pub create_normalized :
    Texts → Env → CreateMembershipParams → Directory → Outcome Error ManagedMembership × Directory
create_normalized texts env arg =
    unless_refused (create_refusal arg)
      (λ db. map_constraint (in_tenant_db_tx (create_membership_in_tx texts arg) env db))

abbrev pub create_with_email :
    Texts
    → Env
    → CreateMembershipParams
    → Option String
    → Directory
    → Outcome Error ManagedMembership × Directory
create_with_email texts env arg none db = (err validation, db)
create_with_email texts env arg (some email) db =
    create_normalized texts env (normalized_create texts arg email) db

unfoldable pub create_membership :
    Texts → CreateMembershipParams → Env → Directory → Outcome Error ManagedMembership × Directory
unfolding in_tenant_db_tx create_membership_in_tx
create_membership texts arg env db =
    create_with_email texts env arg (normalize_email texts arg.email) db

abbrev pub is_ownership : ManagedMembership → Bool
is_ownership m = str_eq m.scope scope_organisation && str_eq m.role organisation_owner

abbrev pub require_other_owner_if : Bool → ℕ → Action (Unit {0})
require_other_owner_if b organisation_id =
    if b then require_another_organisation_owner organisation_id else pure tt

unfoldable pub update_membership_role_in_tx :
    Texts → UpdateMembershipRoleParams → Action ManagedMembership
unfolding require_organisation_permission lock_or_refuse require_another_organisation_owner
    update_membership_role record_membership_audit
update_membership_role_in_tx texts arg = do
  require_organisation_permission arg.actor organisation_manage
  current ← lock_or_refuse arg.actor.organisation_id arg.scope arg.id
  refuse_if (is_some current.disabled_at) not_found
  require_other_owner_if (is_ownership current && not (str_eq arg.role organisation_owner))
      arg.actor.organisation_id
  membership ← update_membership_role arg.actor.organisation_id arg.scope arg.id arg.role
  record_membership_audit texts arg.actor "membership.update_role" membership
      (text_entry "previousRole" current.role ∷ membership_metadata texts membership)
  pure membership

abbrev pub normalized_update : Texts → UpdateMembershipRoleParams → UpdateMembershipRoleParams
normalized_update texts arg = record arg {
  actor = normalize_tenant_actor texts arg.actor;
  scope = texts.trim_space arg.scope;
  role = texts.trim_space arg.role;
}

abbrev pub update_refusal : UpdateMembershipRoleParams → Option Error
update_refusal arg =
    validate_tenant_actor arg.actor false
      (refusal (arg.id == 0 || not (valid_membership_role arg.scope arg.role)) validation none)

unfoldable pub change_membership_role :
    Texts
    → UpdateMembershipRoleParams
    → Env
    → Directory
    → Outcome Error ManagedMembership × Directory
unfolding in_tenant_db_tx update_membership_role_in_tx
change_membership_role texts arg env =
    unless_refused (update_refusal (normalized_update texts arg))
      (in_tenant_db_tx (update_membership_role_in_tx texts (normalized_update texts arg)) env)

unfoldable pub disable_membership_in_tx : Texts → DisableMembershipParams → Action ManagedMembership
unfolding require_organisation_permission lock_or_refuse require_another_organisation_owner
    disable_membership record_membership_audit
disable_membership_in_tx texts arg = do
  require_organisation_permission arg.actor organisation_manage
  current ← lock_or_refuse arg.actor.organisation_id arg.scope arg.id
  refuse_if (is_some current.disabled_at) not_found
  require_other_owner_if (is_ownership current) arg.actor.organisation_id
  membership ← disable_membership arg.actor.organisation_id arg.scope arg.id
  record_membership_audit texts arg.actor "membership.disable" membership
      (membership_metadata texts membership)
  pure membership

abbrev pub normalized_disable : Texts → DisableMembershipParams → DisableMembershipParams
normalized_disable texts arg = record arg {
  actor = normalize_tenant_actor texts arg.actor;
  scope = texts.trim_space arg.scope;
}

abbrev pub disable_refusal : DisableMembershipParams → Option Error
disable_refusal arg =
    validate_tenant_actor arg.actor false
      (refusal (arg.id == 0 || not (valid_membership_scope arg.scope)) validation none)

unfoldable pub end_membership :
    Texts → DisableMembershipParams → Env → Directory → Outcome Error ManagedMembership × Directory
unfolding in_tenant_db_tx disable_membership_in_tx
end_membership texts arg env =
    unless_refused (disable_refusal (normalized_disable texts arg))
      (in_tenant_db_tx (disable_membership_in_tx texts (normalized_disable texts arg)) env)
