-- ===== src/Identity/Memberships.antt =====
-- internal/domain/identity/memberships.go: the memberships that an owner manages, and those of owners that
-- a platform administrator manages. The list of memberships is left out.
use Prim.Native.String
use seatd_v.Base.{
  ℕ, Bool, not, ◌&&◌, ◌||◌, ◌==◌, String, Option, none, some, List, [], ◌∷◌, if◌then◌else◌,
  is_empty, is_some, str_eq,
}
use seatd_v.Store.{◌>>=◌, ◌>>◌, pure, handle, refuse_if, present}
use seatd_v.Identity.Schema.{Texts, UserProfile, Entry}
use seatd_v.Identity.Transaction.{
  Error, not_found, forbidden, already_exists, validation, database, Action, refusal,
}
use seatd_v.Identity.Queries.{
  scope_organisation, scope_location, organisation_owner, nullable_uuid, ManagedMembership,
  actor_has_organisation_permission, get_user_profile_by_email, create_user_profile,
  create_user_organisation_membership, create_user_location_membership, get_membership_by_profile,
  is_location,
}
use seatd_v.Identity.Updates.{update_membership_enabled, record_audit_event}

pub record TenantActor : Type 0 where
  pub organisation_id : ℕ
  pub location_id : ℕ
  pub actor_ref : String

pub record CreateMembershipParams : Type 0 where
  pub actor : TenantActor
  pub scope : String
  pub location_id : ℕ
  pub email : String
  pub display_name : String
  pub role : String

pub record UpdateMembershipRoleParams : Type 0 where
  pub actor : TenantActor
  pub scope : String
  pub id : ℕ
  pub role : String

pub record DisableMembershipParams : Type 0 where
  pub actor : TenantActor
  pub scope : String
  pub id : ℕ

abbrev pub organisation_manage : String
organisation_manage = "organisation.manage"

abbrev pub normalize_tenant_actor : Texts → TenantActor → TenantActor
normalize_tenant_actor texts actor = record actor { actor_ref = texts.trim_space actor.actor_ref }

abbrev pub validate_tenant_actor : TenantActor → Bool → Option Error → Option Error
validate_tenant_actor actor require_location next =
    refusal (actor.organisation_id == 0 || (require_location && actor.location_id == 0)) validation
      (refusal (is_empty actor.actor_ref) forbidden next)

abbrev pub normalize_address : Texts → Option String → Option String
normalize_address texts none = none
normalize_address texts (some address) =
    if is_empty (texts.trim_space address) then none else some (texts.to_lower address)

-- `none` is ErrValidation.
abbrev pub normalize_email : Texts → String → Option String
normalize_email texts value =
    if is_empty (texts.trim_space value)
    then none
    else normalize_address texts (texts.parse_address (texts.trim_space value))

abbrev pub valid_membership_role : String → String → Bool
valid_membership_role scope role =
    if str_eq scope scope_organisation
    then str_eq role organisation_owner || str_eq role "read_only"
    else str_eq scope scope_location && (str_eq role "location_manager" || str_eq role "waiter")

unfoldable pub require_organisation_permission : TenantActor → String → Action (Unit {0})
unfolding actor_has_organisation_permission
require_organisation_permission actor permission = do
  allowed ←
      handle database
        (actor_has_organisation_permission actor.organisation_id actor.actor_ref permission)
  refuse_if (not allowed) forbidden

abbrev pub user_profile_actor_ref : Texts → ℕ → String
user_profile_actor_ref texts id =
    if id == 0 then "user:" else Prim.Native.String.◌++◌ "user:" (texts.uuid_text id)

-- getOrCreateUserProfileByEmail
unfoldable pub profile_or_new : Texts → String → String → Option UserProfile → Action UserProfile
unfolding create_user_profile
profile_or_new texts email display_name (some profile) = pure profile
profile_or_new texts email display_name none =
    handle database (create_user_profile texts email display_name)

unfoldable pub get_or_create_user_profile_by_email : Texts → String → String → Action UserProfile
unfolding get_user_profile_by_email profile_or_new
get_or_create_user_profile_by_email texts email display_name = do
  found ← handle database (get_user_profile_by_email texts email)
  profile_or_new texts email display_name found

-- createOrReactivateOrganisationMembership and createOrReactivateLocationMembership: the second is the
-- first at a location.
module _ (organisation_id : ℕ) (scope : String) (location_id : ℕ) (role : String)
    (profile : UserProfile) (member_ref : String) where
  unfoldable pub insert_in_scope : Action (Unit {0})
  unfolding create_user_organisation_membership create_user_location_membership
  insert_in_scope =
      if is_location scope
      then (do
        row ← handle database (
            create_user_location_membership organisation_id location_id (nullable_uuid profile.id)
              member_ref role)
        pure tt)
      else (do
        row ← handle database (
            create_user_organisation_membership organisation_id (nullable_uuid profile.id)
              member_ref role)
        pure tt)

  -- What an earlier membership of the profile makes of it
  unfoldable pub create_or_reactivate_from : Option ManagedMembership → Action ManagedMembership
  unfolding insert_in_scope get_membership_by_profile update_membership_enabled
  create_or_reactivate_from none = do
    insert_in_scope
    made ← handle database (get_membership_by_profile organisation_id scope location_id profile.id)
    present not_found made
  create_or_reactivate_from (some existing) = do
    refuse_if (not (is_some existing.disabled_at)) already_exists
    update_membership_enabled organisation_id scope existing.id role

  unfoldable pub create_or_reactivate_membership : Action ManagedMembership
  unfolding get_membership_by_profile create_or_reactivate_from
  create_or_reactivate_membership = do
    existing ←
        handle database (get_membership_by_profile organisation_id scope location_id profile.id)
    create_or_reactivate_from existing

-- recordMembershipAudit
unfoldable pub record_membership_audit :
    Texts → TenantActor → String → ManagedMembership → List Entry → Action (Unit {0})
unfolding record_audit_event
record_membership_audit texts actor action m metadata = handle database (
    record_audit_event (nullable_uuid actor.organisation_id) (nullable_uuid m.location_id)
      actor.actor_ref action "membership" (texts.uuid_text m.id) metadata)

-- nullableAuditString
abbrev pub nullable_audit_string : Texts → ℕ → Option String
nullable_audit_string texts id = if id == 0 then none else some (texts.uuid_text id)

abbrev pub text_entry : String → String → Entry
text_entry key value = record { key = key; value = some value }

abbrev pub membership_metadata : Texts → ManagedMembership → List Entry
membership_metadata texts m =
    text_entry "scope" m.scope
    ∷ text_entry "role" m.role
    ∷ text_entry "email" m.email
    ∷ record { key = "locationId"; value = nullable_audit_string texts m.location_id }
    ∷ []
