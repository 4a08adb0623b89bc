-- ===== src/Identity/Ownership.antt =====
-- The owners of organisations in the hands of a platform administrator: the Platform operations of
-- internal/domain/identity/memberships.go.
use seatd_v.Base.{
  ℕ, not, ◌||◌, ◌==◌, String, Option, none, some, if◌then◌else◌, is_empty, is_some, str_eq,
}
use seatd_v.Store.{Env, Outcome, err, ◌>>=◌, ◌>>◌, pure, handle, refuse_if, present}
use seatd_v.Identity.Schema.{Directory, Texts, UserProfile}
use seatd_v.Identity.Transaction.{
  Error, not_found, validation, database, Action, map_constraint, refusal, unless_refused,
  in_platform_db_tx,
}
use seatd_v.Identity.Queries.{
  scope_organisation, organisation_owner, ManagedMembership, get_organisation,
  get_membership_by_profile,
}
use seatd_v.Identity.Updates.{update_membership_enabled, disable_membership, lock_or_refuse}
use seatd_v.Identity.Memberships.{
  normalize_email, user_profile_actor_ref, get_or_create_user_profile_by_email,
  create_or_reactivate_membership, create_or_reactivate_from,
}
use seatd_v.Identity.Management.{require_another_organisation_owner}

pub record PlatformInviteOwnerParams : Type 0 where
  pub target_organisation_id : ℕ
  pub email : String
  pub display_name : String
  pub actor_ref : String

pub record PlatformOwnerMembershipParams : Type 0 where
  pub target_organisation_id : ℕ
  pub membership_id : ℕ
  pub actor_ref : String

pub record PlatformReassignOwnershipParams : Type 0 where
  pub target_organisation_id : ℕ
  pub from_membership_id : ℕ
  pub to_email : String
  pub actor_ref : String

pub record PlatformReassignOwnershipResult : Type 0 where
  pub previous_owner : ManagedMembership
  pub next_owner : ManagedMembership

unfoldable pub invite_owner_in_tx : Texts → ℕ → String → String → Action ManagedMembership
unfolding get_organisation get_or_create_user_profile_by_email create_or_reactivate_membership
invite_owner_in_tx texts organisation_id email display_name = do
  found ← handle database (get_organisation organisation_id)
  organisation ← present not_found found
  profile ← get_or_create_user_profile_by_email texts email display_name
  create_or_reactivate_membership organisation_id scope_organisation 0 organisation_owner profile
      (user_profile_actor_ref texts profile.id)

abbrev pub name_or : Texts → String → String → String
name_or texts name email = if is_empty (texts.trim_space name) then email else texts.trim_space name

abbrev pub invite_with_email :
    Texts
    → PlatformInviteOwnerParams
    → Env
    → Option String
    → Directory
    → Outcome Error ManagedMembership × Directory
invite_with_email texts arg env none db = (err validation, db)
invite_with_email texts arg env (some email) db =
    unless_refused
      (refusal (arg.target_organisation_id == 0 || is_empty (texts.trim_space arg.actor_ref))
        validation none)
      (λ db. map_constraint (
        in_platform_db_tx
          (invite_owner_in_tx texts arg.target_organisation_id email
            (name_or texts arg.display_name email))
          env db))
      db

unfoldable pub platform_invite_owner :
    Texts
    → PlatformInviteOwnerParams
    → Env
    → Directory
    → Outcome Error ManagedMembership × Directory
unfolding in_platform_db_tx invite_owner_in_tx
platform_invite_owner texts arg env db =
    invite_with_email texts arg env (normalize_email texts arg.email) db

abbrev pub owner_membership_refusal : Texts → PlatformOwnerMembershipParams → Option Error
owner_membership_refusal texts arg =
    refusal
      (arg.target_organisation_id == 0
        || arg.membership_id == 0
        || is_empty (texts.trim_space arg.actor_ref))
      validation none

unfoldable pub disable_owner_in_tx : ℕ → ℕ → Action ManagedMembership
unfolding lock_or_refuse require_another_organisation_owner disable_membership
disable_owner_in_tx organisation_id id = do
  current ← lock_or_refuse organisation_id scope_organisation id
  refuse_if (is_some current.disabled_at) not_found
  refuse_if (not (str_eq current.role organisation_owner)) validation
  require_another_organisation_owner organisation_id
  disable_membership organisation_id scope_organisation id

unfoldable pub platform_disable_owner_membership :
    Texts
    → PlatformOwnerMembershipParams
    → Env
    → Directory
    → Outcome Error ManagedMembership × Directory
unfolding in_platform_db_tx disable_owner_in_tx
platform_disable_owner_membership texts arg env =
    unless_refused (owner_membership_refusal texts arg)
      (in_platform_db_tx (disable_owner_in_tx arg.target_organisation_id arg.membership_id) env)

unfoldable pub reactivate_owner_in_tx : ℕ → ℕ → Action ManagedMembership
unfolding lock_or_refuse update_membership_enabled
reactivate_owner_in_tx organisation_id id = do
  current ← lock_or_refuse organisation_id scope_organisation id
  refuse_if (not (str_eq current.role organisation_owner)) validation
  update_membership_enabled organisation_id scope_organisation id organisation_owner

unfoldable pub platform_reactivate_owner_membership :
    Texts
    → PlatformOwnerMembershipParams
    → Env
    → Directory
    → Outcome Error ManagedMembership × Directory
unfolding in_platform_db_tx reactivate_owner_in_tx
platform_reactivate_owner_membership texts arg env =
    unless_refused (owner_membership_refusal texts arg) (λ db. map_constraint (
      in_platform_db_tx (reactivate_owner_in_tx arg.target_organisation_id arg.membership_id) env
        db))

-- The next owner: an active membership of the profile is taken as it is (ErrAlreadyExists, then
-- getMembershipByProfile).
unfoldable pub next_owner :
    Texts → ℕ → UserProfile → Option ManagedMembership → Action ManagedMembership
unfolding create_or_reactivate_from get_membership_by_profile
next_owner texts organisation_id profile none =
    create_or_reactivate_from organisation_id scope_organisation 0 organisation_owner profile
      (user_profile_actor_ref texts profile.id) none
next_owner texts organisation_id profile (some existing) =
    if is_some existing.disabled_at
    then create_or_reactivate_from organisation_id scope_organisation 0 organisation_owner profile
        (user_profile_actor_ref texts profile.id) (some existing)
    else (do
      found ←
          handle database
            (get_membership_by_profile organisation_id scope_organisation 0 profile.id)
      present not_found found)

unfoldable pub reassign_in_tx : Texts → ℕ → ℕ → String → Action PlatformReassignOwnershipResult
unfolding lock_or_refuse get_or_create_user_profile_by_email get_membership_by_profile next_owner
    disable_membership
reassign_in_tx texts organisation_id from_id email = do
  current ← lock_or_refuse organisation_id scope_organisation from_id
  refuse_if (is_some current.disabled_at) not_found
  refuse_if (not (str_eq current.role organisation_owner)) validation
  profile ← get_or_create_user_profile_by_email texts email email
  existing ←
      handle database (get_membership_by_profile organisation_id scope_organisation 0 profile.id)
  next ← next_owner texts organisation_id profile existing
  refuse_if (next.id == from_id) validation
  previous ← disable_membership organisation_id scope_organisation from_id
  pure (record { previous_owner = previous; next_owner = next })

abbrev pub reassign_to :
    Texts
    → PlatformReassignOwnershipParams
    → Env
    → Option String
    → Directory
    → Outcome Error PlatformReassignOwnershipResult × Directory
reassign_to texts arg env none db = (err validation, db)
reassign_to texts arg env (some email) db =
    unless_refused
      (refusal
        (arg.target_organisation_id == 0
          || arg.from_membership_id == 0
          || is_empty (texts.trim_space arg.actor_ref))
        validation none)
      (λ db. map_constraint (
        in_platform_db_tx
          (reassign_in_tx texts arg.target_organisation_id arg.from_membership_id email) env db))
      db

unfoldable pub platform_reassign_ownership :
    Texts
    → PlatformReassignOwnershipParams
    → Env
    → Directory
    → Outcome Error PlatformReassignOwnershipResult × Directory
unfolding in_platform_db_tx reassign_in_tx
platform_reassign_ownership texts arg env db =
    reassign_to texts arg env (normalize_email texts arg.to_email) db
