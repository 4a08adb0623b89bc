-- ===== src/Identity/Calls.antt =====
-- Sequences of calls of the operations of internal/domain/identity/memberships.go, each over its own
-- connection.
use seatd_v.Base.{List, [], ◌∷◌}
use seatd_v.Store.{Env}
use seatd_v.Identity.Schema.{Directory, Texts}
use seatd_v.Identity.Memberships.{
  CreateMembershipParams, UpdateMembershipRoleParams, DisableMembershipParams,
}
use seatd_v.Identity.Management.{create_membership, change_membership_role, end_membership}
use seatd_v.Identity.Ownership.{
  PlatformInviteOwnerParams, PlatformOwnerMembershipParams, platform_invite_owner,
  platform_disable_owner_membership, platform_reactivate_owner_membership,
}

-- The operations but PlatformReassignOwnership
pub data Call : Type 0 where
  create : CreateMembershipParams → Call
  change_role : UpdateMembershipRoleParams → Call
  end : DisableMembershipParams → Call
  invite_owner : PlatformInviteOwnerParams → Call
  disable_owner : PlatformOwnerMembershipParams → Call
  reactivate_owner : PlatformOwnerMembershipParams → Call

unfoldable pub step : Texts → Env → Call → Directory → Directory
unfolding create_membership change_membership_role end_membership platform_invite_owner
    platform_disable_owner_membership platform_reactivate_owner_membership
step texts env (create arg) db = (create_membership texts arg env db).1
step texts env (change_role arg) db = (change_membership_role texts arg env db).1
step texts env (end arg) db = (end_membership texts arg env db).1
step texts env (invite_owner arg) db = (platform_invite_owner texts arg env db).1
step texts env (disable_owner arg) db = (platform_disable_owner_membership texts arg env db).1
step texts env (reactivate_owner arg) db = (platform_reactivate_owner_membership texts arg env db).1

unfoldable pub run : Texts → List (Env × Call) → Directory → Directory
unfolding step
run texts [] db = db
run texts ((env, call) ∷ calls) db = run texts calls (step texts env call db)
