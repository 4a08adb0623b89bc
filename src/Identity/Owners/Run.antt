-- ===== src/Identity/Owners/Run.antt =====
-- The active owners of an organisation through sequences of calls.
use seatd_v.Base.{
  ℕ, refl, arith, true, false, not, String, Option, none, some, List, [], ◌∷◌, str_eq, is_some,
}
use seatd_v.Store.{Env, after_action, after_refusal}
use seatd_v.Identity.Schema.{Directory, Texts}
use seatd_v.Identity.Transaction.{
  Error, Action, not_found, validation, map_constraint, unless_refused, in_platform_db_tx,
}
use seatd_v.Identity.Queries.{
  ManagedMembership, organisation_owner, scope_organisation, get_organisation, is_membership,
}
use seatd_v.Identity.Updates.{
  lock_or_refuse, update_membership_enabled, disable_membership, enabled_as, disabled,
  is_active_membership,
}
use seatd_v.Identity.Memberships.{user_profile_actor_ref, normalize_email}
use seatd_v.Identity.Management.{require_another_organisation_owner}
use seatd_v.Identity.Ownership.{
  PlatformInviteOwnerParams, invite_owner_in_tx, disable_owner_in_tx, reactivate_owner_in_tx,
  platform_invite_owner, platform_disable_owner_membership, platform_reactivate_owner_membership,
  invite_with_email, owner_membership_refusal, name_or,
}
use seatd_v.Identity.Keeps.{
  Keeps, bind-Keeps, select-Keeps, present-Keeps, in_platform_db_tx-keeps, map_constraint-keeps,
}
use seatd_v.Identity.Calls.{
  Call, create, change_role, end, invite_owner, disable_owner, reactivate_owner, step, run,
}
use seatd_v.Identity.Owners.{HasOwner}
use seatd_v.Identity.Owners.Creation.{get_or_create-HasOwner, create_or_reactivate-HasOwner}
use seatd_v.Identity.Owners.Operations.{
  changing-HasOwner, create_membership-HasOwner, change_membership_role-HasOwner,
  end_membership-HasOwner,
}

module _ (organisation_id : ℕ) where
  abbrev Has : Directory → Type 0
  Has = HasOwner organisation_id

  invite_owner_in_tx-HasOwner :
      (texts : Texts) (tenant : ℕ) (email name : String)
      → Keeps Has (invite_owner_in_tx texts tenant email name)
  unfolding invite_owner_in_tx get_organisation
  invite_owner_in_tx-HasOwner texts tenant email name =
      bind-Keeps Has _ _ (select-Keeps Has _) (λ found.
        bind-Keeps Has _ _ (present-Keeps Has not_found found) (λ organisation.
          bind-Keeps Has _ _ (get_or_create-HasOwner organisation_id texts email name) (λ profile.
            create_or_reactivate-HasOwner organisation_id tenant scope_organisation 0
              organisation_owner profile (user_profile_actor_ref texts profile.id))))

  disable_owner_in_tx-HasOwner : (tenant id : ℕ) → Keeps Has (disable_owner_in_tx tenant id)
  unfolding disable_owner_in_tx disable_membership
  disable_owner_in_tx-HasOwner tenant id env t a u h p =
      after_action (lock_or_refuse tenant scope_organisation id) _ env t h (λ m t1 e1 h1.
        after_refusal (is_some m.disabled_at) not_found _ env t1 h1 (λ enabled h2.
          after_refusal (not (str_eq m.role organisation_owner)) validation _ env t1 h2 (λ owner h3.
            after_action (require_another_organisation_owner tenant) _ env t1 h3 (λ x t2 e2 h4.
              changing-HasOwner organisation_id tenant scope_organisation id
                (is_active_membership tenant id) disabled true m a x env t t1 t2 u
                (λ row w. ground arith) (λ now row. refl)
                (λ row s not_location same_role same_disabled unguarded w. cc) e1 e2 h4 p))))

  reactivate_owner_in_tx-HasOwner : (tenant id : ℕ) → Keeps Has (reactivate_owner_in_tx tenant id)
  unfolding reactivate_owner_in_tx update_membership_enabled
  reactivate_owner_in_tx-HasOwner tenant id env t a u h p =
      after_action (lock_or_refuse tenant scope_organisation id) _ env t h (λ m t1 e1 h1.
        after_refusal (not (str_eq m.role organisation_owner)) validation _ env t1 h1 (λ owner h2.
          changing-HasOwner organisation_id tenant scope_organisation id (is_membership tenant id)
            (enabled_as organisation_owner) false m a tt env t t1 t1 u (λ row w. ground arith)
            (λ now row. refl)
            (λ row s not_location same_role same_disabled unguarded w. ground arith) e1 refl h2 p))

  platform_kept :
      (o : Option Error) (body : Action ManagedMembership) (env : Env) (db : Directory)
      → Keeps Has body
      → Has db
      → Has (unless_refused o (λ db. map_constraint (in_platform_db_tx body env db)) db).1
  platform_kept none body env db keeps p =
      map_constraint-keeps Has (in_platform_db_tx body env db)
        (in_platform_db_tx-keeps Has body env db keeps p)
  platform_kept (some e) body env db keeps p = p

  platform_kept_unmapped :
      (o : Option Error) (body : Action ManagedMembership) (env : Env) (db : Directory)
      → Keeps Has body
      → Has db
      → Has (unless_refused o (in_platform_db_tx body env) db).1
  platform_kept_unmapped none body env db keeps p = in_platform_db_tx-keeps Has body env db keeps p
  platform_kept_unmapped (some e) body env db keeps p = p

  invited :
      (texts : Texts) (arg : PlatformInviteOwnerParams) (env : Env) (db : Directory)
      (o : Option String)
      → Has db
      → Has (invite_with_email texts arg env o db).1
  invited texts arg env db none p = p
  invited texts arg env db (some email) p =
      platform_kept _
        (invite_owner_in_tx texts arg.target_organisation_id email
          (name_or texts arg.display_name email))
        env db
        (invite_owner_in_tx-HasOwner texts arg.target_organisation_id email
          (name_or texts arg.display_name email))
        p

  step-HasOwner :
      (texts : Texts) (env : Env) (call : Call) (db : Directory)
      → Has db
      → Has (step texts env call db)
  unfolding step platform_invite_owner platform_disable_owner_membership
      platform_reactivate_owner_membership
  step-HasOwner texts env (create arg) db p =
      create_membership-HasOwner organisation_id texts arg env db p
  step-HasOwner texts env (change_role arg) db p =
      change_membership_role-HasOwner organisation_id texts arg env db p
  step-HasOwner texts env (end arg) db p =
      end_membership-HasOwner organisation_id texts arg env db p
  step-HasOwner texts env (invite_owner arg) db p =
      invited texts arg env db (normalize_email texts arg.email) p
  step-HasOwner texts env (disable_owner arg) db p =
      platform_kept_unmapped (owner_membership_refusal texts arg)
        (disable_owner_in_tx arg.target_organisation_id arg.membership_id) env db
        (disable_owner_in_tx-HasOwner arg.target_organisation_id arg.membership_id) p
  step-HasOwner texts env (reactivate_owner arg) db p =
      platform_kept (owner_membership_refusal texts arg)
        (reactivate_owner_in_tx arg.target_organisation_id arg.membership_id) env db
        (reactivate_owner_in_tx-HasOwner arg.target_organisation_id arg.membership_id) p

-- An organisation that has an active owner, the ids of memberships being unique, keeps one through any
-- sequence of memberships created, changed in role and disabled and of owners invited, disabled and
-- reactivated, failing calls included.
pub run-HasOwner :
    (organisation_id : ℕ) (texts : Texts) (calls : List (Env × Call)) (db : Directory)
    → HasOwner organisation_id db
    → HasOwner organisation_id (run texts calls db)
unfolding run
run-HasOwner organisation_id texts [] db p = p
run-HasOwner organisation_id texts ((env, call) ∷ calls) db p =
    run-HasOwner organisation_id texts calls (step texts env call db)
      (step-HasOwner organisation_id texts env call db p)
