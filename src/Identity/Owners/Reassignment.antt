-- ===== src/Identity/Owners/Reassignment.antt =====
-- PlatformReassignOwnership of internal/domain/identity/memberships.go, to a member who is no owner.
use seatd_v.Base.{
  ℕ, ◌≡◌, refl, sym, subst, ◌∙◌, arith, true, false, not, ◌&&◌, ◌==◌, String, some, List,
  Bool-cases, inl, inr, find_row, find_key, has_row, is_some, is_empty, str_eq, update_rows,
  IsKeyed, find_row-find_key, find_row-find_own_key, find_row-test, find_row-update_rows,
  count_rows-update_rows_lost, some_inj,
}
use seatd_v.Store.{Env, ok, is_ok}
use seatd_v.Identity.Schema.{Directory, Texts, UserProfile, MembershipRow}
use seatd_v.Identity.Queries.{
  ManagedMembership, scan_managed_membership, profile_of, is_membership, is_owner, is_active,
  owners, is_profile_of, is_member_at, nullable_uuid, is_clash, is_role, organisation_owner,
  scope_organisation,
}
use seatd_v.Identity.Updates.{update_memberships, disabled, is_active_membership}
use seatd_v.Identity.Memberships.{normalize_email}
use seatd_v.Identity.Ownership.{
  PlatformReassignOwnershipParams, platform_reassign_ownership, reassign_in_tx,
}
use seatd_v.Identity.Owners.Runs.{
  lock_runs, profile_runs, disable_runs, next_runs, platform_runs, pinned,
}

module _ (texts : Texts) (arg : PlatformReassignOwnershipParams) (env : Env) (db : Directory)
    (email : String) (profile : UserProfile) (previous reader : MembershipRow) where
  abbrev tenant : ℕ
  tenant = arg.target_organisation_id

  abbrev members : List MembershipRow
  members = db.organisation_memberships

  -- The rows once the previous owner is disabled
  abbrev left : Directory
  left = record db {
    organisation_memberships =
        update_rows (is_active_membership tenant arg.from_membership_id) (disabled env.now) members;
  }

  -- An organisation with one active owner, whose ownership goes to the profile with the address, an
  -- active member who is no owner. The unique indexes and the foreign key of the role hold of the owner's
  -- row.
  pub record IsHandover : Type 0 where
    pub keyed : IsKeyed (λ m. m.id) members
    pub stored : find_row (is_membership tenant arg.from_membership_id) members ≡ some previous
    pub owner : is_owner tenant previous ≡ true
    pub only : owners tenant db ≡ 1
    pub indexed :
        has_row
          (λ x.
            not (x.id == previous.id) && is_clash scope_organisation (disabled env.now previous) x)
          members
        ≡ false
    pub role : is_role previous.role db ≡ true
    pub profile_stored : find_row (is_profile_of texts email) db.user_profiles ≡ some profile
    pub member :
        find_row (is_member_at scope_organisation tenant 0 (nullable_uuid profile.id) db) members
        ≡ some reader
    pub active : is_active reader ≡ true
    pub no_owner : str_eq reader.role organisation_owner ≡ false

  module _ (p : IsHandover) where
    own_key : find_key (λ m. m.id) arg.from_membership_id members ≡ some previous
    own_key =
        find_row-find_key (λ m. m.id) (is_membership tenant arg.from_membership_id)
          arg.from_membership_id members previous (λ m h. ground arith) p.keyed p.stored

    reaches : is_active_membership tenant arg.from_membership_id previous ≡ true
    reaches =
        let found =
          find_row-test (is_membership tenant arg.from_membership_id) members previous p.stored in
        let owner = p.owner in ground arith

    update_runs :
        update_memberships scope_organisation
          (is_active_membership tenant arg.from_membership_id)
          disabled
          env
          db
        ≡ ok (tt, left)
    update_runs =
        rw
          (
            pinned arg.from_membership_id (is_active_membership tenant arg.from_membership_id)
                (λ m.
                  has_row
                    (λ x. not (x.id == m.id) && is_clash scope_organisation (disabled env.now m) x)
                    members)
                members previous p.keyed own_key (λ m h. ground arith) p.indexed,
            pinned arg.from_membership_id (is_active_membership tenant arg.from_membership_id)
                (λ m. not (is_role (disabled env.now m).role db)) members previous p.keyed own_key
                (λ m h. ground arith) (rw p.role refl),
          )
          refl

    no_owner_left : owners tenant left ≡ 0
    no_owner_left =
        let lost =
          count_rows-update_rows_lost (is_owner tenant)
            (is_active_membership tenant arg.from_membership_id) (disabled env.now) (λ m. m.id)
            arg.from_membership_id (λ m h. ground arith) members previous p.keyed own_key reaches
            p.owner (ground arith) in
        omega (arith, lost, p.only)

    still_stored :
        find_row (is_membership tenant arg.from_membership_id) left.organisation_memberships
        ≡ some (disabled env.now previous)
    still_stored =
        find_row-update_rows (is_membership tenant arg.from_membership_id)
          (is_active_membership tenant arg.from_membership_id) (disabled env.now) members
          (λ m. refl)
        ∙ rw (p.stored, reaches) refl

    other_id : (reader.id == arg.from_membership_id) ≡ false
    other_id = elim (Bool-cases (reader.id == arg.from_membership_id)) [
      | inl e ↦
          let own = find_row-find_own_key (λ m. m.id) _ members reader p.keyed p.member in
          let same_id : reader.id ≡ arg.from_membership_id = ground arith in
          let here = subst (λ k. find_key (λ m. m.id) k members ≡ some reader) same_id own in
          let same : previous ≡ reader = some_inj (sym own_key ∙ here) in
          let owner = p.owner in
          let previous_role : str_eq previous.role organisation_owner ≡ true = ground arith in
          let reader_role =
            subst (λ m. str_eq m.role organisation_owner ≡ true) same previous_role in
          let no_owner = p.no_owner in cc
      | inr e ↦ e
    ]

    abbrev seen : Directory → MembershipRow → ManagedMembership
    seen d row = scan_managed_membership scope_organisation row (profile_of d row)

    reassign_runs :
        ((n : ℕ) → env.faults n ≡ false)
        → reassign_in_tx texts tenant arg.from_membership_id email env
            (record { db = db; sent = 2; drawn = 0 })
          ≡ ok (
            record {
              previous_owner = seen left (disabled env.now previous);
              next_owner = seen db reader;
            },
            record { db = left; sent = 8; drawn = 0 },
          )
    unfolding reassign_in_tx
    reassign_runs holds =
        let owner = p.owner in
        let enabled : is_some previous.disabled_at ≡ false = ground arith in
        let owning : str_eq previous.role organisation_owner ≡ true = ground arith in
        lock_runs env holds tenant arg.from_membership_id _
          (record { db = db; sent = 2; drawn = 0 }) previous p.stored
          (rw (enabled, owning)
            (profile_runs env holds texts email email _ (record { db = db; sent = 3; drawn = 0 })
              profile p.profile_stored
              (next_runs env holds texts tenant profile _ (record { db = db; sent = 4; drawn = 0 })
                reader p.member p.active
                (rw other_id (
                  disable_runs env holds tenant arg.from_membership_id _
                    (record { db = db; sent = 6; drawn = 0 }) left (disabled env.now previous)
                    update_runs still_stored refl)))))

    -- On a connection that holds, and on rows that meet the schema, a well-formed request to pass
    -- the ownership from the only active owner of an organisation to an active member who is no
    -- owner succeeds, and leaves the organisation without an active owner.
    pub reassign-loses_owner :
        ((n : ℕ) → env.faults n ≡ false)
        → normalize_email texts arg.to_email ≡ some email
        → (arg.target_organisation_id == 0) ≡ false
        → (arg.from_membership_id == 0) ≡ false
        → is_empty (texts.trim_space arg.actor_ref) ≡ false
        → (is_ok (platform_reassign_ownership texts arg env db).0 ≡ true)
          × (owners tenant (platform_reassign_ownership texts arg env db).1 ≡ 0)
    unfolding platform_reassign_ownership
    reassign-loses_owner holds address target from actor =
        let runs =
          platform_runs env holds (reassign_in_tx texts tenant arg.from_membership_id email) db _ _
            (reassign_runs holds) in
        (
          rw (address, target, from, actor, runs) refl,
          rw (address, target, from, actor, runs) no_owner_left,
        )
