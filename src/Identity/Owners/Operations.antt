-- ===== src/Identity/Owners/Operations.antt =====
-- The active owners of an organisation under each operation of internal/domain/identity/memberships.go but
-- PlatformReassignOwnership.
use seatd_v.Base.{
  ℕ, ◌≡◌, refl, arith, Bool, true, false, not, ◌&&◌, String, Option, none, some, List, ◌∷◌,
  if◌then◌else◌, str_eq, is_some,
}
use seatd_v.Store.{Env, TxOn, ok, ◌>>◌, pure, handle, statement, after_action, after_refusal}
use seatd_v.Identity.Schema.{Directory, MembershipRow, Texts, Entry}
use seatd_v.Identity.Transaction.{
  Error, Action, database, not_found, map_constraint, unless_refused, in_tenant_db_tx,
}
use seatd_v.Identity.Queries.{
  ManagedMembership, is_location, is_owner, organisation_owner, scope_organisation, scope_location,
  get_location,
}
use seatd_v.Identity.Updates.{
  lock_or_refuse, update_memberships, update_membership_role, disable_membership, role_changed,
  disabled, is_active_membership,
}
use seatd_v.Identity.Memberships.{
  TenantActor, CreateMembershipParams, UpdateMembershipRoleParams, DisableMembershipParams,
  require_organisation_permission, organisation_manage, record_membership_audit,
  membership_metadata, text_entry, user_profile_actor_ref, normalize_email,
}
use seatd_v.Identity.Management.{
  require_other_owner_if, is_ownership, update_membership_role_in_tx, disable_membership_in_tx,
  create_membership_in_tx, create_membership, change_membership_role, end_membership,
  create_with_email, create_refusal, normalized_create, normalized_update, normalized_disable,
  update_refusal, disable_refusal, require_location,
}
use seatd_v.Identity.Keeps.{
  Keeps, pure-Keeps, bind-Keeps, select-Keeps, present-Keeps, if-Keeps, in_tenant_db_tx-keeps,
  map_constraint-keeps,
}
use seatd_v.Identity.Owners.{HasOwner}
use seatd_v.Identity.Owners.Actions.{
  IsLocked, lock_or_refuse-Keeps, require_organisation_permission-Keeps,
  require_other_owner_if-Keeps, lock_or_refuse-IsLocked, require_other_owner_inv, updating-HasOwner,
  locked-Safe,
}
use seatd_v.Identity.Owners.Creation.{
  record_membership_audit-HasOwner, get_or_create-HasOwner, create_or_reactivate-HasOwner,
}

module _ (organisation_id : ℕ) where
  abbrev Has : Directory → Type 0
  Has = HasOwner organisation_id

  -- Locking a membership, asking for another owner where `guarded` says so, and changing the membership
  pub changing-HasOwner :
      (tenant : ℕ) (scope : String) (id : ℕ) (test : MembershipRow → Bool)
      (change : ℕ → MembershipRow → MembershipRow) (guarded : Bool) (m m' : ManagedMembership)
      (x : Unit {0}) (env : Env) (t1 t2 t3 t4 : TxOn Directory)
      → ((row : MembershipRow) → test row ≡ true → row.id ≡ id)
      → ((now : ℕ) (row : MembershipRow) → (change now row).id ≡ row.id)
      → ((row : MembershipRow)
          → m.scope ≡ (if is_location scope then scope_location else scope_organisation)
          → is_location scope ≡ false
          → row.role ≡ m.role
          → row.disabled_at ≡ m.disabled_at
          → guarded ≡ false
          → is_owner tenant row ≡ true
          → is_owner tenant (change env.now row) ≡ true)
      → lock_or_refuse tenant scope id env t1 ≡ ok (m, t2)
      → require_other_owner_if guarded tenant env t2 ≡ ok (x, t3)
      → (handle database (statement (update_memberships scope test change))
            >> lock_or_refuse tenant scope id)
          env t3
        ≡ ok (m', t4)
      → Has t1.db
      → Has t4.db
  changing-HasOwner tenant scope id test change guarded m m' x env t1 t2 t3 t4 pins same kept e1 e2
        e3 p =
      let locked =
        require_other_owner_if-Keeps (IsLocked tenant scope id m) guarded tenant env t2 x t3 e2
          (lock_or_refuse-IsLocked tenant scope id env t1 m t2 e1) in
      let p3 =
        require_other_owner_if-Keeps Has guarded tenant env t2 x t3 e2
          (lock_or_refuse-Keeps Has tenant scope id env t1 m t2 e1 p) in
      updating-HasOwner organisation_id tenant scope id test change env t3 m' t4 pins same
        (locked-Safe organisation_id tenant scope id m t3.db (change env.now) guarded locked p3
          (require_other_owner_inv guarded tenant env t2 x t3 e2)
          (λ row. kept row locked.scope_kept))
        e3 p3

  audited-HasOwner :
      (texts : Texts) (actor : TenantActor) (action : String) (m : ManagedMembership)
      (metadata : List Entry)
      → Keeps Has (record_membership_audit texts actor action m metadata >> pure m)
  audited-HasOwner texts actor action m metadata =
      bind-Keeps Has _ (λ _. pure m)
        (record_membership_audit-HasOwner organisation_id texts actor action m metadata)
        (λ _. pure-Keeps Has m)

  -- The membership of an owner is seen as one.
  is_owner-is_ownership :
      (tenant : ℕ) (scope : String) (m : ManagedMembership) (row : MembershipRow)
      → m.scope ≡ (if is_location scope then scope_location else scope_organisation)
      → is_location scope ≡ false
      → row.role ≡ m.role
      → is_owner tenant row ≡ true
      → is_ownership m ≡ true
  is_owner-is_ownership tenant scope m row same_scope elsewhere same_role w =
      let here : m.scope ≡ scope_organisation = rw elsewhere at same_scope in
      let owner : str_eq row.role organisation_owner ≡ true = ground arith in
      rw here (rw same_role at owner)

  disable_membership_in_tx-HasOwner :
      (texts : Texts) (arg : DisableMembershipParams)
      → Keeps Has (disable_membership_in_tx texts arg)
  unfolding disable_membership_in_tx disable_membership
  disable_membership_in_tx-HasOwner texts arg env t a u h p =
      after_action (require_organisation_permission arg.actor organisation_manage) _ env t h
        (λ x t1 e1 h1.
          after_action (lock_or_refuse tenant arg.scope arg.id) _ env t1 h1 (λ m t2 e2 h2.
            after_refusal (is_some m.disabled_at) not_found _ env t2 h2 (λ enabled h3.
              after_action (require_other_owner_if (is_ownership m) tenant) _ env t2 h3
                (λ y t3 e3 h4.
                  after_action (disable_membership tenant arg.scope arg.id) _ env t3 h4
                    (λ m' t4 e4 h5.
                      audited-HasOwner texts arg.actor "membership.disable" m'
                        (membership_metadata texts m') env t4 a u h5
                        (changing-HasOwner tenant arg.scope arg.id
                          (is_active_membership tenant arg.id) disabled (is_ownership m) m m' y env
                          t1 t2 t3 t4 (λ row w. ground arith) (λ now row. refl)
                          (λ row s not_location same_role same_disabled unguarded w.
                            absurd_of unguarded (
                              is_owner-is_ownership tenant arg.scope m row s not_location same_role
                                w))
                          e2 e3 e4
                          (require_organisation_permission-Keeps Has arg.actor organisation_manage
                            env t x t1 e1 p)))))))
    where
      tenant : ℕ
      tenant = arg.actor.organisation_id

      absurd_of : {b c : Bool} → b ≡ false → b ≡ true → c ≡ true
      absurd_of h h' = cc

  update_membership_role_in_tx-HasOwner :
      (texts : Texts) (arg : UpdateMembershipRoleParams)
      → Keeps Has (update_membership_role_in_tx texts arg)
  unfolding update_membership_role_in_tx update_membership_role
  update_membership_role_in_tx-HasOwner texts arg env t a u h p =
      after_action (require_organisation_permission arg.actor organisation_manage) _ env t h
        (λ x t1 e1 h1.
          after_action (lock_or_refuse tenant arg.scope arg.id) _ env t1 h1 (λ m t2 e2 h2.
            after_refusal (is_some m.disabled_at) not_found _ env t2 h2 (λ enabled h3.
              after_action (require_other_owner_if (guarded m) tenant) _ env t2 h3 (λ y t3 e3 h4.
                after_action (update_membership_role tenant arg.scope arg.id arg.role) _ env t3 h4
                  (λ m' t4 e4 h5.
                    audited-HasOwner texts arg.actor "membership.update_role" m'
                      (text_entry "previousRole" m.role ∷ membership_metadata texts m') env t4 a u
                      h5
                      (changing-HasOwner tenant arg.scope arg.id
                        (is_active_membership tenant arg.id) (role_changed arg.role) (guarded m) m
                        m' y env t1 t2 t3 t4 (λ row w. ground arith) (λ now row. refl)
                        (λ row s not_location same_role same_disabled unguarded w.
                          let seen =
                            is_owner-is_ownership tenant arg.scope m row s not_location same_role
                              w in
                          ground arith)
                        e2 e3 e4
                        (require_organisation_permission-Keeps Has arg.actor organisation_manage env
                          t x t1 e1 p)))))))
    where
      tenant : ℕ
      tenant = arg.actor.organisation_id

      guarded : ManagedMembership → Bool
      guarded m = is_ownership m && not (str_eq arg.role organisation_owner)

  create_membership_in_tx-HasOwner :
      (texts : Texts) (arg : CreateMembershipParams) → Keeps Has (create_membership_in_tx texts arg)
  unfolding create_membership_in_tx require_location get_location
  create_membership_in_tx-HasOwner texts arg =
      bind-Keeps Has _ _ (require_organisation_permission-Keeps Has arg.actor organisation_manage)
        (λ x.
          bind-Keeps Has _ _
            (get_or_create-HasOwner organisation_id texts arg.email arg.display_name)
            (λ profile.
              bind-Keeps Has _ _
                (if-Keeps Has (is_location arg.scope) _ _
                  (bind-Keeps Has _ _ (select-Keeps Has _) (λ found.
                    bind-Keeps Has _ _ (present-Keeps Has not_found found)
                      (λ l. pure-Keeps Has tt)))
                  (pure-Keeps Has tt))
                (λ y.
                  bind-Keeps Has _ _
                    (create_or_reactivate-HasOwner organisation_id arg.actor.organisation_id
                      arg.scope arg.location_id arg.role profile
                      (user_profile_actor_ref texts profile.id))
                    (λ m.
                      audited-HasOwner texts arg.actor "membership.create" m
                        (membership_metadata texts m)))))

  pub create_membership-HasOwner :
      (texts : Texts) (arg : CreateMembershipParams) (env : Env) (db : Directory)
      → Has db
      → Has (create_membership texts arg env db).1
  unfolding create_membership
  create_membership-HasOwner texts arg env db p = addressed (normalize_email texts arg.email)
    where
      refused :
          (normal : CreateMembershipParams) (o : Option Error)
          → Has
              (unless_refused o
                (λ db.
                  map_constraint (in_tenant_db_tx (create_membership_in_tx texts normal) env db))
                db).1
      refused normal (some e) = p
      refused normal none =
          map_constraint-keeps Has (in_tenant_db_tx (create_membership_in_tx texts normal) env db) (
            in_tenant_db_tx-keeps Has (create_membership_in_tx texts normal) env db
              (create_membership_in_tx-HasOwner texts normal) p)

      addressed : (o : Option String) → Has (create_with_email texts env arg o db).1
      addressed none = p
      addressed (some email) =
          refused (normalized_create texts arg email)
            (create_refusal (normalized_create texts arg email))

  unless_refused-HasOwner :
      (o : Option Error) (body : Action ManagedMembership) (env : Env) (db : Directory)
      → Keeps Has body
      → Has db
      → Has (unless_refused o (in_tenant_db_tx body env) db).1
  unless_refused-HasOwner none body env db keeps p = in_tenant_db_tx-keeps Has body env db keeps p
  unless_refused-HasOwner (some e) body env db keeps p = p

  pub change_membership_role-HasOwner :
      (texts : Texts) (arg : UpdateMembershipRoleParams) (env : Env) (db : Directory)
      → Has db
      → Has (change_membership_role texts arg env db).1
  unfolding change_membership_role
  change_membership_role-HasOwner texts arg env db p =
      unless_refused-HasOwner (update_refusal (normalized_update texts arg)) _ env db
        (update_membership_role_in_tx-HasOwner texts (normalized_update texts arg)) p

  pub end_membership-HasOwner :
      (texts : Texts) (arg : DisableMembershipParams) (env : Env) (db : Directory)
      → Has db
      → Has (end_membership texts arg env db).1
  unfolding end_membership
  end_membership-HasOwner texts arg env db p =
      unless_refused-HasOwner (disable_refusal (normalized_disable texts arg)) _ env db
        (disable_membership_in_tx-HasOwner texts (normalized_disable texts arg)) p
