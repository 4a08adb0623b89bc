-- ===== src/Identity/Owners/Creation.antt =====
-- The active owners of an organisation when a profile or a membership is created or reactivated, and
-- when an audit event is recorded, by internal/domain/identity/memberships.go.
use seatd_v.Base.{
  ℕ, suc, ◌≤◌, ◌≡◌, refl, subst, arith, not, Bool-cases, inl, inr, String, Option, none, some, List,
  find_row, is_some, find_row-find_own_key, IsKeyed, count_rows,
}
use seatd_v.Store.{ok, ◌>>=◌, pure, handle, select, present, after_select, after_refusal}
use seatd_v.Identity.Schema.{Directory, MembershipRow, Texts, UserProfile, Entry}
use seatd_v.Identity.Transaction.{database, not_found, already_exists}
use seatd_v.Identity.Queries.{
  ManagedMembership, memberships_of, managed, is_location, is_membership, is_owner,
  get_user_profile_by_email, create_user_profile, scope_organisation, scope_location,
  get_membership_by_profile, create_user_organisation_membership, create_user_location_membership,
  insert_profile, insert_membership, new_membership, nullable_uuid, is_member_at,
}
use seatd_v.Identity.Updates.{
  update_membership_enabled, record_audit_event, insert_audit_event, audit_event, enabled_as,
}
use seatd_v.Identity.Memberships.{
  TenantActor, get_or_create_user_profile_by_email, profile_or_new, insert_in_scope,
  create_or_reactivate_from, create_or_reactivate_membership, record_membership_audit,
}
use seatd_v.Identity.Keeps.{
  Keeps, pure-Keeps, bind-Keeps, insert-Keeps, select-Keeps, present-Keeps, if-Keeps,
}
use seatd_v.Identity.Owners.{HasOwner, insert_membership-HasOwner}
use seatd_v.Identity.Owners.Actions.{updating-HasOwner}

module _ (organisation_id : ℕ) where
  abbrev Has : Directory → Type 0
  Has = HasOwner organisation_id

  owners-HasOwner :
      (db db' : Directory)
      → db.organisation_memberships ≡ db'.organisation_memberships
      → Has db
      → Has db'
  owners-HasOwner db db' same p = record {
    keyed = subst (IsKeyed (λ m. m.id)) same p.keyed;
    owned = subst (λ rows. 1 ≤ count_rows (is_owner organisation_id) rows) same p.owned;
  }

  pub record_membership_audit-HasOwner :
      (texts : Texts) (actor : TenantActor) (action : String) (m : ManagedMembership)
      (metadata : List Entry)
      → Keeps Has (record_membership_audit texts actor action m metadata)
  unfolding record_membership_audit record_audit_event
  record_membership_audit-HasOwner texts actor action m metadata =
      insert-Keeps Has
        (λ id. insert_audit_event (
          audit_event (nullable_uuid actor.organisation_id) (nullable_uuid m.location_id)
            actor.actor_ref action "membership" (texts.uuid_text m.id) metadata id))
        (λ id env db a db' h p. owners-HasOwner db db' (ground (arith, h)) p)

  pub get_or_create-HasOwner :
      (texts : Texts) (email display_name : String)
      → Keeps Has (get_or_create_user_profile_by_email texts email display_name)
  unfolding get_or_create_user_profile_by_email get_user_profile_by_email profile_or_new
      create_user_profile
  get_or_create-HasOwner texts email display_name =
      bind-Keeps Has _ (profile_or_new texts email display_name) (select-Keeps Has _) created
    where
      created : (o : Option UserProfile) → Keeps Has (profile_or_new texts email display_name o)
      created (some profile) env t a u = pure-Keeps Has profile env t a u
      created none env t a u =
          insert-Keeps Has (insert_profile texts email display_name)
            (λ id env db a db' h p. owners-HasOwner db db' (ground (arith, h)) p) env t a u

  pub insert_in_scope-HasOwner :
      (tenant : ℕ) (scope : String) (location_id : ℕ) (role : String) (profile : UserProfile)
      (member_ref : String)
      → Keeps Has (insert_in_scope tenant scope location_id role profile member_ref)
  unfolding insert_in_scope create_user_location_membership create_user_organisation_membership
  insert_in_scope-HasOwner tenant scope location_id role profile member_ref =
      if-Keeps Has (is_location scope) _ _
        (bind-Keeps Has _ (λ _. pure tt)
          (insert-Keeps Has
            (λ id. insert_membership scope_location (
              new_membership tenant (some location_id) (nullable_uuid profile.id) member_ref role
                id))
            (λ id. insert_membership-HasOwner organisation_id scope_location (
              new_membership tenant (some location_id) (nullable_uuid profile.id) member_ref role
                id)))
          (λ _. pure-Keeps Has tt))
        (bind-Keeps Has _ (λ _. pure tt)
          (insert-Keeps Has
            (λ id.
              insert_membership scope_organisation
                (new_membership tenant none (nullable_uuid profile.id) member_ref role id))
            (λ id.
              insert_membership-HasOwner organisation_id scope_organisation
                (new_membership tenant none (nullable_uuid profile.id) member_ref role id)))
          (λ _. pure-Keeps Has tt))

  -- The membership that a profile has had, with which it is made an active one
  pub create_or_reactivate-HasOwner :
      (tenant : ℕ) (scope : String) (location_id : ℕ) (role : String) (profile : UserProfile)
      (member_ref : String)
      → Keeps Has (create_or_reactivate_membership tenant scope location_id role profile member_ref)
  unfolding create_or_reactivate_membership create_or_reactivate_from get_membership_by_profile
      update_membership_enabled
  create_or_reactivate-HasOwner tenant scope location_id role profile member_ref env t a u h p =
      after_select database (λ db. managed scope db (earlier db))
        (create_or_reactivate_from tenant scope location_id role profile member_ref) env t h
        (λ h'. from (earlier t.db) refl h')
    where
      earlier : Directory → Option MembershipRow
      earlier db =
          find_row (is_member_at scope tenant location_id (nullable_uuid profile.id) db)
            (memberships_of scope db)

      from :
          (o : Option MembershipRow)
          → earlier t.db ≡ o
          → create_or_reactivate_from tenant scope location_id role profile member_ref
              (managed scope t.db o)
              env
              (record t { sent = suc t.sent })
            ≡ ok (a, u)
          → Has u.db
      from none e h =
          bind-Keeps Has (insert_in_scope tenant scope location_id role profile member_ref)
            (λ _.
              handle database (select (λ db. managed scope db (earlier db))) >>= present not_found)
            (insert_in_scope-HasOwner tenant scope location_id role profile member_ref)
            (λ _.
              bind-Keeps Has _ _ (select-Keeps Has (λ db. managed scope db (earlier db)))
                (present-Keeps Has not_found))
            env (record t { sent = suc t.sent }) a u h p
      from (some row) e h =
          after_refusal (not (is_some row.disabled_at)) already_exists
            (update_membership_enabled tenant scope row.id role) env
            (record t { sent = suc t.sent }) h
            (λ was_disabled h'.
              updating-HasOwner organisation_id tenant scope row.id (is_membership tenant row.id)
                (enabled_as role) env (record t { sent = suc t.sent }) a u (λ m w. ground arith)
                (λ now m. refl)
                (elim (Bool-cases (is_location scope)) [
                  | inl s ↦ inl s
                  | inr s ↦
                      let here : memberships_of scope t.db ≡ t.db.organisation_memberships =
                        rw s refl in
                      let found =
                        subst
                          (λ rows.
                            find_row
                              (is_member_at scope tenant location_id (nullable_uuid profile.id)
                                t.db)
                              rows
                            ≡ some row)
                          here e in
                      inr (
                        inr (
                          row,
                          find_row-find_own_key (λ m. m.id) _ t.db.organisation_memberships row
                              p.keyed found,
                          λ w. ground arith,
                        ))
                ])
                h' p)
