-- ===== src/Identity/Permission.antt =====
-- Who may change memberships through internal/domain/identity/memberships.go.
use seatd_v.Base.{suc, ◌≡◌, refl, false, String, Option, none, some, Bool-cases, inl, inr}
use seatd_v.Store.{
  Env, TxOn, Outcome, ok, err, is_ok, ◌>>◌, continue, handle, issue, select, statement,
}
use seatd_v.Identity.Schema.{Directory, Texts}
use seatd_v.Identity.Transaction.{
  Error, Action, database, in_tx, in_tenant_db_tx, ended, start, map_constraint, unless_refused,
}
use seatd_v.Identity.Queries.{is_permitted, actor_has_organisation_permission}
use seatd_v.Identity.Memberships.{
  TenantActor, CreateMembershipParams, UpdateMembershipRoleParams, DisableMembershipParams,
  organisation_manage, require_organisation_permission, normalize_email,
}
use seatd_v.Identity.Management.{
  create_membership, create_membership_in_tx, create_with_email, create_refusal, normalized_create,
  change_membership_role, update_membership_role_in_tx, update_refusal, normalized_update,
  end_membership, disable_membership_in_tx, disable_refusal, normalized_disable,
}

-- An error, and the rows as they were
pub record IsRefused {A : Type 0} (db : Directory) (r : Outcome Error A × Directory) : Type 0 where
  pub error : is_ok r.0 ≡ false
  pub unchanged : r.1 ≡ db

pub refused_first :
    {A B : Type 0} (o : Outcome Error (A × TxOn Directory)) (k : A → Action B) (env : Env)
    → is_ok o ≡ false
    → is_ok (continue o k env) ≡ false
refused_first (ok (a, t)) k env h = cc
refused_first (err e) k env h = refl

denied :
    (actor : TenantActor) (permission : String) (env : Env) (t : TxOn Directory)
    → is_permitted actor.organisation_id actor.actor_ref permission t.db ≡ false
    → is_ok (require_organisation_permission actor permission env t) ≡ false
unfolding require_organisation_permission actor_has_organisation_permission select statement
denied actor permission env t h = elim (Bool-cases (env.faults t.sent)) [
  | inl e ↦ rw e refl
  | inr e ↦ rw (e, h) refl
]

module _ {A : Type 0} (env : Env) (db : Directory) where
  ended-IsRefused :
      (o : Outcome Error (A × TxOn Directory)) → is_ok o ≡ false → IsRefused db (ended env db o)
  ended-IsRefused (ok (a, t)) h = cc
  ended-IsRefused (err e) h = record { error = refl; unchanged = refl }

  issued_first :
      (body : Action A) (t : TxOn Directory)
      → is_ok (body env (record t { sent = suc t.sent })) ≡ false
      → is_ok ((handle database issue >> body) env t) ≡ false
  issued_first body t h = elim (Bool-cases (env.faults t.sent)) [
    | inl e ↦ rw e refl
    | inr e ↦ rw e h
  ]

  pub tenant-IsRefused :
      (body : Action A)
      → is_ok (body env (record { db = db; sent = 2; drawn = 0 })) ≡ false
      → IsRefused db (in_tenant_db_tx body env db)
  unfolding in_tenant_db_tx in_tx
  tenant-IsRefused body h = ended-IsRefused _ (
      issued_first (handle database issue >> body) (start db)
        (issued_first body (record { db = db; sent = 1; drawn = 0 }) h))

  map_constraint-IsRefused :
      (r : Outcome Error A × Directory) → IsRefused db r → IsRefused db (map_constraint r)
  map_constraint-IsRefused (ok a, d) h = h
  map_constraint-IsRefused (err e, d) h = record { error = refl; unchanged = h.unchanged }

  pub unless_refused-IsRefused :
      (o : Option Error) (body : Directory → Outcome Error A × Directory)
      → IsRefused db (body db)
      → IsRefused db (unless_refused o body db)
  unless_refused-IsRefused none body h = h
  unless_refused-IsRefused (some e) body h = record { error = refl; unchanged = refl }

module _ (texts : Texts) (actor : TenantActor) (env : Env) (db : Directory)
    (unpermitted : is_permitted actor.organisation_id
        (texts.trim_space actor.actor_ref)
        organisation_manage
        db
      ≡ false) where
  create-IsRefused :
      (c : CreateMembershipParams)
      → IsRefused db (create_membership texts (record c { actor = actor }) env db)
  unfolding create_membership create_membership_in_tx
  create-IsRefused c = addressed (normalize_email texts c.email)
    where
      arg : CreateMembershipParams
      arg = record c { actor = actor }

      addressed : (o : Option String) → IsRefused db (create_with_email texts env arg o db)
      addressed none = record { error = refl; unchanged = refl }
      addressed (some email) =
          let normal = normalized_create texts arg email in
          unless_refused-IsRefused env db (create_refusal normal) _ (
            map_constraint-IsRefused env db
              (in_tenant_db_tx (create_membership_in_tx texts normal) env db)
              (tenant-IsRefused env db (create_membership_in_tx texts normal) (
                refused_first _ _ env (denied normal.actor organisation_manage env _ unpermitted))))

  change-IsRefused :
      (c : UpdateMembershipRoleParams)
      → IsRefused db (change_membership_role texts (record c { actor = actor }) env db)
  unfolding change_membership_role update_membership_role_in_tx
  change-IsRefused c =
      let normal = normalized_update texts (record c { actor = actor }) in
      unless_refused-IsRefused env db (update_refusal normal) _ (
        tenant-IsRefused env db (update_membership_role_in_tx texts normal)
          (refused_first _ _ env (denied normal.actor organisation_manage env _ unpermitted)))

  end-IsRefused :
      (c : DisableMembershipParams)
      → IsRefused db (end_membership texts (record c { actor = actor }) env db)
  unfolding end_membership disable_membership_in_tx
  end-IsRefused c =
      let normal = normalized_disable texts (record c { actor = actor }) in
      unless_refused-IsRefused env db (disable_refusal normal) _ (
        tenant-IsRefused env db (disable_membership_in_tx texts normal)
          (refused_first _ _ env (denied normal.actor organisation_manage env _ unpermitted)))

  -- An actor who has no active membership of the organisation with a role that grants
  -- organisation.manage creates, changes and disables no membership of it: each call returns an error
  -- and leaves all rows as they were.
  pub unpermitted-IsRefused :
      (c : CreateMembershipParams) (u : UpdateMembershipRoleParams) (d : DisableMembershipParams)
      → IsRefused db (create_membership texts (record c { actor = actor }) env db)
        × IsRefused db (change_membership_role texts (record u { actor = actor }) env db)
        × IsRefused db (end_membership texts (record d { actor = actor }) env db)
  unpermitted-IsRefused c u d = (create-IsRefused c, change-IsRefused u, end-IsRefused d)
