-- ===== src/Identity/Tests.antt =====
-- Runs of the memberships of internal/domain/identity on small inputs.
use seatd_v.Base.{
  ℕ, ◌≡◌, refl, arith, ◌+◌, true, false, String, none, some, List, [], ◌∷◌, find_row, select_rows,
}
use seatd_v.Store.{Env, is_ok, err, statement, select}
use seatd_v.Identity.Schema.{Directory, Texts, UserProfile, MembershipRow}
use seatd_v.Identity.Transaction.{validation, in_tx, in_tenant_db_tx}
use seatd_v.Identity.Queries.{
  owners, is_permitted, actor_has_organisation_permission, lock_managed_membership,
  count_organisation_owners,
}
use seatd_v.Identity.Updates.{lock_or_refuse}
use seatd_v.Identity.Memberships.{
  TenantActor, CreateMembershipParams, UpdateMembershipRoleParams, DisableMembershipParams,
  require_organisation_permission,
}
use seatd_v.Identity.Management.{
  create_membership, change_membership_role, end_membership, disable_membership_in_tx,
  require_another_organisation_owner,
}
use seatd_v.Identity.Calls.{Call, create, end, run}
use seatd_v.Identity.Permission.{IsRefused, unpermitted-IsRefused}
use seatd_v.Identity.Owners.{HasOwner}
use seatd_v.Identity.Owners.Run.{run-HasOwner}
use seatd_v.Identity.Ownership.{PlatformReassignOwnershipParams, platform_reassign_ownership}
use seatd_v.Identity.Owners.Reassignment.{IsHandover, reassign-loses_owner}

abbrev pub calm : Env
calm = record {
  now = 50;
  wall = 50;
  ids = λ n. 100 + n;
  faults = λ n. false;
  rollback_fails = false;
  commit_applied = false;
  traceparent = "";
  tracestate = "";
  encode_data = λ d. some [];
  encode_envelope = λ e. some [];
  to_jsonb = λ b. some b;
}

-- Texts that need no trimming
abbrev pub plain : Texts
plain = record {
  trim_space = λ s. s;
  to_lower = λ s. s;
  parse_address = λ s. some s;
  uuid_text = λ n. "id";
  lower_btrim = λ s. s;
  to_upper = λ s. s;
  without_dashes = λ s. s;
  sha256 = λ s. [];
  json_object = λ b. true;
  parse_ip = λ s. some s;
  is_before = λ a b. false;
}

abbrev profile : ℕ → String → UserProfile
profile id email = record {
  id = id;
  display_name = email;
  email = some email;
  status = "active";
  created_at = 1;
  updated_at = 1;
}

abbrev member : ℕ → ℕ → String → MembershipRow
member id profile_id role = record {
  id = id;
  organisation_id = 1;
  location_id = none;
  member_ref = "user:";
  role = role;
  created_at = 1;
  updated_at = 1;
  user_profile_id = some profile_id;
  disabled_at = none;
}

-- An owner and a reader
abbrev pub sample : Directory
sample = record {
  organisations = 1 ∷ [];
  locations = [];
  user_profiles = profile 21 "ann@x" ∷ profile 22 "bob@x" ∷ [];
  roles = "organisation_owner" ∷ "read_only" ∷ [];
  role_permissions =
      record { role_name = "organisation_owner"; permission_name = "organisation.manage" } ∷ [];
  organisation_memberships =
      member 11 21 "organisation_owner"
      ∷ record (member 12 22 "read_only") { member_ref = "user:bob" }
      ∷ [];
  location_memberships = [];
  audit_events = [];
  platform_memberships = [];
  devices = [];
  device_credentials = [];
  device_pairing_codes = [];
  web_sessions = [];
}

abbrev pub ann : TenantActor
ann = record { organisation_id = 1; location_id = 0; actor_ref = "user:" }

abbrev leaving : DisableMembershipParams
leaving = record { actor = ann; scope = "organisation"; id = 11 }

abbrev calls : List (Env × Call)
calls =
    (calm, end leaving)
    ∷ (
      calm,
      create (record {
        actor = ann;
        scope = "organisation";
        location_id = 0;
        email = "eve@x";
        display_name = "";
        role = "organisation_owner";
      }),
    )
    ∷ []

-- The last owner is not disabled.
leaving_refused : (end_membership plain leaving calm sample).0 ≡ err validation
unfolding end_membership disable_membership_in_tx in_tenant_db_tx in_tx
    require_organisation_permission actor_has_organisation_permission select statement
    lock_or_refuse lock_managed_membership require_another_organisation_owner
    count_organisation_owners find_row select_rows
leaving_refused = refl

sample-HasOwner : HasOwner 1 sample
unfolding find_row select_rows
sample-HasOwner = record { keyed = (refl, (refl, tt)); owned = omega arith }

run-HasOwner_example : HasOwner 1 (run plain calls sample)
run-HasOwner_example = run-HasOwner 1 plain calls sample sample-HasOwner

-- The reader of the sample
abbrev bob : TenantActor
bob = record { organisation_id = 1; location_id = 0; actor_ref = "user:bob" }

abbrev joining : CreateMembershipParams
joining = record {
  actor = bob;
  scope = "organisation";
  location_id = 0;
  email = "eve@x";
  display_name = "";
  role = "organisation_owner";
}

abbrev promoting : UpdateMembershipRoleParams
promoting = record { actor = bob; scope = "organisation"; id = 12; role = "organisation_owner" }

bob_unpermitted : is_permitted 1 "user:bob" "organisation.manage" sample ≡ false
unfolding find_row
bob_unpermitted = refl

unpermitted-IsRefused_example :
    IsRefused sample (create_membership plain joining calm sample)
    × IsRefused sample (change_membership_role plain promoting calm sample)
    × IsRefused sample (end_membership plain (record leaving { actor = bob }) calm sample)
unpermitted-IsRefused_example =
    unpermitted-IsRefused plain bob calm sample bob_unpermitted joining promoting leaving

abbrev passing_on : PlatformReassignOwnershipParams
passing_on = record {
  target_organisation_id = 1;
  from_membership_id = 11;
  to_email = "bob@x";
  actor_ref = "admin";
}

abbrev reader : MembershipRow
reader = record (member 12 22 "read_only") { member_ref = "user:bob" }

sample-IsHandover :
    IsHandover plain passing_on calm sample "bob@x"
      (profile 22 "bob@x")
      (member 11 21 "organisation_owner")
      reader
unfolding find_row select_rows
sample-IsHandover = record {
  keyed = sample-HasOwner.keyed;
  stored = refl;
  owner = refl;
  only = refl;
  indexed = refl;
  role = refl;
  profile_stored = refl;
  member = refl;
  active = refl;
  no_owner = refl;
}

reassign-loses_owner_example :
    (is_ok (platform_reassign_ownership plain passing_on calm sample).0 ≡ true)
    × (owners 1 (platform_reassign_ownership plain passing_on calm sample).1 ≡ 0)
reassign-loses_owner_example =
    reassign-loses_owner plain passing_on calm sample "bob@x" (profile 22 "bob@x")
      (member 11 21 "organisation_owner") reader sample-IsHandover (λ n. refl) refl refl refl refl
