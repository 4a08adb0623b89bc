-- ===== src/Identity/Queries.antt =====
-- The statements of internal/domain/identity/memberships.go and of internal/store/db/security.sql.go and
-- organisation.sql.go that it sends, with the constraints of infra/database/migrations. Row-level
-- security is not modelled: each statement names its tenant.
use seatd_v.Base.{
  ℕ, Bool, true, false, not, ◌&&◌, ◌||◌, ◌==◌, String, Option, none, some, List, ◌∷◌, if◌then◌else◌,
  is_empty, is_some, holds, has_row, find_row, find_key, count_rows, str_eq,
}
use seatd_v.Store.{
  Env, DbError, violation, duplicate, Outcome, ok, err, QueryOn, ◌>>=◌, new_id, statement, select,
}
use seatd_v.Identity.Schema.{Directory, Texts, UserProfile, LocationRow, MembershipRow}

abbrev pub scope_organisation : String
scope_organisation = "organisation"

abbrev pub scope_location : String
scope_location = "location"

abbrev pub organisation_owner : String
organisation_owner = "organisation_owner"

abbrev pub Query : Type 0 → Type 0
Query = QueryOn Directory

-- nullableUUID
abbrev pub nullable_uuid : ℕ → Option ℕ
nullable_uuid value = if value == 0 then none else some value

-- `a = b` in SQL: never true of NULL.
abbrev pub equal_uuid : Option ℕ → Option ℕ → Bool
equal_uuid none b = false
equal_uuid (some a) b = holds b a

abbrev pub or_nil : Option ℕ → ℕ
or_nil none = 0
or_nil (some id) = id

abbrev pub or_blank : Option String → String
or_blank none = ""
or_blank (some text) = text

-- ManagedMembership, without the permissions, which only the list of memberships fills
pub record ManagedMembership : Type 0 where
  pub id : ℕ
  pub scope : String
  pub organisation_id : ℕ
  pub location_id : ℕ
  pub user_profile_id : ℕ
  pub display_name : String
  pub email : String
  pub member_ref : String
  pub role : String
  pub disabled_at : Option ℕ

-- ActorHasOrganisationPermission
abbrev pub is_active : MembershipRow → Bool
is_active m = not (is_some m.disabled_at)

abbrev pub grants : Directory → String → MembershipRow → Bool
grants db permission m =
    has_row (λ p. str_eq p.role_name m.role && str_eq p.permission_name permission)
      db.role_permissions

abbrev pub is_permitted : ℕ → String → String → Directory → Bool
is_permitted organisation_id member_ref permission db =
    has_row
      (λ m.
        m.organisation_id == organisation_id
        && str_eq m.member_ref member_ref
        && is_active m
        && grants db permission m)
      db.organisation_memberships

unfoldable pub actor_has_organisation_permission : ℕ → String → String → Query Bool
unfolding select
actor_has_organisation_permission organisation_id member_ref permission =
    select (λ db. is_permitted organisation_id member_ref permission db)

unfoldable pub get_organisation : ℕ → Query (Option ℕ)
unfolding select
get_organisation id = select (λ db. find_key (λ o. o) id db.organisations)

unfoldable pub get_location : ℕ → ℕ → Query (Option LocationRow)
unfolding select
get_location id organisation_id =
    select (λ db. find_row (λ l. l.id == id && l.organisation_id == organisation_id) db.locations)

-- getUserProfileByEmail
abbrev pub has_email : Texts → String → Option String → Bool
has_email texts email none = false
has_email texts email (some e) = str_eq (texts.lower_btrim e) email

abbrev pub is_profile_of : Texts → String → UserProfile → Bool
is_profile_of texts email p = has_email texts email p.email && str_eq p.status "active"

unfoldable pub get_user_profile_by_email : Texts → String → Query (Option UserProfile)
unfolding select
get_user_profile_by_email texts email =
    select (λ db. find_row (is_profile_of texts email) db.user_profiles)

-- CreateUserProfile
abbrev pub new_profile : ℕ → String → String → ℕ → UserProfile
new_profile now email display_name id = record {
  id = id;
  display_name = display_name;
  email = some email;
  status = "active";
  created_at = now;
  updated_at = now;
}

abbrev pub insert_profile :
    Texts → String → String → ℕ → Env → Directory → Outcome DbError (UserProfile × Directory)
insert_profile texts email display_name id env db =
    if is_empty display_name || is_empty email
    then err violation
    else if has_row (λ p. p.id == id || is_profile_of texts (texts.lower_btrim email) p)
        db.user_profiles
    then err duplicate
    else ok (
      new_profile env.now email display_name id,
      record db { user_profiles = new_profile env.now email display_name id ∷ db.user_profiles },
    )

unfoldable pub create_user_profile : Texts → String → String → Query UserProfile
unfolding statement
create_user_profile texts email display_name = do
  id ← new_id
  statement (insert_profile texts email display_name id)

-- The rows of a scope
abbrev pub is_location : String → Bool
is_location scope = str_eq scope scope_location

abbrev pub memberships_of : String → Directory → List MembershipRow
memberships_of scope db =
    if is_location scope then db.location_memberships else db.organisation_memberships

abbrev pub with_memberships : String → List MembershipRow → Directory → Directory
with_memberships scope rows db = record db {
  organisation_memberships = if is_location scope then db.organisation_memberships else rows;
  location_memberships = if is_location scope then rows else db.location_memberships;
}

-- The unique indexes: both rows in one organisation or at one location, with one reference or, both
-- active, with one profile.
abbrev pub is_rival : MembershipRow → MembershipRow → Bool
is_rival a b = is_active a && is_active b && equal_uuid a.user_profile_id b.user_profile_id

abbrev pub is_beside : String → MembershipRow → MembershipRow → Bool
is_beside scope a b =
    if is_location scope
    then equal_uuid a.location_id b.location_id
    else a.organisation_id == b.organisation_id

abbrev pub is_clash : String → MembershipRow → MembershipRow → Bool
is_clash scope a b =
    a.id == b.id || (is_beside scope a b && (str_eq a.member_ref b.member_ref || is_rival a b))

abbrev pub is_role : String → Directory → Bool
is_role role db = has_row (str_eq role) db.roles

-- The foreign keys of a row, and CHECK (member_ref <> '')
abbrev pub is_referenced : Option ℕ → Directory → Bool
is_referenced none db = true
is_referenced (some id) db = has_row (λ p. p.id == id) db.user_profiles

abbrev pub is_placed : MembershipRow → Option ℕ → Directory → Bool
is_placed m none db = has_row (λ o. o == m.organisation_id) db.organisations
is_placed m (some id) db =
    has_row (λ l. l.id == id && l.organisation_id == m.organisation_id) db.locations

abbrev pub is_insertable : MembershipRow → Directory → Bool
is_insertable m db =
    not (is_empty m.member_ref)
    && is_role m.role db
    && is_referenced m.user_profile_id db
    && is_placed m m.location_id db

-- CreateUserOrganisationMembership, CreateUserLocationMembership
abbrev pub insert_membership :
    String → (ℕ → MembershipRow) → Env → Directory → Outcome DbError (MembershipRow × Directory)
insert_membership scope row env db =
    if has_row (is_clash scope (row env.now)) (memberships_of scope db)
    then err duplicate
    else if is_insertable (row env.now) db
    then ok (row env.now, with_memberships scope (row env.now ∷ memberships_of scope db) db)
    else err violation

abbrev pub new_membership : ℕ → Option ℕ → Option ℕ → String → String → ℕ → ℕ → MembershipRow
new_membership organisation_id location_id user_profile_id member_ref role id now = record {
  id = id;
  organisation_id = organisation_id;
  location_id = location_id;
  member_ref = member_ref;
  role = role;
  created_at = now;
  updated_at = now;
  user_profile_id = user_profile_id;
  disabled_at = none;
}

unfoldable pub create_user_organisation_membership :
    ℕ → Option ℕ → String → String → Query MembershipRow
unfolding statement
create_user_organisation_membership organisation_id user_profile_id member_ref role = do
  id ← new_id
  statement (
      insert_membership scope_organisation
        (new_membership organisation_id none user_profile_id member_ref role id))

unfoldable pub create_user_location_membership :
    ℕ → ℕ → Option ℕ → String → String → Query MembershipRow
unfolding statement
create_user_location_membership organisation_id location_id user_profile_id member_ref role = do
  id ← new_id
  statement (
      insert_membership scope_location
        (new_membership organisation_id (some location_id) user_profile_id member_ref role id))

-- scanManagedMembership
abbrev pub profile_name : Option UserProfile → String
profile_name none = ""
profile_name (some p) = p.display_name

abbrev pub profile_email : Option UserProfile → String
profile_email none = ""
profile_email (some p) = or_blank p.email

abbrev pub scan_managed_membership : String → MembershipRow → Option UserProfile → ManagedMembership
scan_managed_membership scope m profile = record {
  id = m.id;
  scope = if is_location scope then scope_location else scope_organisation;
  organisation_id = m.organisation_id;
  location_id = or_nil m.location_id;
  user_profile_id = or_nil m.user_profile_id;
  display_name = profile_name profile;
  email = profile_email profile;
  member_ref = m.member_ref;
  role = m.role;
  disabled_at = m.disabled_at;
}

-- JOIN user_profiles up ON up.id = …
abbrev pub profile_of : Directory → MembershipRow → Option UserProfile
profile_of db m = find_row (λ p. holds m.user_profile_id p.id) db.user_profiles

-- getMembershipByProfile
abbrev pub is_member_at : String → ℕ → ℕ → Option ℕ → Directory → MembershipRow → Bool
is_member_at scope organisation_id location_id profile_id db m =
    m.organisation_id == organisation_id
    && (not (is_location scope) || holds m.location_id location_id)
    && equal_uuid m.user_profile_id profile_id
    && is_some (profile_of db m)

abbrev pub managed : String → Directory → Option MembershipRow → Option ManagedMembership
managed scope db none = none
managed scope db (some m) = some (scan_managed_membership scope m (profile_of db m))

unfoldable pub get_membership_by_profile : ℕ → String → ℕ → ℕ → Query (Option ManagedMembership)
unfolding select
get_membership_by_profile organisation_id scope location_id user_profile_id = select (λ db.
    managed scope db (
      find_row (is_member_at scope organisation_id location_id (nullable_uuid user_profile_id) db)
        (memberships_of scope db)))

abbrev pub valid_membership_scope : String → Bool
valid_membership_scope scope = str_eq scope scope_organisation || str_eq scope scope_location

-- getManagedMembershipForUpdate
abbrev pub is_membership : ℕ → ℕ → MembershipRow → Bool
is_membership organisation_id id m = m.organisation_id == organisation_id && m.id == id

unfoldable pub lock_managed_membership : ℕ → String → ℕ → Query (Option ManagedMembership)
unfolding select
lock_managed_membership organisation_id scope id =
    select (λ db.
      managed scope db (find_row (is_membership organisation_id id) (memberships_of scope db)))

-- requireAnotherOrganisationOwner
abbrev pub is_owner : ℕ → MembershipRow → Bool
is_owner organisation_id m =
    m.organisation_id == organisation_id && str_eq m.role organisation_owner && is_active m

abbrev pub owners : ℕ → Directory → ℕ
owners organisation_id db = count_rows (is_owner organisation_id) db.organisation_memberships

unfoldable pub count_organisation_owners : ℕ → Query ℕ
unfolding select
count_organisation_owners organisation_id = select (λ db. owners organisation_id db)
