-- ===== src/Identity/Sessions/Operations.antt =====
-- CreateWebSession, ValidateWebSession, RotateWebSession and RevokeWebSession of
-- internal/domain/identity/service.go.
use seatd_v.Base.{
  ℕ, suc, ltb, ◌||◌, ◌==◌, ◌+◌, String, Option, none, some, List, ◌++◌, map, if◌then◌else◌,
  is_empty,
}
use seatd_v.Store.{Env, Outcome, ok, err, ◌>>=◌, ◌>>◌, pure, environment, handle, present}
use seatd_v.Identity.Schema.{
  Directory, Texts, WebSessionRow, UserProfile, MembershipRow, PlatformMembership,
}
use seatd_v.Identity.Transaction.{
  Error, unauthorized, validation, database, Action, refusal, unless_refused, in_platform_db_tx,
}
use seatd_v.Identity.Queries.{nullable_uuid}
use seatd_v.Identity.Secrets.{Token, lookup_prefix, secret_matches}
use seatd_v.Identity.Memberships.{user_profile_actor_ref}
use seatd_v.Identity.Devices.Registration.{opaque_token, with_token, nullable_text, minute}
use seatd_v.Identity.Devices.Pairing.{require_match}
use seatd_v.Identity.Sessions.Queries.{
  insert_web_session, get_web_session_by_prefix, touch_web_session, end_web_session,
  list_user_organisation_memberships, list_user_location_memberships,
  list_user_platform_memberships,
}

pub record Membership : Type 0 where
  pub organisation_id : ℕ
  pub location_id : ℕ
  pub member_ref : String
  pub role : String

-- The profile of a session that is not validated is its id alone.
pub record WebSession : Type 0 where
  pub session : WebSessionRow
  pub user_id : ℕ
  pub user : Option UserProfile
  pub secret : String
  pub memberships : List Membership

pub record CreateWebSessionParams : Type 0 where
  pub user_profile_id : ℕ
  pub ttl : ℕ
  pub user_agent : String
  pub ip_address : String
  pub rotated_from : ℕ

abbrev pub or_zero : Option ℕ → ℕ
or_zero none = 0
or_zero (some n) = n

-- A membership of an organisation has no location.
abbrev pub tenant_membership : MembershipRow → Membership
tenant_membership m = record {
  organisation_id = m.organisation_id;
  location_id = or_zero m.location_id;
  member_ref = m.member_ref;
  role = m.role;
}

abbrev pub platform_membership : Texts → PlatformMembership → Membership
platform_membership texts m = record {
  organisation_id = 0;
  location_id = 0;
  member_ref = user_profile_actor_ref texts m.user_profile_id;
  role = m.role;
}

abbrev pub hydrated :
    Texts
    → WebSessionRow
    → String
    → List MembershipRow
    → List PlatformMembership
    → List MembershipRow
    → WebSession
hydrated texts session secret orgs platform locations = record {
  session = session;
  user_id = session.user_profile_id;
  user = none;
  secret = secret;
  memberships =
      map tenant_membership orgs
      ++ map (platform_membership texts) platform
      ++ map tenant_membership locations;
}

unfoldable pub hydrate_in_tx : Texts → WebSessionRow → String → Action WebSession
unfolding list_user_organisation_memberships list_user_location_memberships
    list_user_platform_memberships
hydrate_in_tx texts session secret = do
  orgs ← handle database (list_user_organisation_memberships texts session.user_profile_id)
  locations ← handle database (list_user_location_memberships texts session.user_profile_id)
  platform ← handle database (list_user_platform_memberships texts session.user_profile_id)
  pure (hydrated texts session secret orgs platform locations)

-- What follows an operation that returned a value, over the next connection
abbrev pub followed :
    {A B : Type 0}
    → (A → Directory → Outcome Error B × Directory)
    → Outcome Error A × Directory
    → Outcome Error B × Directory
followed next (err e, db) = (err e, db)
followed next (ok a, db) = next a db

unfoldable pub hydrate_web_session :
    Texts → WebSessionRow → String → Env → Directory → Outcome Error WebSession × Directory
unfolding in_platform_db_tx hydrate_in_tx
hydrate_web_session texts session secret = in_platform_db_tx (hydrate_in_tx texts session secret)

abbrev pub limited : CreateWebSessionParams → CreateWebSessionParams
limited arg = record arg { ttl = if arg.ttl == 0 then 28800000000 else arg.ttl }

abbrev pub session_refusal : CreateWebSessionParams → Option Error
session_refusal arg =
    refusal (arg.user_profile_id == 0) validation
      (refusal (ltb (limited arg).ttl minute || ltb 86400000000 (limited arg).ttl) validation none)

abbrev pub address_of : Texts → String → Option String
address_of texts value =
    if is_empty (texts.trim_space value) then none else texts.parse_ip (texts.trim_space value)

unfoldable pub create_session_in_tx : Texts → CreateWebSessionParams → Token → Action WebSessionRow
unfolding insert_web_session
create_session_in_tx texts arg token = do
  env ← environment
  handle database (
      insert_web_session (record {
        user_profile_id = arg.user_profile_id;
        lookup_prefix = token.prefix;
        session_hash = token.hash;
        expires_at = env.wall + arg.ttl;
        user_agent = nullable_text (texts.trim_space arg.user_agent);
        ip_address = address_of texts arg.ip_address;
        rotated_from_session_id = nullable_uuid arg.rotated_from;
      }))

unfoldable pub create_web_session :
    Texts
    → Option String
    → CreateWebSessionParams
    → (ℕ → Env)
    → Directory
    → Outcome Error WebSession × Directory
unfolding in_platform_db_tx create_session_in_tx hydrate_web_session
create_web_session texts generated arg envs = unless_refused (session_refusal arg) (
    with_token
      (λ token db.
        followed (λ session. hydrate_web_session texts session token.secret (envs 1))
          (in_platform_db_tx (create_session_in_tx texts (limited arg) token) (envs 0) db))
      (opaque_token texts generated))

unfoldable pub validate_in_tx : Texts → String → String → Action (WebSessionRow × UserProfile)
unfolding get_web_session_by_prefix touch_web_session
validate_in_tx texts secret prefix = do
  found ← handle database (get_web_session_by_prefix prefix)
  row ← present unauthorized found
  require_match (secret_matches texts secret row.0.session_hash)
  handle database (touch_web_session row.0.id)
  pure row

abbrev pub with_user :
    UserProfile → Outcome Error WebSession × Directory → Outcome Error WebSession × Directory
with_user user (err e, db) = (err e, db)
with_user user (ok session, db) = (ok (record session { user_id = user.id; user = some user }), db)

abbrev pub validate_with_prefix :
    Texts
    → String
    → (ℕ → Env)
    → Outcome Error String
    → Directory
    → Outcome Error WebSession × Directory
validate_with_prefix texts secret envs (err e) db = (err unauthorized, db)
validate_with_prefix texts secret envs (ok prefix) db =
    followed (λ row db. with_user row.1 (hydrate_web_session texts row.0 secret (envs 1) db))
      (in_platform_db_tx (validate_in_tx texts secret prefix) (envs 0) db)

unfoldable pub validate_web_session :
    Texts → String → (ℕ → Env) → Directory → Outcome Error WebSession × Directory
unfolding in_platform_db_tx validate_in_tx hydrate_web_session
validate_web_session texts secret envs =
    validate_with_prefix texts secret envs (lookup_prefix texts secret)

-- The row that GetWebSessionByPrefix found, none for pgx.ErrNoRows
unfoldable pub revoke_found :
    Texts → String → Option (WebSessionRow × UserProfile) → Action (Unit {0})
unfolding end_web_session
revoke_found texts secret none = pure tt
revoke_found texts secret (some row) = do
  require_match (secret_matches texts secret row.0.session_hash)
  handle database (end_web_session row.0.id)

unfoldable pub revoke_in_tx : Texts → String → String → Action (Unit {0})
unfolding get_web_session_by_prefix revoke_found
revoke_in_tx texts secret prefix = do
  found ← handle database (get_web_session_by_prefix prefix)
  revoke_found texts secret found

abbrev pub revoke_with_prefix :
    Texts → String → Env → Outcome Error String → Directory → Outcome Error (Unit {0}) × Directory
revoke_with_prefix texts secret env (err e) db = (err unauthorized, db)
revoke_with_prefix texts secret env (ok prefix) db =
    in_platform_db_tx (revoke_in_tx texts secret prefix) env db

unfoldable pub revoke_web_session :
    Texts → String → Env → Directory → Outcome Error (Unit {0}) × Directory
unfolding in_platform_db_tx revoke_in_tx
revoke_web_session texts secret env =
    revoke_with_prefix texts secret env (lookup_prefix texts secret)

abbrev pub rotation_of : ℕ → String → String → WebSession → CreateWebSessionParams
rotation_of ttl user_agent ip_address current = record {
  user_profile_id = current.user_id;
  ttl = ttl;
  user_agent = user_agent;
  ip_address = ip_address;
  rotated_from = current.session.id;
}

-- The next session has the user of the current one; it is returned once the current one is revoked.
abbrev pub revoke_then :
    Texts
    → String
    → Env
    → WebSession
    → WebSession
    → Directory
    → Outcome Error WebSession × Directory
revoke_then texts secret env current next db =
    followed (λ _ db. (ok (record next { user_id = current.user_id; user = current.user }), db))
      (revoke_web_session texts secret env db)

module _ (texts : Texts) (generated : Option String) (secret : String) (ttl : ℕ)
    (user_agent ip_address : String) (envs : ℕ → Env) where
  abbrev pub replace : WebSession → Directory → Outcome Error WebSession × Directory
  replace current db = followed (revoke_then texts secret (envs 4) current) (
      create_web_session texts generated (rotation_of ttl user_agent ip_address current)
        (λ n. envs (suc (suc n))) db)

  unfoldable pub rotate_web_session : Directory → Outcome Error WebSession × Directory
  unfolding validate_web_session create_web_session revoke_web_session
  rotate_web_session db = followed replace (validate_web_session texts secret envs db)
