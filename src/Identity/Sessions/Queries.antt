-- ===== src/Identity/Sessions/Queries.antt =====
-- The statements on web sessions in internal/store/db/security.sql.go, with the constraints of
-- infra/database/migrations/000011_web_sessions.up.sql.
use seatd_v.Base.{
  ℕ, leb, ltb, Bool, true, not, ◌&&◌, ◌||◌, ◌==◌, String, Option, none, some, List, [], ◌∷◌,
  if◌then◌else◌, is_empty, is_some, holds, has_row, find_row, find_key, select_rows, update_rows,
  length, str_eq,
}
use seatd_v.Store.{
  Env, Bytes, DbError, violation, duplicate, Outcome, ok, err, ◌>>=◌, new_id, statement, select,
}
use seatd_v.Identity.Schema.{
  Directory, Texts, WebSessionRow, UserProfile, MembershipRow, PlatformMembership,
}
use seatd_v.Identity.Queries.{Query, is_active}

-- What a CreateWebSession inserts
pub record NewSession : Type 0 where
  pub user_profile_id : ℕ
  pub lookup_prefix : String
  pub session_hash : Bytes
  pub expires_at : ℕ
  pub user_agent : Option String
  pub ip_address : Option String
  pub rotated_from_session_id : Option ℕ

abbrev pub opened : NewSession → ℕ → ℕ → WebSessionRow
opened n id now = record {
  id = id;
  user_profile_id = n.user_profile_id;
  lookup_prefix = n.lookup_prefix;
  session_hash = n.session_hash;
  issued_at = now;
  last_used_at = none;
  expires_at = n.expires_at;
  revoked_at = none;
  rotated_from_session_id = n.rotated_from_session_id;
  user_agent = n.user_agent;
  ip_address = n.ip_address;
  created_at = now;
  updated_at = now;
}

abbrev pub is_rotatable : Option ℕ → Directory → Bool
is_rotatable none db = true
is_rotatable (some id) db = has_row (λ s. s.id == id) db.web_sessions

abbrev pub is_openable : NewSession → ℕ → Directory → Bool
is_openable n now db =
    has_row (λ p. p.id == n.user_profile_id) db.user_profiles
    && not (is_empty n.lookup_prefix)
    && leb 32 (length n.session_hash)
    && ltb now n.expires_at
    && is_rotatable n.rotated_from_session_id db

abbrev pub insert_session :
    NewSession → ℕ → Env → Directory → Outcome DbError (WebSessionRow × Directory)
insert_session n id env db =
    if has_row (λ s. s.id == id || str_eq s.lookup_prefix n.lookup_prefix) db.web_sessions
    then err duplicate
    else if is_openable n env.now db
    then ok
        (opened n id env.now, record db { web_sessions = opened n id env.now ∷ db.web_sessions })
    else err violation

unfoldable pub insert_web_session : NewSession → Query WebSessionRow
unfolding statement
insert_web_session n = do id ← new_id; statement (insert_session n id)

-- GetWebSessionByPrefix: a session that may be used, with its profile
abbrev pub active_profile : Option UserProfile → Option UserProfile
active_profile none = none
active_profile (some p) = if str_eq p.status "active" then some p else none

abbrev pub profile_of : Directory → WebSessionRow → Option UserProfile
profile_of db s = active_profile (find_key (λ p. p.id) s.user_profile_id db.user_profiles)

abbrev pub is_live : String → ℕ → Directory → WebSessionRow → Bool
is_live prefix now db s =
    str_eq s.lookup_prefix prefix
    && not (is_some s.revoked_at)
    && ltb now s.expires_at
    && is_some (profile_of db s)

abbrev pub with_profile : Directory → Option WebSessionRow → Option (WebSessionRow × UserProfile)
with_profile db none = none
with_profile db (some s) = paired (profile_of db s)
  where
    paired : Option UserProfile → Option (WebSessionRow × UserProfile)
    paired none = none
    paired (some p) = some (s, p)

abbrev pub read_session :
    String → Env → Directory → Outcome DbError (Option (WebSessionRow × UserProfile) × Directory)
read_session prefix env db =
    ok (with_profile db (find_row (is_live prefix env.now db) db.web_sessions), db)

unfoldable pub get_web_session_by_prefix : String → Query (Option (WebSessionRow × UserProfile))
unfolding statement
get_web_session_by_prefix prefix = statement (read_session prefix)

abbrev pub update_sessions :
    (ℕ → WebSessionRow → Bool)
    → (ℕ → WebSessionRow → WebSessionRow)
    → Env
    → Directory
    → Outcome DbError (Unit {0} × Directory)
update_sessions test change env db =
    ok
      (tt, record db { web_sessions = update_rows (test env.now) (change env.now) db.web_sessions })

abbrev pub used_at : ℕ → WebSessionRow → WebSessionRow
used_at now s = record s { last_used_at = some now; updated_at = now }

unfoldable pub touch_web_session : ℕ → Query (Unit {0})
unfolding statement
touch_web_session id = statement (
    update_sessions (λ now s. s.id == id && not (is_some s.revoked_at) && ltb now s.expires_at)
      used_at)

-- COALESCE(revoked_at, now())
abbrev pub first_time : Option ℕ → ℕ → Option ℕ
first_time none now = some now
first_time (some t) now = some t

abbrev pub ended_at : ℕ → WebSessionRow → WebSessionRow
ended_at now s = record s { revoked_at = first_time s.revoked_at now; updated_at = now }

unfoldable pub end_web_session : ℕ → Query (Unit {0})
unfolding statement
end_web_session id = statement (update_sessions (λ now s. s.id == id) ended_at)

-- ORDER BY role, member_ref; rows that tie keep the order that they are stored in
abbrev pub is_ordered : Texts → String → String → String → String → Bool
is_ordered texts role ref role' ref' =
    texts.is_before role role' || (str_eq role role' && not (texts.is_before ref' ref))

unfoldable pub insert_in_order : {A : Type 0} → (A → A → Bool) → A → List A → List A
insert_in_order ordered x [] = x ∷ []
insert_in_order ordered x (y ∷ ys) =
    let rest = insert_in_order ordered x ys in if ordered x y then x ∷ y ∷ ys else y ∷ rest

unfoldable pub order_by : {A : Type 0} → (A → A → Bool) → List A → List A
unfolding insert_in_order
order_by ordered [] = []
order_by ordered (x ∷ xs) = insert_in_order ordered x (order_by ordered xs)

abbrev pub memberships_of : Texts → ℕ → List MembershipRow → List MembershipRow
memberships_of texts user_profile_id rows =
    order_by (λ a b. is_ordered texts a.role a.member_ref b.role b.member_ref)
      (select_rows (λ m. holds m.user_profile_id user_profile_id && is_active m) rows)

module _ (texts : Texts) (user_profile_id : ℕ) where
  unfoldable pub list_user_organisation_memberships : Query (List MembershipRow)
  unfolding select order_by
  list_user_organisation_memberships =
      select (λ db. memberships_of texts user_profile_id db.organisation_memberships)

  unfoldable pub list_user_location_memberships : Query (List MembershipRow)
  unfolding select order_by
  list_user_location_memberships =
      select (λ db. memberships_of texts user_profile_id db.location_memberships)

  unfoldable pub list_user_platform_memberships : Query (List PlatformMembership)
  unfolding select order_by
  list_user_platform_memberships = select (λ db.
      order_by (λ a b. not (texts.is_before b.role a.role))
        (select_rows (λ m. m.user_profile_id == user_profile_id && not (is_some m.disabled_at))
          db.platform_memberships))
