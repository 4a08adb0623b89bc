-- ===== src/Identity/Access/SignedOut.antt =====
-- RevokeWebSession and ValidateWebSession of internal/domain/identity/service.go.
use seatd_v.Base.{
  ℕ, ◌≡◌, ◌≤◌, refl, sym, ap, ◌∙◌, subst, arith, false, ◌&&◌, ◌==◌, String, Option, none, some,
  List, inl, inr, Option-cases, find_row, find_row-test, update_rows, count_rows, only-IsOver,
  has_row-found,
}
use seatd_v.Store.{
  Env, TxOn, Outcome, ok, err, is_ok, after_action, after_statement, after_present, statement,
  map_error_inv, statement_returns,
}
use seatd_v.Identity.Schema.{Directory, Texts, WebSessionRow, UserProfile}
use seatd_v.Identity.Transaction.{Error, unauthorized, database, in_platform_db_tx}
use seatd_v.Identity.Secrets.{lookup_prefix, secret_matches}
use seatd_v.Identity.Devices.Pairing.{require_match}
use seatd_v.Identity.Sessions.Queries.{
  get_web_session_by_prefix, read_session, is_live, profile_of, with_profile, end_web_session,
  update_sessions, ended_at,
}
use seatd_v.Identity.Sessions.Operations.{
  validate_web_session, validate_in_tx, revoke_web_session, revoke_in_tx, revoke_found,
  revoke_with_prefix, followed, with_user, hydrate_web_session,
}
use seatd_v.Identity.Access.Later.{IsEnded, has_prefix, is_unended}
use seatd_v.Identity.Access.SessionKeeps.{first_time-some}
use seatd_v.Identity.Access.Calls.{Call, run}
use seatd_v.Identity.Access.Kept.{run-Later}
use seatd_v.Identity.Access.Returns.{platform_inv, begun, require_match-same}

with_profile-some :
    (db : Directory) (s : WebSessionRow) (row : WebSessionRow × UserProfile)
    → with_profile db (some s) ≡ some row
    → row.0 ≡ s
with_profile-some db s row h = elim (Option-cases (profile_of db s)) [
  | inl e ↦ (let absent = rw e at h in cc)
  | inr (p, e) ↦
      let same : ◌≡◌ {A = Option (WebSessionRow × UserProfile)} (some (s, p)) (some row) =
        rw e at h in
      cc
]

-- The session that a query found was stored, live.
read-is_stored :
    (db : Directory) (o : Option WebSessionRow) (row : WebSessionRow × UserProfile)
    → with_profile db o ≡ some row
    → o ≡ some row.0
read-is_stored db none row h = cc
read-is_stored db (some s) row h = ap some (sym (with_profile-some db s row h))

module _ (prefix : String) (now : ℕ) (db : Directory) (s : WebSessionRow)
    (one : count_rows (has_prefix prefix) db.web_sessions ≤ 1)
    (live : find_row (is_live prefix now db) db.web_sessions ≡ some s) where
  abbrev ended_rows : List WebSessionRow
  ended_rows = update_rows (λ x. x.id == s.id) (ended_at now) db.web_sessions

  ended_rows-IsEnded : IsEnded prefix (record db { web_sessions = ended_rows })
  ended_rows-IsEnded =
      only-IsOver (has_prefix prefix) is_unended (is_live prefix now db) (λ x. x.id == s.id)
        (ended_at now) db.web_sessions s (λ x h. ground arith) (λ x. refl)
        (λ x. let ends = first_time-some db x.revoked_at now in ground arith) one live
        (ground arith)

  found-some :
      (o : Option (WebSessionRow × UserProfile))
      → with_profile db (find_row (is_live prefix now db) db.web_sessions) ≡ o
      → (row : WebSessionRow × UserProfile) × (o ≡ some row) × (row.0 ≡ s)
  found-some (some row) h =
      let stored = read-is_stored db (find_row (is_live prefix now db) db.web_sessions) row h in
      (row, refl, cc)
  found-some none h =
      let passes = find_row-test (is_live prefix now db) db.web_sessions s live in
      elim (Option-cases (profile_of db s)) [
        | inl e ↦ ground (arith, e)
        | inr (p, e) ↦ (let found = rw (live, e) at h in cc)
      ]

-- A transaction of RevokeWebSession that returned, where the session was live
module _ (texts : Texts) (secret prefix : String) (env : Env) (db : Directory) (s : WebSessionRow)
    (one : count_rows (has_prefix prefix) db.web_sessions ≤ 1)
    (live : find_row (is_live prefix env.now db) db.web_sessions ≡ some s) where
  end-IsEnded :
      (row : WebSessionRow × UserProfile) (t u : TxOn Directory)
      → row.0 ≡ s
      → t.db ≡ db
      → revoke_found texts secret (some row) env t ≡ ok (tt, u)
      → IsEnded prefix u.db
  unfolding revoke_found end_web_session
  end-IsEnded row t u own same h =
      after_action (require_match (secret_matches texts secret row.0.session_hash)) _ env t h
        (λ _ t1 matched h.
          let stays =
            require_match-same (secret_matches texts secret row.0.session_hash) env t t1 matched in
          let ending = update_sessions (λ now x. x.id == row.0.id) ended_at in
          let wrote =
            statement_returns ending env t1 (map_error_inv database (statement ending env t1) h) in
          let here : t1.db ≡ db = stays ∙ same in
          let left : ended_in t1.db row.0 ≡ u.db = cc in
          subst (IsEnded prefix) left (
            subst (λ d. IsEnded prefix (ended_in d row.0)) (sym here)
              (subst (λ x. IsEnded prefix (ended_in db x)) (sym own)
                (ended_rows-IsEnded prefix env.now db s one live))))
    where
      ended_in : Directory → WebSessionRow → Directory
      ended_in d s = record d {
        web_sessions = update_rows (λ x. x.id == s.id) (ended_at env.now) d.web_sessions;
      }

  revoke_session-IsEnded :
      (db' : Directory)
      → lookup_prefix texts secret ≡ ok prefix
      → revoke_web_session texts secret env db ≡ (ok tt, db')
      → IsEnded prefix db'
  unfolding revoke_web_session revoke_in_tx get_web_session_by_prefix
  revoke_session-IsEnded db' named h =
      let reached = subst (λ o. revoke_with_prefix texts secret env o db ≡ (ok tt, db')) named h in
      let (u, ran, left) = platform_inv (revoke_in_tx texts secret prefix) env db reached in
      subst (IsEnded prefix) left (
        after_statement database (read_session prefix) _ env (begun db) ran (λ o db1 read h.
          let t1 : TxOn Directory = record (begun db) { db = db1; sent = 3 } in
          let stays : db1 ≡ db = cc in
          let found : with_profile db (find_row (is_live prefix env.now db) db.web_sessions) ≡ o =
            cc in
          let (row, is, own) = found-some prefix env.now db s one live o found in
          end-IsEnded row t1 u own stays
            (subst (λ o. revoke_found texts secret o env t1 ≡ ok (tt, u)) is h)))

-- No secret with the prefix of a session that ended validates.
ended-validates_never :
    (texts : Texts) (secret prefix : String) (envs : ℕ → Env) (db : Directory)
    → lookup_prefix texts secret ≡ ok prefix
    → IsEnded prefix db
    → is_ok (validate_web_session texts secret envs db).0 ≡ false
unfolding validate_web_session validate_in_tx get_web_session_by_prefix
ended-validates_never texts secret prefix envs db named over =
    rw named (stopped (in_platform_db_tx (validate_in_tx texts secret prefix) (envs 0) db) refl)
  where
    stopped :
        (r : Outcome Error (WebSessionRow × UserProfile) × Directory)
        → in_platform_db_tx (validate_in_tx texts secret prefix) (envs 0) db ≡ r
        → is_ok
            (followed
              (λ row db. with_user row.1 (hydrate_web_session texts row.0 secret (envs 1) db))
              r).0
          ≡ false
    stopped (err e, after) h = refl
    stopped (ok row, after) h =
        let (u, ran, left) = platform_inv (validate_in_tx texts secret prefix) (envs 0) db h in
        let live = is_live prefix (envs 0).now db in
        after_statement database (read_session prefix) _ (envs 0) (begun db) ran (λ o db1 read h.
          let t1 : TxOn Directory = record (begun db) { db = db1; sent = 3 } in
          after_present unauthorized o _ (envs 0) t1 h (λ row there h.
            let found : with_profile db (find_row live db.web_sessions) ≡ o = cc in
            let stored = read-is_stored db (find_row live db.web_sessions) row (found ∙ there) in
            let passes = find_row-test live db.web_sessions row.0 stored in
            let unended =
              has_row-found live (λ s. has_prefix prefix s && is_unended s) db.web_sessions row.0
                stored (ground arith) in
            let dead = over.1 in cc))

-- A live web session whose secret RevokeWebSession is given, and that returned: whatever calls follow,
-- no secret with the prefix of that session validates. A UNIQUE constraint demands one row of a prefix.
pub signed_out-validates_never :
    (texts : Texts) (secret prefix : String) (env : Env) (db : Directory) (s : WebSessionRow)
    (db' : Directory)
    → lookup_prefix texts secret ≡ ok prefix
    → count_rows (has_prefix prefix) db.web_sessions ≤ 1
    → find_row (is_live prefix env.now db) db.web_sessions ≡ some s
    → revoke_web_session texts secret env db ≡ (ok tt, db')
    → (calls : List ((ℕ → Env) × Call)) (again : String) (later : ℕ → Env)
    → lookup_prefix texts again ≡ ok prefix
    → is_ok (validate_web_session texts again later (run texts calls db')).0 ≡ false
signed_out-validates_never texts secret prefix env db s db' named one live h calls again later
      same =
    ended-validates_never texts again prefix later (run texts calls db') same (
      (run-Later texts calls db').sessions prefix
        (revoke_session-IsEnded texts secret prefix env db s one live db' named h))
