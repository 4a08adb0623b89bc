-- ===== src/Identity/Access/SessionKeeps.antt =====
-- The transactions on web sessions in internal/domain/identity/service.go, between the rows before and after.
use seatd_v.Base.{ℕ, ◌≡◌, refl, true, String, Option, none, some, is_some}
use seatd_v.Store.{handle}
use seatd_v.Identity.Schema.{Directory, Texts, WebSessionRow, UserProfile}
use seatd_v.Identity.Transaction.{unauthorized, database}
use seatd_v.Identity.Secrets.{Token}
use seatd_v.Identity.Keeps.{select-Keeps}
use seatd_v.Identity.Sessions.Queries.{
  NewSession, insert_web_session, insert_session, get_web_session_by_prefix, touch_web_session,
  end_web_session, list_user_organisation_memberships, list_user_location_memberships,
  list_user_platform_memberships, used_at, ended_at, first_time,
}
use seatd_v.Identity.Sessions.Operations.{
  CreateWebSessionParams, hydrate_in_tx, hydrated, create_session_in_tx, validate_in_tx,
  revoke_found, revoke_in_tx,
}
use seatd_v.Identity.Access.Later.{Later}
use seatd_v.Identity.Access.Statements.{insert_session-Later, update_sessions-Later}
use seatd_v.Identity.Access.DeviceKeeps.{
  IsKept, statement-IsKept, inserted-IsKept, read-IsKept, bind-IsKept, pure-IsKept, present-IsKept,
  environment-IsKept, require_match-IsKept,
}

module _ (origin : Directory) where
  pub hydrate-IsKept :
      (texts : Texts) (session : WebSessionRow) (secret : String)
      → IsKept origin (hydrate_in_tx texts session secret)
  unfolding hydrate_in_tx list_user_organisation_memberships list_user_location_memberships
      list_user_platform_memberships
  hydrate-IsKept texts session secret =
      bind-IsKept origin _ _ (select-Keeps (Later origin) _) (λ orgs.
        bind-IsKept origin _ _ (select-Keeps (Later origin) _) (λ locations.
          bind-IsKept origin _ _ (select-Keeps (Later origin) _) (λ platform.
            pure-IsKept origin (hydrated texts session secret orgs platform locations))))

  insert_session-IsKept : (n : NewSession) → IsKept origin (handle database (insert_web_session n))
  unfolding insert_web_session
  insert_session-IsKept n = inserted-IsKept origin (insert_session n) (insert_session-Later n)

  pub create_session-IsKept :
      (texts : Texts) (arg : CreateWebSessionParams) (token : Token)
      → IsKept origin (create_session_in_tx texts arg token)
  unfolding create_session_in_tx
  create_session-IsKept texts arg token =
      bind-IsKept origin _ _ (environment-IsKept origin) (λ env. insert_session-IsKept _)

  touch-IsKept : (id : ℕ) → IsKept origin (handle database (touch_web_session id))
  unfolding touch_web_session
  touch-IsKept id =
      statement-IsKept origin _ (update_sessions-Later _ used_at (λ now s. (refl, λ e. e)))

  pub first_time-some : (o : Option ℕ) (now : ℕ) → is_some (first_time o now) ≡ true
  first_time-some none now = refl
  first_time-some (some t) now = refl

  end-IsKept : (id : ℕ) → IsKept origin (handle database (end_web_session id))
  unfolding end_web_session
  end-IsKept id =
      statement-IsKept origin _
        (update_sessions-Later _ ended_at (λ now s. (refl, λ e. first_time-some s.revoked_at now)))

  pub validate-IsKept :
      (texts : Texts) (secret prefix : String) → IsKept origin (validate_in_tx texts secret prefix)
  unfolding validate_in_tx get_web_session_by_prefix
  validate-IsKept texts secret prefix = bind-IsKept origin _ _ (read-IsKept origin _) (λ found.
      bind-IsKept origin _ _ (present-IsKept origin unauthorized found) (λ row.
        bind-IsKept origin _ _ (require_match-IsKept origin _)
          (λ _. bind-IsKept origin _ _ (touch-IsKept row.0.id) (λ _. pure-IsKept origin row))))

  revoke_found-IsKept :
      (texts : Texts) (secret : String) (o : Option (WebSessionRow × UserProfile))
      → IsKept origin (revoke_found texts secret o)
  unfolding revoke_found
  revoke_found-IsKept texts secret none = pure-IsKept origin tt
  revoke_found-IsKept texts secret (some row) =
      bind-IsKept origin _ _ (require_match-IsKept origin _) (λ _. end-IsKept row.0.id)

  pub revoke_session-IsKept :
      (texts : Texts) (secret prefix : String) → IsKept origin (revoke_in_tx texts secret prefix)
  unfolding revoke_in_tx get_web_session_by_prefix
  revoke_session-IsKept texts secret prefix =
      bind-IsKept origin _ _ (read-IsKept origin _)
        (λ found. revoke_found-IsKept texts secret found)
