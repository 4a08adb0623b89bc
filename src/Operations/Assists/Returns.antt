-- ===== src/Operations/Assists/Returns.antt =====
-- What a change of an assist request has done when it returns.
use seatd_v.Base.{
  ℕ, ◌≡◌, ◌<◌, subst, Bool, true, false, not, ◌&&◌, Option, some, ◌==◌, arith, find_row,
  update_rows, String,
}
use seatd_v.Store.{
  Database, AssistRequest, AssistStatus, pending, acknowledged, resolved, cancelled, max_int32, Env,
  Tx, ok, after_handle, after_refusal, map_error_inv,
}
use seatd_v.Operations.Queries.{Key}
use seatd_v.Operations.Tables.{nullable_text}
use seatd_v.Operations.Assists.{
  ChangeAssistParams, is_pending, is_active, is_resolved, is_assist, acknowledged_by_at,
  resolved_by_at, cancelled_by_at, lock_assist_request, update_assist, valid_assist_transition,
  change_status, change_assist_in_tx,
}

-- What the three UPDATE statements allow and set.
abbrev pub allowed : AssistStatus → AssistStatus → Bool
allowed acknowledged s = is_pending s
allowed resolved s = is_active s
allowed cancelled s = is_active s
allowed pending s = false

abbrev pub changed_by_at : AssistStatus → Option String → ℕ → AssistRequest → AssistRequest
changed_by_at acknowledged by now a = acknowledged_by_at by now a
changed_by_at resolved by now a = resolved_by_at by now a
changed_by_at cancelled by now a = cancelled_by_at by now a
changed_by_at pending by now a = a

abbrev pub is_changeable : AssistStatus → ChangeAssistParams → AssistRequest → Bool
is_changeable next arg a =
    is_assist arg.assist a && allowed next a.status && a.version == arg.expected_version

module _ (env : Env) (db : Database) (r : AssistRequest) (db' : Database) where
  pub record Changes (next : AssistStatus) (arg : ChangeAssistParams) : Type 0 where
    pub before : AssistRequest
    pub found : find_row (is_changeable next arg) db.assists ≡ some before
    pub in_range : before.version < max_int32
    pub changed : r ≡ changed_by_at next (nullable_text arg.actor_ref) env.now before
    pub stored : db' ≡ record db {
      assists =
          update_rows
            (is_changeable next arg)
            (changed_by_at next (nullable_text arg.actor_ref) env.now)
            db.assists;
    }

update_assist_returns :
    (env : Env) (t u : Tx) (r : AssistRequest) (key : Key) (version : ℕ)
    (ok_in : AssistStatus → Bool) (change : ℕ → AssistRequest → AssistRequest)
    → update_assist key version ok_in change env t ≡ ok (r, u)
    → (a : AssistRequest) × (find_row
          (λ a. is_assist key a && ok_in a.status && a.version == version)
          t.db.assists
        ≡ some a)
      × (a.version < max_int32)
      × (r ≡ change env.now a)
      × (u.db ≡ record t.db {
        assists =
            update_rows
              (λ a. is_assist key a && ok_in a.status && a.version == version)
              (change env.now)
              t.db.assists;
      })
unfolding update_assist
update_assist_returns env t u r key version ok_in change h = ground arith

module _ (env : Env) (t u : Tx) (r : AssistRequest) (arg : ChangeAssistParams) where
  update_assist-Changes :
      (next : AssistStatus)
      → update_assist arg.assist arg.expected_version
          (allowed next)
          (changed_by_at next (nullable_text arg.actor_ref))
          env
          t
        ≡ ok (r, u)
      → Changes env t.db r u.db next arg
  update_assist-Changes next h =
      let (a, found, in_range, changed, stored) =
        update_assist_returns env t u r arg.assist arg.expected_version (allowed next)
          (changed_by_at next (nullable_text arg.actor_ref)) h in
      record { before = a; found = found; in_range = in_range; changed = changed; stored = stored }

  change_status_returns :
      (next : AssistStatus)
      → change_status next arg env t ≡ ok (r, u)
      → Changes env t.db r u.db next arg
  unfolding change_status
  change_status_returns pending h = absurd (ground arith)
  change_status_returns acknowledged h = update_assist-Changes acknowledged (map_error_inv _ _ h)
  change_status_returns resolved h = update_assist-Changes resolved (map_error_inv _ _ h)
  change_status_returns cancelled h = update_assist-Changes cancelled (map_error_inv _ _ h)

lock_assist_request_returns :
    (env : Env) (t u : Tx) (key : Key) {a : AssistRequest}
    → lock_assist_request key env t ≡ ok (a, u)
    → (find_row (is_assist key) t.db.assists ≡ some a) × (u.db ≡ t.db)
unfolding lock_assist_request
lock_assist_request_returns env t u key h = ground arith

module _ (env : Env) (t u : Tx) (r : AssistRequest) (next : AssistStatus)
    (arg : ChangeAssistParams) where
  -- The request was at the expected version, and the change was allowed from where it stood.
  pub change_assist_in_tx_returns :
      change_assist_in_tx next arg env t ≡ ok (r, u)
      → Changes env t.db r u.db next arg
        × ((current : AssistRequest) × (find_row (is_assist arg.assist) t.db.assists ≡ some current)
            × (current.version ≡ arg.expected_version)
            × (valid_assist_transition current.status next ≡ true))
  unfolding change_assist_in_tx
  change_assist_in_tx_returns h =
      after_handle _ (lock_assist_request arg.assist) _ env t h λ current t₁ h₁ k₁.
        after_refusal (not (current.version == arg.expected_version)) _ _ env t₁ k₁ λ e₁ k₂.
          after_refusal (is_resolved current.status && is_resolved next) _ _ env t₁ k₂ λ e₂ k₃.
            after_refusal (not (valid_assist_transition current.status next)) _ _ env t₁ k₃ λ e₃ k₄.
              let (found, same) = lock_assist_request_returns env t t₁ arg.assist h₁ in
              (
                subst (λ db. Changes env db r u.db next arg) same
                    (change_status_returns env t₁ u r arg next k₄),
                (current, found, ground arith, ground arith),
              )
