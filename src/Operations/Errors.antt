-- ===== src/Operations/Errors.antt =====
-- internal/domain/operations/errors.go, and the wrapping of a failed statement by `fmt.Errorf`.
use seatd_v.Base.{ℕ, Bool, true, false, String}
use seatd_v.Store.{DbError, no_rows, violation, duplicate, fault}

-- The message that wraps a failed statement.
pub data Context : Type 0 where
  beginning setting_tenant committing committing_replay : Context
  locking_occupancy creating_session marking_occupied closing_session marking_available : Context
  getting_state creating_assist locking_assist changing_assist : Context
  getting_idempotency recording_idempotency encoding_response : Context
  encoding_data encoding_envelope writing_event writing_outbox : Context

pub data Error : Type 0 where
  not_found : Error
  version_conflict : Error
  stale_version : String → ℕ → ℕ → ℕ → Error  -- VersionConflictError: entity, id, expected, current
  already_occupied : Error
  already_available : Error
  no_active_session : Error
  invalid_assist_transition : Error
  assist_already_resolved : Error
  idempotency_conflict : Error
  action_not_enabled : Error
  rate_limited : Error
  database : Context → DbError → Error
  encoding : Context → Error
  joined : Error → Error  -- errors.Join with the failure of the rollback

-- `errors.Is(err, ErrVersionConflict)`, by `VersionConflictError.Is`.
pub is_version_conflict : Error → Bool
is_version_conflict version_conflict = true
is_version_conflict (stale_version entity id expected current) = true
is_version_conflict (joined e) = is_version_conflict e
is_version_conflict _ = false

-- fmt.Errorf("…: %w", err)
abbrev pub wrapped : Context → DbError → Error
wrapped c e = database c e

-- `if errors.Is(err, pgx.ErrNoRows) { return e }`, and else the wrapped error.
abbrev pub missing : Error → Context → DbError → Error
missing e c no_rows = e
missing e c violation = database c violation
missing e c duplicate = database c duplicate
missing e c fault = database c fault
