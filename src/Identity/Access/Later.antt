-- ===== src/Identity/Access/Later.antt =====
-- Devices that are revoked, pairing codes that are consumed and web sessions that are revoked, in the rows of
-- internal/domain/identity, before and after.
use seatd_v.Base.{ℕ, Bool, not, ◌&&◌, ◌==◌, String, is_some, str_eq, IsOver}
use seatd_v.Identity.Schema.{Directory, Device, DevicePairingCode, WebSessionRow}

abbrev pub has_id : ℕ → Device → Bool
has_id id d = d.id == id

abbrev pub is_unrevoked_in : ℕ → Device → Bool
is_unrevoked_in organisation_id d =
    d.organisation_id == organisation_id && not (is_some d.revoked_at)

abbrev pub IsGone : ℕ → ℕ → Directory → Type 0
IsGone id organisation_id db = IsOver (has_id id) (is_unrevoked_in organisation_id) db.devices

abbrev pub has_code : String → DevicePairingCode → Bool
has_code prefix c = str_eq c.pairing_code_lookup_prefix prefix

abbrev pub is_unconsumed : DevicePairingCode → Bool
is_unconsumed c = not (is_some c.consumed_at)

abbrev pub IsSpent : String → Directory → Type 0
IsSpent prefix db = IsOver (has_code prefix) is_unconsumed db.device_pairing_codes

abbrev pub has_prefix : String → WebSessionRow → Bool
has_prefix prefix s = str_eq s.lookup_prefix prefix

abbrev pub is_unended : WebSessionRow → Bool
is_unended s = not (is_some s.revoked_at)

abbrev pub IsEnded : String → Directory → Type 0
IsEnded prefix db = IsOver (has_prefix prefix) is_unended db.web_sessions

pub record Later (before after : Directory) : Type 0 where
  pub devices :
      (id organisation_id : ℕ) → IsGone id organisation_id before → IsGone id organisation_id after
  pub codes : (prefix : String) → IsSpent prefix before → IsSpent prefix after
  pub sessions : (prefix : String) → IsEnded prefix before → IsEnded prefix after

pub same-Later : (db : Directory) → Later db db
same-Later db = record {
  devices = λ id organisation_id h. h;
  codes = λ prefix h. h;
  sessions = λ prefix h. h;
}

pub Later-trans : (a b c : Directory) → Later a b → Later b c → Later a c
Later-trans a b c p q = record {
  devices = λ id organisation_id h. q.devices id organisation_id (p.devices id organisation_id h);
  codes = λ prefix h. q.codes prefix (p.codes prefix h);
  sessions = λ prefix h. q.sessions prefix (p.sessions prefix h);
}
