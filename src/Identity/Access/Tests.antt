-- ===== src/Identity/Access/Tests.antt =====
-- Runs of devices and web sessions of internal/domain/identity on small inputs.
use seatd_v.Base.{
  ℕ, ◌≡◌, ◌≤◌, refl, arith, true, false, ◌+◌, ◌&&◌, ◌==◌, String, none, some, List, [], ◌∷◌, ◌++◌,
  find_row, select_rows, update_rows, count_rows,
}
use seatd_v.Store.{Env, Bytes, is_ok, ok, statement, select}
use seatd_v.Identity.Schema.{
  Directory, Texts, Device, DeviceCredential, DevicePairingCode, WebSessionRow, trusted,
}
use seatd_v.Identity.DeviceQueries.{revoked_at}
use seatd_v.Identity.Memberships.{TenantActor}
use seatd_v.Identity.Tests.{calm, plain, sample, ann}
use seatd_v.Identity.Devices.Registration.{RegisterDeviceResult}
use seatd_v.Identity.Devices.Pairing.{CreatePairingCodeParams, PairDeviceParams, pair_device}
use seatd_v.Identity.Devices.Credentials.{authenticate_device_credential, revoke_device}
use seatd_v.Identity.Access.Calls.{Call, offer, authenticate, trust, validate, run}
use seatd_v.Identity.Access.Later.{has_code, has_prefix}
use seatd_v.Identity.Access.Revoked.{revoked_authenticates-never}
use seatd_v.Identity.Access.Spent.{paired_code-pairs_once}
use seatd_v.Identity.Access.Paired.{paired_secret-authenticates}
use seatd_v.Identity.Access.SignedOut.{signed_out-validates_never}
use seatd_v.Identity.Sessions.Operations.{revoke_web_session, validate_web_session}

abbrev eight : Bytes
eight = 7 ∷ 7 ∷ 7 ∷ 7 ∷ 7 ∷ 7 ∷ 7 ∷ 7 ∷ []

abbrev digest : Bytes
digest = eight ++ eight ++ eight ++ eight

abbrev hashed : Texts
hashed = record plain { sha256 = λ s. digest }

abbrev device : ℕ → Device
device id = record {
  id = id;
  organisation_id = 1;
  location_id = none;
  user_profile_id = none;
  device_type = "display";
  platform = "web";
  app_version = "1";
  trust_state = trusted;
  registered_at = 1;
  last_seen_at = none;
  revoked_at = none;
  created_at = 1;
  updated_at = 1;
  name = none;
  capabilities = [];
  configuration = [];
  assigned_at = none;
  last_heartbeat_at = none;
  heartbeat_interval_seconds = 60;
}

abbrev credential : ℕ → ℕ → String → DeviceCredential
credential id device_id prefix = record {
  id = id;
  organisation_id = 1;
  device_id = device_id;
  lookup_prefix = prefix;
  credential_hash = digest;
  issued_at = 1;
  last_used_at = none;
  expires_at = none;
  revoked_at = none;
  created_at = 1;
  updated_at = 1;
}

abbrev code : DevicePairingCode
code = record {
  id = 51;
  organisation_id = 1;
  location_id = 5;
  created_by = "user:";
  device_type = "display";
  pairing_code_lookup_prefix = "CODE";
  pairing_code_hash = digest;
  expires_at = 99;
  consumed_at = none;
  consumed_by_device_id = none;
  created_at = 1;
  updated_at = 1;
}

abbrev session : WebSessionRow
session = record {
  id = 61;
  user_profile_id = 21;
  lookup_prefix = "ssssssssssssssss";
  session_hash = digest;
  issued_at = 1;
  last_used_at = none;
  expires_at = 99;
  revoked_at = none;
  rotated_from_session_id = none;
  user_agent = none;
  ip_address = none;
  created_at = 1;
  updated_at = 1;
}

-- A location, two devices with credentials, a pairing code and a web session
abbrev home : Directory
home = record sample {
  locations = record { id = 5; organisation_id = 1; status = "active" } ∷ [];
  role_permissions =
      record { role_name = "organisation_owner"; permission_name = "device.manage" } ∷ [];
  devices = device 31 ∷ device 32 ∷ [];
  device_credentials =
      credential 41 31 "aaaaaaaaaaaaaaaa" ∷ credential 42 32 "bbbbbbbbbbbbbbbb" ∷ [];
  device_pairing_codes = code ∷ [];
  web_sessions = session ∷ [];
}

abbrev after_revocation : Directory
after_revocation = (revoke_device hashed ann 31 calm home).1

abbrev attempts : List ((ℕ → Env) × Call)
attempts = (λ n. calm, trust 1 31) ∷ (λ n. calm, authenticate "aaaaaaaaaaaaaaaa") ∷ []

abbrev after_attempts : Directory
after_attempts =
    (authenticate_device_credential hashed "bbbbbbbbbbbbbbbb" calm
      (run hashed attempts after_revocation)).1

revokes : revoke_device hashed ann 31 calm home ≡ (ok (revoked_at 50 (device 31)), after_revocation)
unfolding revoke_device find_row statement select update_rows
revokes = refl

authenticates :
    authenticate_device_credential hashed "bbbbbbbbbbbbbbbb" calm
      (run hashed attempts after_revocation)
    ≡ (ok (device 32), after_attempts)
unfolding revoke_device find_row statement select update_rows run authenticate_device_credential
authenticates = refl

revoked_authenticates-never_example :
    ((device 32).id == 31 && (device 32).organisation_id == 1) ≡ false
revoked_authenticates-never_example =
    revoked_authenticates-never hashed ann 31 calm home (revoked_at 50 (device 31)) after_revocation
      revokes attempts "bbbbbbbbbbbbbbbb" calm (device 32) after_attempts authenticates

abbrev pairing : PairDeviceParams
pairing = record {
  code = "CODE12";
  platform = "web";
  app_version = "1";
  name = "";
  capabilities = [];
  configuration = [];
}

abbrev secret : String
secret = "cccccccccccccccc"

abbrev paired : RegisterDeviceResult
paired = record {
  device = record (device 100) {
    location_id = some 5;
    trust_state = trusted;
    registered_at = 50;
    created_at = 50;
    updated_at = 50;
    capabilities = 123 ∷ 125 ∷ [];
    configuration = 123 ∷ 125 ∷ [];
    assigned_at = some 50;
  };
  credential = record (credential 101 100 secret) {
    issued_at = 50;
    created_at = 50;
    updated_at = 50;
  };
  secret = secret;
}

abbrev after_pairing : Directory
after_pairing = (pair_device hashed (some secret) pairing calm home).1

pairs : pair_device hashed (some secret) pairing calm home ≡ (ok paired, after_pairing)
unfolding pair_device find_row statement update_rows
pairs = refl

abbrev offers : List ((ℕ → Env) × Call)
offers =
    (
      λ n. record calm { ids = λ k. 200 + k },
      offer (some "OTHER1")
          (record { actor = record ann { location_id = 5 }; device_type = ""; ttl = 0 }),
    )
    ∷ []

one_code : count_rows (has_code "CODE") home.device_pairing_codes ≤ 1
unfolding select_rows
one_code = omega arith

paired_code-pairs_once_example :
    is_ok
      (pair_device hashed
        (some "dddddddddddddddd")
        pairing
        calm
        (run hashed offers after_pairing)).0
    ≡ false
paired_code-pairs_once_example =
    paired_code-pairs_once hashed (some secret) pairing "CODE" calm home paired after_pairing refl
      one_code pairs offers (some "dddddddddddddddd") pairing calm refl

abbrev after_sign_out : Directory
after_sign_out = (revoke_web_session hashed "ssssssssssssssss" calm home).1

signs_out : revoke_web_session hashed "ssssssssssssssss" calm home ≡ (ok tt, after_sign_out)
unfolding revoke_web_session find_row statement update_rows
signs_out = refl

one_session : count_rows (has_prefix "ssssssssssssssss") home.web_sessions ≤ 1
unfolding select_rows
one_session = omega arith

-- The session before it is revoked validates.
validates : is_ok (validate_web_session hashed "ssssssssssssssss" (λ n. calm) home).0 ≡ true
unfolding validate_web_session find_row statement update_rows
validates = refl

signed_out-validates_never_example :
    is_ok
      (validate_web_session hashed "ssssssssssssssss"
        (λ n. calm)
        (run hashed ((λ n. calm, validate "ssssssssssssssss") ∷ []) after_sign_out)).0
    ≡ false
unfolding find_row
signed_out-validates_never_example =
    signed_out-validates_never hashed "ssssssssssssssss" "ssssssssssssssss" calm home session
      after_sign_out refl one_session refl signs_out ((λ n. calm, validate "ssssssssssssssss") ∷ [])
      "ssssssssssssssss" (λ n. calm) refl

-- A device at the location, and a member who only reads
abbrev attended : Directory
attended = record home { devices = record (device 33) { location_id = some 5 } ∷ [] }

abbrev reader : TenantActor
reader = record { organisation_id = 1; location_id = 5; actor_ref = "user:bob" }

abbrev offering : CreatePairingCodeParams
offering = record { actor = reader; device_type = ""; ttl = 0 }

paired_secret-authenticates_example :
    (authenticate_device_credential hashed paired.secret (record calm { now = 70 }) after_pairing).0
    ≡ ok paired.device
paired_secret-authenticates_example =
    paired_secret-authenticates hashed (some secret) pairing calm home paired after_pairing pairs
      (record calm { now = 70 }) (λ n. refl)
