-- ===== src/Identity/Schema.antt =====
-- The rows that internal/domain/identity reads and writes (internal/store/db/models.go),
-- with the columns that they use. A uuid is a number, and `uuid.Nil` is 0.
use seatd_v.Base.{ℕ, Bool, String, Option, List}
use seatd_v.Store.{Bytes}

pub record LocationRow : Type 0 where
  pub id : ℕ
  pub organisation_id : ℕ
  pub status : String

pub record UserProfile : Type 0 where
  pub id : ℕ
  pub display_name : String
  pub email : Option String
  pub status : String
  pub created_at : ℕ
  pub updated_at : ℕ

pub record RolePermission : Type 0 where
  pub role_name : String
  pub permission_name : String

-- A row of `organisation_memberships`, which has no location, or of `location_memberships`.
pub record MembershipRow : Type 0 where
  pub id : ℕ
  pub organisation_id : ℕ
  pub location_id : Option ℕ
  pub member_ref : String
  pub role : String
  pub created_at : ℕ
  pub updated_at : ℕ
  pub user_profile_id : Option ℕ
  pub disabled_at : Option ℕ

-- A row of `platform_memberships`
pub record PlatformMembership : Type 0 where
  pub id : ℕ
  pub user_profile_id : ℕ
  pub role : String
  pub disabled_at : Option ℕ

-- CHECK (trust_state IN ('pending', 'trusted', 'revoked'))
pub data TrustState : Type 0 where
  pending trusted revoked : TrustState

pub record Device : Type 0 where
  pub id : ℕ
  pub organisation_id : ℕ
  pub location_id : Option ℕ
  pub user_profile_id : Option ℕ
  pub device_type : String
  pub platform : String
  pub app_version : String
  pub trust_state : TrustState
  pub registered_at : ℕ
  pub last_seen_at : Option ℕ
  pub revoked_at : Option ℕ
  pub created_at : ℕ
  pub updated_at : ℕ
  pub name : Option String
  pub capabilities : Bytes
  pub configuration : Bytes
  pub assigned_at : Option ℕ
  pub last_heartbeat_at : Option ℕ
  pub heartbeat_interval_seconds : ℕ

pub record DeviceCredential : Type 0 where
  pub id : ℕ
  pub organisation_id : ℕ
  pub device_id : ℕ
  pub lookup_prefix : String
  pub credential_hash : Bytes
  pub issued_at : ℕ
  pub last_used_at : Option ℕ
  pub expires_at : Option ℕ
  pub revoked_at : Option ℕ
  pub created_at : ℕ
  pub updated_at : ℕ

pub record DevicePairingCode : Type 0 where
  pub id : ℕ
  pub organisation_id : ℕ
  pub location_id : ℕ
  pub created_by : String
  pub device_type : String
  pub pairing_code_lookup_prefix : String
  pub pairing_code_hash : Bytes
  pub expires_at : ℕ
  pub consumed_at : Option ℕ
  pub consumed_by_device_id : Option ℕ
  pub created_at : ℕ
  pub updated_at : ℕ

pub record WebSessionRow : Type 0 where
  pub id : ℕ
  pub user_profile_id : ℕ
  pub lookup_prefix : String
  pub session_hash : Bytes
  pub issued_at : ℕ
  pub last_used_at : Option ℕ
  pub expires_at : ℕ
  pub revoked_at : Option ℕ
  pub rotated_from_session_id : Option ℕ
  pub user_agent : Option String
  pub ip_address : Option String
  pub created_at : ℕ
  pub updated_at : ℕ

-- A field of the metadata, null or a text
pub record Entry : Type 0 where
  pub key : String
  pub value : Option String

pub record AuditEvent : Type 0 where
  pub id : ℕ
  pub organisation_id : Option ℕ
  pub location_id : Option ℕ
  pub actor_ref : String
  pub action : String
  pub target_type : String
  pub target_id : String
  pub metadata : List Entry
  pub created_at : ℕ

pub record Directory : Type 0 where
  pub organisations : List ℕ
  pub locations : List LocationRow
  pub user_profiles : List UserProfile
  pub roles : List String
  pub role_permissions : List RolePermission
  pub organisation_memberships : List MembershipRow
  pub location_memberships : List MembershipRow
  pub audit_events : List AuditEvent
  pub platform_memberships : List PlatformMembership
  pub devices : List Device
  pub device_credentials : List DeviceCredential
  pub device_pairing_codes : List DevicePairingCode
  pub web_sessions : List WebSessionRow

-- The texts that other code computes: strings.TrimSpace, strings.ToLower and ToUpper,
-- strings.ReplaceAll of "-" by nothing, the address that mail.ParseAddress finds, uuid.UUID.String,
-- lower(btrim(…)) of PostgreSQL, sha256.Sum256, whether json.Unmarshal reads an object, the
-- canonical text of an address that netip.ParseAddr reads, and the order of texts in the database.
pub record Texts : Type 0 where
  pub trim_space : String → String
  pub to_lower : String → String
  pub parse_address : String → Option String
  pub uuid_text : ℕ → String
  pub lower_btrim : String → String
  pub to_upper : String → String
  pub without_dashes : String → String
  pub sha256 : String → Bytes
  pub json_object : Bytes → Bool
  pub parse_ip : String → Option String
  pub is_before : String → String → Bool
