-- ===== src/Identity/Access/Denied.antt =====
-- The permissions that CreatePairingCode and RevokeDevice of internal/domain/identity/service.go ask for.
use seatd_v.Base.{◌≡◌, false}
use seatd_v.Store.{Env}
use seatd_v.Identity.Schema.{Directory, Texts}
use seatd_v.Identity.Memberships.{TenantActor, normalize_tenant_actor}
use seatd_v.Identity.DeviceQueries.{is_permitted_at}
use seatd_v.Identity.Devices.Registration.{device_manage}

module _ (texts : Texts) (actor : TenantActor) (env : Env) (db : Directory)
    (unpermitted : is_permitted_at actor.organisation_id actor.location_id
        (texts.trim_space actor.actor_ref)
        device_manage
        db
      ≡ false) where
  abbrev normal : TenantActor
  normal = normalize_tenant_actor texts actor
