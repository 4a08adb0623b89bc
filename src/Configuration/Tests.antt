-- ===== src/Configuration/Tests.antt =====
-- Runs of floors of internal/domain/configuration on small inputs.
use seatd_v.Base.{
  ℕ, ◌≡◌, refl, arith, true, false, String, none, some, [], ◌∷◌, find_row, update_rows,
}
use seatd_v.Store.{is_ok, ok, select, statement}
use seatd_v.Identity.Memberships.{TenantActor}
use seatd_v.Identity.Tests.{calm, plain, sample}
use seatd_v.Configuration.Transaction.{Floor, Layout}
use seatd_v.Configuration.Floors.{Formats, UpsertFloorParams, update, change_active, answer, run}
use seatd_v.Configuration.Register.{Meets, answer-Meets}
use seatd_v.Configuration.Stale.{stale_call-fails}

abbrev formats : Formats
formats = record { texts = plain; normal_object = λ b. some b }

abbrev planner : TenantActor
planner = record { organisation_id = 1; location_id = 5; actor_ref = "user:" }

abbrev floor : ℕ → String → Floor
floor id slug = record {
  id = id;
  organisation_id = 1;
  location_id = 5;
  slug = slug;
  name = slug;
  sort_order = 0;
  canvas = 123 ∷ 125 ∷ [];
  background_asset_ref = none;
  is_active = true;
  version = 3;
  created_at = 1;
  updated_at = 1;
}

-- Two floors of a location
abbrev house : Layout
house = record {
  directory = record sample {
    locations = record { id = 5; organisation_id = 1; status = "active" } ∷ [];
    role_permissions =
        record { role_name = "organisation_owner"; permission_name = "layout.write" } ∷ [];
  };
  floors = floor 71 "ground" ∷ floor 72 "roof" ∷ [];
}

abbrev renaming : UpsertFloorParams
renaming = record {
  actor = planner;
  id = 72;
  slug = "terrace";
  name = "Terrace";
  sort_order = some 1;
  canvas = [];
  background_asset_ref = "";
  expected_version = 3;
}

abbrev renamed : Floor
renamed = record (floor 72 "terrace") {
  name = "Terrace";
  sort_order = 1;
  version = 4;
  updated_at = 50;
}

abbrev after_renaming : Layout
after_renaming = record house { floors = floor 71 "ground" ∷ renamed ∷ [] }

renames : answer formats calm (update renaming) house ≡ (ok renamed, after_renaming)
unfolding answer find_row statement select update_rows
renames = refl

answer-Meets_example :
    Meets formats calm (update renaming) house (answer formats calm (update renaming) house)
unfolding find_row
answer-Meets_example = answer-Meets formats calm house (refl, (refl, tt)) (update renaming)

stale_call-fails_example :
    is_ok
      (answer formats calm
        (change_active planner 72 3 false)
        (run formats ((calm, change_active planner 72 4 true) ∷ []) after_renaming)).0
    ≡ false
unfolding find_row
stale_call-fails_example =
    stale_call-fails formats calm (update renaming) house renamed after_renaming 72 3
      (refl, (refl, tt)) renames refl ((calm, change_active planner 72 4 true) ∷ []) calm
      (change_active planner 72 3 false) 3 refl (omega arith)

-- With the version that it has, the floor is archived.
archives :
    is_ok
      (answer formats calm
        (change_active planner 72 5 false)
        (run formats ((calm, change_active planner 72 4 true) ∷ []) after_renaming)).0
    ≡ true
unfolding answer run find_row statement select update_rows
archives = refl
