-- ===== src/Outbox/Tests.antt =====
-- Two workers and three rows of the outbox.
use seatd_v.Base.{
  ℕ, ◌≡◌, ◌≤◌, refl, false, Option, none, some, List, [], ◌∷◌, length, map, All, arith, select_rows,
  update_rows,
}
use seatd_v.Store.{OutboxRow, waiting}
use seatd_v.Outbox.Claim.{Claim, claim, claimed, is_any, insert, ordered, has_id, are_countable}
use seatd_v.Outbox.Claim.Taken.{Taken, claim-Taken}
use seatd_v.Outbox.Claim.Exclusion.{
  Event, claims, changes, adds, passed, IsElsewhere, claim-excludes,
}
use seatd_v.Outbox.Worker.{failed_at}

abbrev row : ℕ → ℕ → OutboxRow
row id created_at = record {
  id = id;
  organisation_id = 7;
  location_id = 8;
  event_id = id;
  topic = "operations.table";
  destination = "realtime.operations";
  payload = [];
  status = waiting;
  attempts = 0;
  available_at = created_at;
  locked_at = none;
  locked_by = none;
  processed_at = none;
  last_error = none;
  created_at = created_at;
  updated_at = created_at;
}

abbrev outbox : List OutboxRow
outbox = row 1 30 ∷ row 2 20 ∷ row 3 10 ∷ []

abbrev worker : Claim
worker = record {
  now = 100;
  batch_size = 2;
  instance_id = "worker-a";
  claim_timeout = 300000;
  destinations = "realtime.operations" ∷ [];
  is_locked = λ o. false;
}

abbrev other : Claim
other = record worker { now = 5000; instance_id = "worker-b" }

-- A value to name in the tests where a claim failed.
abbrev or_none : Option (List OutboxRow × List OutboxRow) → List OutboxRow × List OutboxRow
or_none none = ([], [])
or_none (some r) = r

abbrev first : List OutboxRow × List OutboxRow
first = or_none (claim worker outbox)

abbrev second : List OutboxRow × List OutboxRow
second = or_none (claim other first.1)

first_claims : claim worker outbox ≡ some (first.0, first.1)
unfolding claim claimed is_any insert ordered has_id are_countable select_rows update_rows
first_claims = refl

second_claims : claim other first.1 ≡ some (second.0, second.1)
unfolding claim claimed is_any insert ordered has_id are_countable select_rows update_rows
second_claims = refl

first_two : length first.0 ≡ 2
unfolding claim claimed is_any insert ordered has_id are_countable select_rows update_rows
first_two = refl

second_one : length second.0 ≡ 1
unfolding claim claimed is_any insert ordered has_id are_countable select_rows update_rows
second_one = refl

claim-Taken_example : (length first.0 ≤ 2) × All (Taken worker (λ o. o.status ≡ waiting)) first.0
claim-Taken_example =
    claim-Taken (λ o. o.status ≡ waiting) worker outbox first.0 first.1 (refl, (refl, (refl, tt)))
      first_claims

-- A third worker claims the row that the first one left, which then fails; a fourth row is added.
abbrev between : List Event
between =
    claims (record worker { now = 200; instance_id = "worker-c" })
    ∷ changes 1 (failed_at 300 "no route")
    ∷ adds (row 4 400)
    ∷ []

abbrev third : List OutboxRow × List OutboxRow
third = or_none (claim other (passed between first.1))

third_claims : claim other (passed between first.1) ≡ some (third.0, third.1)
unfolding claim claimed is_any insert ordered has_id are_countable select_rows update_rows passed
third_claims = refl

third_one : map (λ o. o.id) third.0 ≡ 4 ∷ []
unfolding claim claimed is_any insert ordered has_id are_countable select_rows update_rows passed
third_one = refl

between-IsElsewhere : All (IsElsewhere worker first.0) between
unfolding claim claimed is_any insert ordered has_id are_countable select_rows update_rows
between-IsElsewhere = (omega arith, ((refl, λ o. refl), (refl, tt)))

claim-excludes_example : All (λ r. has_id first.0 r.id ≡ false) third.0
claim-excludes_example =
    claim-excludes worker outbox first.0 first.1 first_claims between between-IsElsewhere other
      (omega arith) third.0 third.1 third_claims
