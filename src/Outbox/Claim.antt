-- ===== src/Outbox/Claim.antt =====
-- The statement that `claim` of internal/outbox/outbox.go sends. Instants are microseconds and the
-- claim timeout milliseconds; which rows other transactions have locked comes as a test.
pub mod Exclusion
pub mod Taken
use seatd_v.Base.{
  ℕ, suc, ◌+◌, ◌*◌, ◌≡◌, ◌≤◌, refl, ap, sym, subst, ◌∙◌, Bool, true, false, not, ◌&&◌, ◌||◌, String,
  Option, none, some, List, [], ◌∷◌, map, ltb, leb, ◌==◌, str_eq, if◌then◌else◌, length, take,
  length-take-le, All, All-take, update_rows, select_rows, Bool-cases, inl, inr, arith,
}
use seatd_v.Store.{OutboxRow, OutboxStatus, waiting, processing, processed, failed, max_int32}

-- What claim reads of the worker, and what of the server.
pub record Claim : Type 0 where
  pub now : ℕ
  pub batch_size : ℕ
  pub instance_id : String
  pub claim_timeout : ℕ
  pub destinations : List String
  pub is_locked : OutboxRow → Bool

-- $4::text[]
unfoldable pub is_any : String → List String → Bool
is_any s [] = false
is_any s (d ∷ ds) = str_eq s d || is_any s ds

abbrev pub is_free : Claim → OutboxStatus → OutboxRow → Bool
is_free c waiting o = leb o.available_at c.now
is_free c processing o = is_expired o.locked_at
  where
    is_expired : Option ℕ → Bool
    is_expired none = false
    is_expired (some locked_at) = ltb (locked_at + c.claim_timeout * 1000) c.now
is_free c processed o = false
is_free c failed o = false

abbrev pub is_any_destination : List String → OutboxRow → Bool
is_any_destination [] o = true
is_any_destination (d ∷ ds) o = is_any o.destination (d ∷ ds) || is_any o.topic (d ∷ ds)

abbrev pub is_claimable : Claim → OutboxRow → Bool
is_claimable c o =
    is_free c o.status o && is_any_destination c.destinations o && not (c.is_locked o)

-- ORDER BY created_at, id
abbrev pub is_before : OutboxRow → OutboxRow → Bool
is_before a b = ltb a.created_at b.created_at || (a.created_at == b.created_at && ltb a.id b.id)

unfoldable pub insert : OutboxRow → List OutboxRow → List OutboxRow
insert a [] = a ∷ []
insert a (b ∷ bs) = let rest = insert a bs in if is_before b a then b ∷ rest else a ∷ b ∷ bs

unfoldable pub ordered : List OutboxRow → List OutboxRow
ordered [] = []
ordered (a ∷ l) = insert a (ordered l)

unfoldable pub claimed : Claim → List OutboxRow → List OutboxRow
claimed c outbox = take c.batch_size (ordered (select_rows (is_claimable c) outbox))

unfoldable pub has_id : List OutboxRow → ℕ → Bool
has_id [] id = false
has_id (a ∷ l) id = a.id == id || has_id l id

abbrev pub claimed_by_at : Claim → OutboxRow → OutboxRow
claimed_by_at c o = record o {
  status = processing;
  locked_at = some c.now;
  locked_by = some c.instance_id;
  attempts = o.attempts + 1;
  last_error = none;
  updated_at = c.now;
}

-- attempts + 1 is an int32
abbrev pub is_countable : OutboxRow → Bool
is_countable o = ltb o.attempts max_int32

unfoldable pub are_countable : List OutboxRow → Bool
are_countable [] = true
are_countable (o ∷ os) = is_countable o && are_countable os

-- The rows that are returned, and the outbox after the statement, unless the statement fails.
unfoldable pub claim : Claim → List OutboxRow → Option (List OutboxRow × List OutboxRow)
claim c outbox =
    if are_countable (claimed c outbox)
    then some (
      map (claimed_by_at c) (claimed c outbox),
      update_rows (λ o. has_id (claimed c outbox) o.id) (claimed_by_at c) outbox,
    )
    else none
