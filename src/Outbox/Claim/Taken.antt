-- ===== src/Outbox/Claim/Taken.antt =====
-- The records that `claim` of internal/outbox/outbox.go returns.
use seatd_v.Base.{
  ℕ, suc, ◌+◌, ◌*◌, ◌≡◌, ◌≤◌, ◌<◌, ◌⊎◌, refl, ap, true, false, String, Option, none, some, List, [],
  ◌∷◌, map, length, length-take-le, All, select_rows, Bool-cases, inl, inr, arith, str_eq, eq_iff,
}
use seatd_v.Store.{OutboxRow, OutboxStatus, waiting, processing, processed, failed}
use seatd_v.Outbox.Claim.{
  Claim, claim, claimed, claimed_by_at, is_claimable, is_free, is_any, is_any_destination, ordered,
}
use seatd_v.Outbox.Claim.Exclusion.{claimed-All, claim_inv, map-All}

length-map : (f : OutboxRow → OutboxRow) (l : List OutboxRow) → length (map f l) ≡ length l
length-map f [] = refl
length-map f (a ∷ l) = ap suc (length-map f l)

length-claimed : (c : Claim) (outbox : List OutboxRow) → length (claimed c outbox) ≤ c.batch_size
unfolding claimed
length-claimed c outbox =
    length-take-le c.batch_size (ordered (select_rows (is_claimable c) outbox))

-- The text is one of those.
pub data IsOneOf (s : String) : List String → Type 0 where
  first : {d : String} {ds : List String} → s ≡ d → IsOneOf s (d ∷ ds)
  other : {d : String} {ds : List String} → IsOneOf s ds → IsOneOf s (d ∷ ds)

-- The row is due: it waits and its time has come, or another claim of it is older than the timeout.
abbrev pub IsDue : Claim → OutboxRow → Type 0
IsDue c o =
    ((o.status ≡ waiting) × (o.available_at ≤ c.now))
    ⊎ ((o.status ≡ processing)
        × ((t : ℕ) × (o.locked_at ≡ some t) × (t + c.claim_timeout * 1000 < c.now)))

-- A record of a claim, from a row with a property of the outbox's rows: the row was due, for a destination of
-- the worker where it names any, and locked by no transaction; the record is the worker's from now on,
-- with one attempt more.
pub record Taken {κ} (c : Claim) (P : OutboxRow → Type κ) (r : OutboxRow) : Type κ where
  pub old : OutboxRow
  pub known : P old
  pub due : IsDue c old
  pub routed :
      (c.destinations ≡ [])
      ⊎ IsOneOf old.destination c.destinations
      ⊎ IsOneOf old.topic c.destinations
  pub free : c.is_locked old ≡ false
  pub status : r.status ≡ processing
  pub locked_at : r.locked_at ≡ some c.now
  pub locked_by : r.locked_by ≡ some c.instance_id
  pub attempts : r.attempts ≡ old.attempts + 1
  pub same_id : r.id ≡ old.id
  pub same_event : r.event_id ≡ old.event_id
  pub same_destination : r.destination ≡ old.destination
  pub same_topic : r.topic ≡ old.topic
  pub same_payload : r.payload ≡ old.payload

is_free-IsDue :
    (c : Claim) (o : OutboxRow) (s : OutboxStatus) (at : Option ℕ)
    → o.status ≡ s
    → o.locked_at ≡ at
    → is_free c o.status o ≡ true
    → IsDue c o
is_free-IsDue c o waiting at e l h = inl (e, ground arith)
is_free-IsDue c o processing none e l h = absurd (ground arith)
is_free-IsDue c o processing (some t) e l h = inr (e, (t, l, ground arith))
is_free-IsDue c o processed at e l h = absurd (ground arith)
is_free-IsDue c o failed at e l h = absurd (ground arith)

is_any-IsOneOf : (s : String) (ds : List String) → is_any s ds ≡ true → IsOneOf s ds
unfolding is_any
is_any-IsOneOf s [] h = absurd (ground arith)
is_any-IsOneOf s (d ∷ ds) h = elim (Bool-cases (str_eq s d)) [
  | inl e ↦ first (ground (arith, eq_iff s d))
  | inr e ↦ other (is_any-IsOneOf s ds (rw e at h))
]

routes :
    (ds : List String) (o : OutboxRow)
    → is_any_destination ds o ≡ true
    → (ds ≡ []) ⊎ IsOneOf o.destination ds ⊎ IsOneOf o.topic ds
routes [] o h = inl refl
routes (d ∷ ds) o h = elim (Bool-cases (is_any o.destination (d ∷ ds))) [
  | inl e ↦ inr (inl (is_any-IsOneOf o.destination (d ∷ ds) e))
  | inr e ↦ inr (inr (is_any-IsOneOf o.topic (d ∷ ds) (rw e at h)))
]

takes {κ} :
    (P : OutboxRow → Type κ) (c : Claim) (o : OutboxRow)
    → P o
    → is_claimable c o ≡ true
    → Taken c P (claimed_by_at c o)
takes P c o p h = record {
  old = o;
  known = p;
  due = is_free-IsDue c o o.status o.locked_at refl refl (ground arith);
  routed = routes c.destinations o (ground arith);
  free = ground arith;
  status = refl;
  locked_at = refl;
  locked_by = refl;
  attempts = refl;
  same_id = refl;
  same_event = refl;
  same_destination = refl;
  same_topic = refl;
  same_payload = refl;
}

-- A claim returns at most the batch size of records. Each comes from a row of the outbox (what holds of the
-- rows of the outbox holds of it) that no transaction had locked, that was pending and available, or in
-- processing and locked longer than the claim timeout, and that was for a destination of the worker
-- where it names any. The record is in processing, locked now by this worker, with one attempt more.
pub claim-Taken {κ} :
    (P : OutboxRow → Type κ) (c : Claim) (outbox records after : List OutboxRow)
    → All P outbox
    → claim c outbox ≡ some (records, after)
    → (length records ≤ c.batch_size) × All (Taken c P) records
claim-Taken P c outbox records after h e =
    let (records_are, _) = claim_inv c outbox records after e in
    (
      ground (
        arith,
        ap length records_are,
        length-map (claimed_by_at c) (claimed c outbox),
        length-claimed c outbox,
      ),
      rw records_are (
          map-All _ (Taken c P) (claimed_by_at c) (λ o (p, q). takes P c o p q) (claimed c outbox)
            (claimed-All P c outbox h)),
    )
