-- ===== src/Outbox/Claim/Exclusion.antt =====
-- What a claim takes, and what it leaves for later ones.
use seatd_v.Base.{
  ℕ, ◌+◌, ◌*◌, ◌≡◌, ◌≤◌, refl, ap, sym, subst, ◌∙◌, Bool, true, false, ◌||◌, Option, none, some,
  List, [], ◌∷◌, map, ◌==◌, All, All-take, update_rows, select_rows, Bool-cases, inl, inr, arith,
}
use seatd_v.Store.{OutboxRow, processing}
use seatd_v.Outbox.Claim.{
  Claim, claim, claimed, claimed_by_at, is_claimable, is_before, insert, ordered, has_id,
}

module _ {κ} (P : OutboxRow → Type κ) where
  insert-All : (a : OutboxRow) (l : List OutboxRow) → P a → All P l → All P (insert a l)
  unfolding insert
  insert-All a [] p h = (p, h)
  insert-All a (b ∷ bs) p (q, h) = elim (Bool-cases (is_before b a)) [
    | inl e ↦ rw e (q, insert-All a bs p h)
    | inr e ↦ rw e (p, (q, h))
  ]

  ordered-All : (l : List OutboxRow) → All P l → All P (ordered l)
  unfolding ordered
  ordered-All [] h = tt
  ordered-All (a ∷ l) (p, h) = insert-All a (ordered l) p (ordered-All l h)

  -- What holds of the rows before an UPDATE holds after it, where it does of each new row.
  update_rows-All :
      (test : OutboxRow → Bool) (f : OutboxRow → OutboxRow) (l : List OutboxRow)
      → ((o : OutboxRow) → P o → test o ≡ true → P (f o))
      → All P l
      → All P (update_rows test f l)
  unfolding update_rows
  update_rows-All test f [] step h = tt
  update_rows-All test f (a ∷ l) step (p, h) = elim (Bool-cases (test a)) [
    | inl e ↦ rw e (step a p e, update_rows-All test f l step h)
    | inr e ↦ rw e (p, update_rows-All test f l step h)
  ]

-- What holds of the rows of the outbox holds of the claimed ones, which are claimable.
pub claimed-All {κ} :
    (P : OutboxRow → Type κ) (c : Claim) (outbox : List OutboxRow)
    → All P outbox
    → All (λ o. P o × (is_claimable c o ≡ true)) (claimed c outbox)
unfolding claimed select_rows
claimed-All P c outbox h =
    All-take (λ o. P o × (is_claimable c o ≡ true)) c.batch_size _
      (ordered-All (λ o. P o × (is_claimable c o ≡ true)) _ (selected outbox h))
  where
    selected :
        (l : List OutboxRow)
        → All P l
        → All (λ o. P o × (is_claimable c o ≡ true)) (select_rows (is_claimable c) l)
    selected [] h = tt
    selected (a ∷ l) (p, h) = elim (Bool-cases (is_claimable c a)) [
      | inl e ↦ rw e ((p, e), selected l h)
      | inr e ↦ rw e (selected l h)
    ]

has_id-map :
    (c : Claim) (l : List OutboxRow) (id : ℕ) → has_id (map (claimed_by_at c) l) id ≡ has_id l id
unfolding has_id
has_id-map c [] id = refl
has_id-map c (a ∷ l) id = ap (λ b. a.id == id || b) (has_id-map c l id)

pub claim_inv :
    (c : Claim) (outbox records after : List OutboxRow)
    → claim c outbox ≡ some (records, after)
    → (records ≡ map (claimed_by_at c) (claimed c outbox))
      × (after ≡ update_rows (λ o. has_id (claimed c outbox) o.id) (claimed_by_at c) outbox)
unfolding claim
claim_inv c outbox records after h = ground arith

pub map-All {κ μ} :
    (P : OutboxRow → Type κ) (Q : OutboxRow → Type μ) (f : OutboxRow → OutboxRow)
    → ((o : OutboxRow) → P o → Q (f o))
    → (l : List OutboxRow) → All P l
    → All Q (map f l)
map-All P Q f step [] h = tt
map-All P Q f step (a ∷ l) (p, h) = (step a p, map-All P Q f step l h)

-- A row that was claimed is in the hands of its worker.
abbrev Held : Claim → List OutboxRow → OutboxRow → Type 0
Held c ids o = has_id ids o.id ≡ true → (o.status ≡ processing) × (o.locked_at ≡ some c.now)

update-Held :
    (c : Claim) (ids l : List OutboxRow)
    → All (Held c ids) (update_rows (λ o. has_id ids o.id) (claimed_by_at c) l)
unfolding update_rows
update-Held c ids [] = tt
update-Held c ids (a ∷ l) = (ground arith, update-Held c ids l)

Held-excludes :
    (c d : Claim) (ids : List OutboxRow) (o : OutboxRow)
    → d.now ≤ c.now + d.claim_timeout * 1000
    → Held c ids o
    → is_claimable d o ≡ true
    → has_id ids o.id ≡ false
Held-excludes c d ids o early held claimable = elim (Bool-cases (has_id ids o.id)) [
  | inl e ↦
      let (status, locked_at) = held e in
      absurd (ground (arith, status, locked_at, early, claimable))
  | inr e ↦ e
]

-- What happens to the outbox between two claims: another claim, which may fail, a statement on one record
-- by its id, and a new record.
pub data Event : Type 0 where
  claims : Claim → Event
  changes : ℕ → (OutboxRow → OutboxRow) → Event
  adds : OutboxRow → Event

abbrev pub left_by : List OutboxRow → Option (List OutboxRow × List OutboxRow) → List OutboxRow
left_by before none = before
left_by before (some (records, after)) = after

unfoldable pub passed : List Event → List OutboxRow → List OutboxRow
passed [] l = l
passed (claims d ∷ es) l = passed es (left_by l (claim d l))
passed (changes id f ∷ es) l = passed es (update_rows (λ o. o.id == id) f l)
passed (adds o ∷ es) l = passed es (o ∷ l)

-- Before the timeout of the claims, and on other records than those of the first claim
abbrev pub IsElsewhere : Claim → List OutboxRow → Event → Type 0
IsElsewhere c records (claims d) = d.now ≤ c.now + d.claim_timeout * 1000
IsElsewhere c records (changes id f) =
    (has_id records id ≡ false) × ((o : OutboxRow) → (f o).id ≡ o.id)
IsElsewhere c records (adds o) = has_id records o.id ≡ false

has_id-among :
    (ids : List OutboxRow) (k : ℕ) (l : List OutboxRow)
    → All (λ o. has_id ids o.id ≡ false) l
    → has_id l k ≡ true
    → has_id ids k ≡ false
unfolding has_id
has_id-among ids k [] h e = absurd (ground arith)
has_id-among ids k (a ∷ l) (p, h) e = elim (Bool-cases (a.id == k)) [
  | inl same ↦ let named : a.id ≡ k = ground arith in subst (λ k. has_id ids k ≡ false) named p
  | inr other ↦ has_id-among ids k l h (rw other at e)
]

module _ (c : Claim) (ids : List OutboxRow) where
  -- A row that the first claim did not take may change as it will.
  unheld : (o : OutboxRow) → has_id ids o.id ≡ false → Held c ids o
  unheld o absent present = (let both = rw absent at present in absurd (ground arith))

  claim-Held :
      (d : Claim) (l : List OutboxRow) (r : Option (List OutboxRow × List OutboxRow))
      → claim d l ≡ r
      → d.now ≤ c.now + d.claim_timeout * 1000
      → All (Held c ids) l
      → All (Held c ids) (left_by l r)
  claim-Held d l none e early held = held
  claim-Held d l (some (records, after)) e early held =
      let (_, after_is) = claim_inv d l records after e in
      let apart =
        map_All (λ o (h, claimable). Held-excludes c d ids o early h claimable) (claimed d l)
          (claimed-All (Held c ids) d l held) in
      subst (All (Held c ids)) (sym after_is) (
        update_rows-All (Held c ids) _ (claimed_by_at d) l
          (λ o h taken.
            unheld (claimed_by_at d o) (has_id-among ids o.id (claimed d l) apart taken))
          held)
    where
      map_All :
          {P : OutboxRow → Type 0}
          → ((o : OutboxRow) → P o → has_id ids o.id ≡ false)
          → (l : List OutboxRow) → All P l
          → All (λ o. has_id ids o.id ≡ false) l
      map_All step [] h = tt
      map_All step (a ∷ l) (p, h) = (step a p, map_All step l h)

  passed-Held :
      (es : List Event) (l : List OutboxRow)
      → All (IsElsewhere c ids) es
      → All (Held c ids) l
      → All (Held c ids) (passed es l)
  unfolding passed
  passed-Held [] l apart held = held
  passed-Held (claims d ∷ es) l (early, apart) held =
      passed-Held es (left_by l (claim d l)) apart (claim-Held d l (claim d l) refl early held)
  passed-Held (changes id f ∷ es) l ((other, keeps), apart) held =
      passed-Held es (update_rows (λ o. o.id == id) f l) apart (
        update_rows-All (Held c ids) (λ o. o.id == id) f l
          (λ o h same.
            let named : o.id ≡ id = ground arith in
            unheld (f o) (ap (has_id ids) (keeps o ∙ named) ∙ other))
          held)
  passed-Held (adds o ∷ es) l (other, apart) held =
      passed-Held es (o ∷ l) apart (unheld o other, held)

-- Until the claim timeout has passed, and as long as no statement changes the record itself (as the one that
-- schedules a retry does), no record of a claim is claimed again by any worker, whatever other claims, new
-- records and statements on other records come between.
pub claim-excludes :
    (c : Claim) (outbox records after : List OutboxRow)
    → claim c outbox ≡ some (records, after)
    → (events : List Event) → All (IsElsewhere c records) events
    → (d : Claim) → d.now ≤ c.now + d.claim_timeout * 1000
    → (records' after' : List OutboxRow) → claim d (passed events after) ≡ some (records', after')
    → All (λ r. has_id records r.id ≡ false) records'
claim-excludes c outbox records after e events apart d early records' after' e' =
    let ids = claimed c outbox in
    let (records_are, after_is) = claim_inv c outbox records after e in
    let (next_are, _) = claim_inv d (passed events after) records' after' e' in
    let same : (k : ℕ) → has_id ids k ≡ has_id records k =
      λ k. sym (ap (λ l. has_id l k) records_are ∙ has_id-map c ids k) in
    let taken = subst (All (Held c ids)) (sym after_is) (update-Held c ids outbox) in
    let held = passed-Held c ids events after (All-elsewhere ids same events apart) taken in
    rw next_are (
      map-All _ (λ r. has_id records r.id ≡ false) (claimed_by_at d)
        (λ o (h, claimable). sym (same o.id) ∙ Held-excludes c d ids o early h claimable)
        (claimed d (passed events after)) (claimed-All (Held c ids) d (passed events after) held))
  where
    elsewhere :
        (ids : List OutboxRow)
        → ((k : ℕ) → has_id ids k ≡ has_id records k)
        → (x : Event) → IsElsewhere c records x
        → IsElsewhere c ids x
    elsewhere ids same (claims d) h = h
    elsewhere ids same (changes id f) (other, keeps) = (same id ∙ other, keeps)
    elsewhere ids same (adds o) other = same o.id ∙ other

    All-elsewhere :
        (ids : List OutboxRow)
        → ((k : ℕ) → has_id ids k ≡ has_id records k)
        → (xs : List Event) → All (IsElsewhere c records) xs
        → All (IsElsewhere c ids) xs
    All-elsewhere ids same [] h = tt
    All-elsewhere ids same (x ∷ xs) (p, h) = (elsewhere ids same x p, All-elsewhere ids same xs h)
