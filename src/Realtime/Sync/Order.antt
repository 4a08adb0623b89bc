-- ===== src/Realtime/Sync/Order.antt =====
-- The order of events and the rows after a cursor, in internal/realtime/sync.go.
use seatd_v.Base.{
  ℕ, zero, suc, ◌+◌, ◌≡◌, refl, sym, ap, subst, ◌∙◌, arith, Bool, true, false, ◌==◌, Bool-cases,
  inl, inr, Option, none, some, List, [], ◌∷◌, ◌++◌, take, select_rows, All, All-mono, find_row,
}
use seatd_v.Store.{EventRow}
use seatd_v.Realtime.Sync.{
  Cursor, cursor_from, is_above, is_after, is_earlier, insert_by_time, by_time, next_cursor,
}

-- Each row is earlier than the rows behind it, and has an id.
abbrev IsSorted : List EventRow → Type 0
IsSorted [] = Unit
IsSorted (r ∷ rows) = ((r.id == 0) ≡ false) × All (λ s. is_earlier r s ≡ true) rows × IsSorted rows

-- The cursor of the last row
abbrev at : EventRow → Cursor
at r = cursor_from r.occurred_at r.id

after_at : (r s : EventRow) → (r.id == 0) ≡ false → is_earlier r s ≡ true → is_after (at r) s ≡ true
after_at r s h e = ground arith

not_after_at :
    (r s : EventRow) → (s.id == 0) ≡ false → is_earlier r s ≡ true → is_after (at s) r ≡ false
not_after_at r s h e = ground arith

not_after_self : (r : EventRow) → (r.id == 0) ≡ false → is_after (at r) r ≡ false
not_after_self r h = ground arith

after_later :
    (c : Cursor) (r s : EventRow)
    → is_after c r ≡ true
    → is_earlier r s ≡ true
    → is_after c s ≡ true
after_later c r s h e = go c.occurred_at h
  where
    go : (o : Option ℕ) → is_above o c.event_id r ≡ true → is_above o c.event_id s ≡ true
    go none h = refl
    go (some t) h = ground arith

abbrev pub drop : ℕ → List EventRow → List EventRow
drop zero rows = rows
drop (suc n) [] = []
drop (suc n) (r ∷ rows) = drop n rows

pub take-drop :
    (n m : ℕ) (rows : List EventRow) → take (n + m) rows ≡ take n rows ++ take m (drop n rows)
take-drop zero m rows = ap (λ k. take k rows) {x = zero + m} {y = m} (omega arith)
take-drop (suc n) m rows = shifted ∙ split (take-drop n m) rows
  where
    shifted : take (suc n + m) rows ≡ take (suc (n + m)) rows
    shifted = ap (λ k. take k rows) {x = suc n + m} {y = suc (n + m)} (omega arith)

    no_rows : (m : ℕ) → [] ≡ take m (drop (suc n) [])
    no_rows zero = refl
    no_rows (suc m) = refl

    split :
        ((rows : List EventRow) → take (n + m) rows ≡ take n rows ++ take m (drop n rows))
        → (rows : List EventRow)
        → take (suc (n + m)) rows ≡ take (suc n) rows ++ take m (drop (suc n) rows)
    split rest [] = no_rows m
    split rest (r ∷ rows) = ap (λ l. r ∷ l) (rest rows)

pub select_rows_whole :
    (c : Cursor) (rows : List EventRow)
    → All (λ s. is_after c s ≡ true) rows
    → select_rows (is_after c) rows ≡ rows
unfolding select_rows
select_rows_whole c [] h = refl
select_rows_whole c (r ∷ rows) h = ground (arith, select_rows_whole c rows h.1)

-- A row is not after the last of those behind it.
not_after_last :
    (r s : EventRow) (rows : List EventRow) (n : ℕ)
    → IsSorted (s ∷ rows)
    → All (λ s. is_earlier r s ≡ true) (s ∷ rows)
    → is_after (next_cursor (at s) (take n rows)) r ≡ false
unfolding next_cursor
not_after_last r s rows zero h e = not_after_at r s h.0 e.0
not_after_last r s [] (suc n) h e = not_after_at r s h.0 e.0
not_after_last r s (x ∷ rows) (suc n) h e = not_after_last r x rows n h.2 e.1

-- What is after the last of some rows is the rest.
select-after_last :
    (r : EventRow) (rows : List EventRow) (n : ℕ)
    → IsSorted (r ∷ rows)
    → select_rows (is_after (next_cursor (at r) (take n rows))) (r ∷ rows) ≡ drop n rows
unfolding select_rows next_cursor
select-after_last r rows zero h =
    rw (not_after_self r h.0)
      (select_rows_whole (at r) rows (All-mono _ _ rows (λ s e. after_at r s h.0 e) h.1))
select-after_last r [] (suc n) h = rw (not_after_self r h.0) refl
select-after_last r (s ∷ rows) (suc n) h =
    rw (not_after_last r s rows n h.2 h.1) (select-after_last s rows n h.2)

All-select_rows :
    (P : EventRow → Type 0) (test : EventRow → Bool) (rows : List EventRow)
    → All P rows
    → All P (select_rows test rows)
unfolding select_rows
All-select_rows P test [] h = tt
All-select_rows P test (r ∷ rows) h = elim (Bool-cases (test r)) [
  | inl e ↦ rw e (h.0, All-select_rows P test rows h.1)
  | inr e ↦ rw e (All-select_rows P test rows h.1)
]

select_rows-IsSorted :
    (test : EventRow → Bool) (rows : List EventRow)
    → IsSorted rows
    → IsSorted (select_rows test rows)
unfolding select_rows
select_rows-IsSorted test [] h = tt
select_rows-IsSorted test (r ∷ rows) h = elim (Bool-cases (test r)) [
  | inl e ↦ rw e (
    h.0,
    All-select_rows (λ s. is_earlier r s ≡ true) test rows h.1,
    select_rows-IsSorted test rows h.2,
  )
  | inr e ↦ rw e (select_rows-IsSorted test rows h.2)
]

-- The rows after a page are those behind it.
pub select-after_page :
    (c : Cursor) (rows : List EventRow) (n : ℕ)
    → IsSorted rows
    → select_rows (is_after (next_cursor c (take n (select_rows (is_after c) rows)))) rows
      ≡ drop n (select_rows (is_after c) rows)
unfolding select_rows next_cursor
select-after_page c rows zero h = refl
select-after_page c [] (suc n) h = refl
select-after_page c (r ∷ rows) (suc n) h = elim (Bool-cases (is_after c r)) [
  | inl e ↦
      let whole =
        select_rows_whole c (r ∷ rows)
          (e, All-mono _ _ rows (λ s later. after_later c r s e later) h.1) in
      subst
        (λ page.
          select_rows (is_after (next_cursor c (take (suc n) page))) (r ∷ rows) ≡ drop (suc n) page)
        (sym whole) (select-after_last r rows n h)
  | inr e ↦
      let skipped : select_rows (is_after c) (r ∷ rows) ≡ select_rows (is_after c) rows =
        rw e refl in
      subst
        (λ page.
          select_rows (is_after (next_cursor c (take (suc n) page))) (r ∷ rows) ≡ drop (suc n) page)
        (sym skipped)
        (passed (select_rows (is_after c) rows) e (select_rows-IsSorted (is_after c) rows h.2)
          (All-select_rows _ (is_after c) rows h.1) (select-after_page c rows (suc n) h.2))
]
  where
    passed :
        (page : List EventRow)
        → is_after c r ≡ false
        → IsSorted page
        → All (λ s. is_earlier r s ≡ true) page
        → select_rows (is_after (next_cursor c (take (suc n) page))) rows ≡ drop (suc n) page
        → select_rows (is_after (next_cursor c (take (suc n) page))) (r ∷ rows) ≡ drop (suc n) page
    passed [] e sorted earlier rest = rw e rest
    passed (x ∷ page) e sorted earlier rest = rw (not_after_last r x page n sorted earlier) rest

-- ORDER BY gives sorted rows.
abbrev Differs : EventRow → EventRow → Type 0
Differs a b = (a.id == b.id) ≡ false

All-insert_by_time :
    (P : EventRow → Type 0) (a : EventRow) (rows : List EventRow)
    → P a
    → All P rows
    → All P (insert_by_time a rows)
unfolding insert_by_time
All-insert_by_time P a [] p h = (p, tt)
All-insert_by_time P a (b ∷ rows) p h = elim (Bool-cases (is_earlier b a)) [
  | inl e ↦ rw e (h.0, All-insert_by_time P a rows p h.1)
  | inr e ↦ rw e (p, (h.0, h.1))
]

unlike :
    (r : EventRow) (rows : List EventRow)
    → find_row (λ y. y.id == r.id) rows ≡ none
    → All (Differs r) rows
unfolding find_row
unlike r [] h = tt
unlike r (y ∷ rows) h = elim (Bool-cases (y.id == r.id)) [
  | inl e ↦ (let found = rw e at h in cc)
  | inr e ↦ (ground arith, unlike r rows (rw e at h))
]

insert_by_time-IsSorted :
    (a : EventRow) (rows : List EventRow)
    → (a.id == 0) ≡ false
    → All (Differs a) rows
    → IsSorted rows
    → IsSorted (insert_by_time a rows)
unfolding insert_by_time
insert_by_time-IsSorted a [] has_id differs h = (has_id, tt, tt)
insert_by_time-IsSorted a (b ∷ rows) has_id differs h = elim (Bool-cases (is_earlier b a)) [
  | inl e ↦ rw e (
    h.0,
    All-insert_by_time (λ s. is_earlier b s ≡ true) a rows e h.1,
    insert_by_time-IsSorted a rows has_id differs.1 h.2,
  )
  | inr e ↦
      let first : is_earlier a b ≡ true = turned e differs.0 in
      rw e (has_id, (first, All-mono _ _ rows (λ s later. chained s first later) h.1), h)
]
  where
    turned : is_earlier b a ≡ false → Differs a b → is_earlier a b ≡ true
    turned e d = ground arith

    chained : (s : EventRow) → is_earlier a b ≡ true → is_earlier b s ≡ true → is_earlier a s ≡ true
    chained s e e' = ground arith

All-by_time : (P : EventRow → Type 0) (rows : List EventRow) → All P rows → All P (by_time rows)
unfolding by_time
All-by_time P [] h = tt
All-by_time P (r ∷ rows) h = All-insert_by_time P r (by_time rows) h.0 (All-by_time P rows h.1)

-- Every row has an id, and no two rows have the same.
abbrev pub HasIds : List EventRow → Type 0
HasIds [] = Unit
HasIds (r ∷ rows) = ((r.id == 0) ≡ false) × All (Differs r) rows × HasIds rows

pub by_time-IsSorted : (rows : List EventRow) → HasIds rows → IsSorted (by_time rows)
unfolding by_time
by_time-IsSorted [] h = tt
by_time-IsSorted (r ∷ rows) h =
    insert_by_time-IsSorted r (by_time rows) h.0 (All-by_time (Differs r) rows h.1)
      (by_time-IsSorted rows h.2)

pub select_rows-HasIds :
    (test : EventRow → Bool) (rows : List EventRow) → HasIds rows → HasIds (select_rows test rows)
unfolding select_rows
select_rows-HasIds test [] h = tt
select_rows-HasIds test (r ∷ rows) h = elim (Bool-cases (test r)) [
  | inl e ↦ rw e (h.0, All-select_rows (Differs r) test rows h.1, select_rows-HasIds test rows h.2)
  | inr e ↦ rw e (select_rows-HasIds test rows h.2)
]
