-- ===== src/Realtime/Sync/Pages.antt =====
-- Pages of events follow on each other: loadEventsAfter of internal/realtime/sync.go.
use seatd_v.Base.{
  ℕ, zero, suc, ◌+◌, ◌≡◌, refl, sym, ap, subst, ◌∙◌, true, none, List, [], ◌∷◌, ◌++◌, map, length,
  take, select_rows, All,
}
use seatd_v.Store.{EventRow}
use seatd_v.Realtime.Hub.Scopes.{Scope}
use seatd_v.Realtime.Hub.{Message}
use seatd_v.Realtime.Sync.{
  Cursor, is_after, by_time, is_in, message_of, next_cursor, load_events_after, load_current_cursor,
}
use seatd_v.Realtime.Sync.Order.{
  drop, take-drop, select_rows_whole, select-after_page, HasIds, by_time-IsSorted,
  select_rows-HasIds,
}

map-append :
    (f : EventRow → Message) (xs ys : List EventRow) → map f (xs ++ ys) ≡ map f xs ++ map f ys
map-append f [] ys = refl
map-append f (x ∷ xs) ys = ap (λ l. f x ∷ l) (map-append f xs ys)

-- Where every event has an id of its own, two pages, the second loaded with the cursor that came with the
-- first, hold the events of one page of both sizes, in its order: none twice and none left out.
pub load_events_after_pages :
    (scope : Scope) (after : Cursor) (n m : ℕ) (events : List EventRow)
    → HasIds events
    → (load_events_after scope after n events).0
        ++ (load_events_after scope (load_events_after scope after n events).1 m events).0
      ≡ (load_events_after scope after (n + m) events).0
unfolding load_events_after
load_events_after_pages scope after n m events ids =
    let rows = by_time (select_rows (is_in scope) events) in
    let sorted =
      by_time-IsSorted (select_rows (is_in scope) events)
        (select_rows-HasIds (is_in scope) events ids) in
    let page = select_rows (is_after after) rows in
    let rest = select-after_page after rows n sorted in
    ap (λ l. map message_of (take n page) ++ map message_of (take m l)) rest
    ∙ sym (map-append message_of (take n page) (take m (drop n page)))
    ∙ ap (map message_of) (sym (take-drop n m page))

take-length : (rows : List EventRow) → take (length rows) rows ≡ rows
take-length [] = refl
take-length (r ∷ rows) = ap (λ l. r ∷ l) (take-length rows)

none_left : (rows : List EventRow) → drop (length rows) rows ≡ []
none_left [] = refl
none_left (r ∷ rows) = none_left rows

-- Where every event has an id of its own, no event of the location is after the current cursor.
pub load_current_cursor_newest :
    (scope : Scope) (n : ℕ) (events : List EventRow)
    → HasIds events
    → (load_events_after scope (load_current_cursor scope events) n events).0 ≡ []
unfolding load_events_after load_current_cursor
load_current_cursor_newest scope n events ids =
    let rows = by_time (select_rows (is_in scope) events) in
    let sorted =
      by_time-IsSorted (select_rows (is_in scope) events)
        (select_rows-HasIds (is_in scope) events ids) in
    let start : Cursor = record { occurred_at = none; event_id = 0 } in
    let whole = select_rows_whole start rows (from_start rows) in
    let page =
      subst
        (λ page.
          select_rows (is_after (next_cursor start (take (length rows) page))) rows
          ≡ drop (length rows) page)
        whole (select-after_page start rows (length rows) sorted) in
    let nothing =
      subst (λ page. select_rows (is_after (next_cursor start page)) rows ≡ drop (length rows) rows)
        (take-length rows) page
      ∙ none_left rows in
    ap (λ l. map message_of (take n l)) nothing ∙ empty n
  where
    from_start :
        (rows : List EventRow)
        → All (λ s. is_after (record { occurred_at = none; event_id = 0 }) s ≡ true) rows
    from_start [] = tt
    from_start (r ∷ rows) = (refl, from_start rows)

    empty : (n : ℕ) → map message_of (take n []) ≡ []
    empty zero = refl
    empty (suc n) = refl
