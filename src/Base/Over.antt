-- ===== src/Base/Over.antt =====
-- Rows of which one that passes a test is there and none of them is live any more, as a revoked row.
use mathlib.Core.Path.{◌≡◌, refl, sym, subst}
use mathlib.Core.Logic.{inl, inr}
use mathlib.Core.Bool.{Bool, true, false, ◌&&◌}
use mathlib.Core.Option.{some}
use mathlib.Core.List.{List, [], ◌∷◌}
use Prim.Native.Nat.{◌≤◌}
use native.Mathlib.Omega.{arith}
use seatd_v.Base.Tests.{Bool-cases}
use seatd_v.Base.Rows.{some_inj, has_row, find_row, find_row-test, select_rows, update_rows}
use seatd_v.Base.Counts.{count_rows}

module _ {ℓ} {A : Type ℓ} where
  pub has_row-wider :
      (test wide : A → Bool) (xs : List A)
      → ((x : A) → test x ≡ true → wide x ≡ true)
      → has_row test xs ≡ true
      → has_row wide xs ≡ true
  unfolding find_row
  has_row-wider test wide [] h e = cc
  has_row-wider test wide (x ∷ xs) h e = ground (arith, h x, has_row-wider test wide xs h)

  -- A row that a query found, and that passes another test
  pub has_row-found :
      (found wide : A → Bool) (xs : List A) (x : A)
      → find_row found xs ≡ some x
      → wide x ≡ true
      → has_row wide xs ≡ true
  unfolding find_row
  has_row-found found wide [] x h e = cc
  has_row-found found wide (y ∷ xs) x h e = elim (Bool-cases (found y)) [
    | inl passes ↦
        let same : y ≡ x = some_inj (rw passes at h) in
        let reached = subst (λ z. wide z ≡ true) (sym same) e in rw reached refl
    | inr fails ↦ let rest = has_row-found found wide xs x (rw fails at h) e in ground arith
  ]

module _ {ℓ} {A : Type ℓ} (test live : A → Bool) where
  abbrev pub IsOver : List A → Type 0
  IsOver xs = (has_row test xs ≡ true) × (has_row (λ x. test x && live x) xs ≡ false)

  has_row-update_rows :
      (updated : A → Bool) (change : A → A) (xs : List A)
      → ((x : A) → test (change x) ≡ test x)
      → has_row test (update_rows updated change xs) ≡ has_row test xs
  unfolding find_row update_rows
  has_row-update_rows updated change [] same = refl
  has_row-update_rows updated change (x ∷ xs) same =
      ground (arith, same x, has_row-update_rows updated change xs same)

  no_live-update_rows :
      (updated : A → Bool) (change : A → A) (xs : List A)
      → ((x : A) → test (change x) ≡ test x)
      → ((x : A) → live (change x) ≡ true → live x ≡ true)
      → has_row (λ x. test x && live x) xs ≡ false
      → has_row (λ x. test x && live x) (update_rows updated change xs) ≡ false
  unfolding find_row update_rows
  no_live-update_rows updated change [] same kept h = refl
  no_live-update_rows updated change (x ∷ xs) same kept h =
      ground (arith, same x, kept x, no_live-update_rows updated change xs same kept)

  pub update_rows-IsOver :
      (updated : A → Bool) (change : A → A) (xs : List A)
      → ((x : A) → test (change x) ≡ test x)
      → ((x : A) → live (change x) ≡ true → live x ≡ true)
      → IsOver xs
      → IsOver (update_rows updated change xs)
  unfolding find_row
  update_rows-IsOver updated change xs same kept h = (
    subst (λ b. b ≡ true) (sym (has_row-update_rows updated change xs same)) h.0,
    no_live-update_rows updated change xs same kept h.1,
  )

  -- A row is inserted that clashes with none.
  pub cons-IsOver :
      (clash : A → Bool) (x : A) (xs : List A)
      → (test x ≡ true → (y : A) → test y ≡ true → clash y ≡ true)
      → has_row clash xs ≡ false
      → IsOver xs
      → IsOver (x ∷ xs)
  unfolding find_row
  cons-IsOver clash x xs h free over = elim (Bool-cases (test x)) [
    | inl e ↦ (let there = has_row-wider test clash xs (h e) over.0 in cc)
    | inr e ↦ (rw e over.0, rw e over.1)
  ]

  -- An update of all rows that are live ends them.
  pub ended-IsOver :
      (updated : A → Bool) (change : A → A) (xs : List A)
      → ((x : A) → test (change x) ≡ test x)
      → ((x : A) → live (change x) ≡ false)
      → ((x : A) → (test x && live x) ≡ true → updated x ≡ true)
      → has_row test xs ≡ true
      → IsOver (update_rows updated change xs)
  unfolding find_row update_rows
  ended-IsOver updated change xs same ends all h =
      (subst (λ b. b ≡ true) (sym (has_row-update_rows updated change xs same)) h, ended xs)
    where
      ended :
          (xs : List A) → has_row (λ x. test x && live x) (update_rows updated change xs) ≡ false
      ended [] = refl
      ended (x ∷ xs) = ground (arith, ends x, all x, ended xs)

  no_test : (xs : List A) → count_rows test xs ≤ 0 → has_row test xs ≡ false
  unfolding select_rows find_row
  no_test [] h = refl
  no_test (x ∷ xs) h = ground (arith, no_test xs)

  no_row : (xs : List A) → count_rows test xs ≤ 0 → has_row (λ x. test x && live x) xs ≡ false
  unfolding select_rows find_row
  no_row [] h = refl
  no_row (x ∷ xs) h = ground (arith, no_row xs)

  only-ended :
      (found updated : A → Bool) (change : A → A) (xs : List A) (c : A)
      → ((x : A) → found x ≡ true → test x ≡ true)
      → ((x : A) → test (change x) ≡ test x)
      → ((x : A) → live (change x) ≡ false)
      → count_rows test xs ≤ 1
      → find_row found xs ≡ some c
      → updated c ≡ true
      → has_row (λ x. test x && live x) (update_rows updated change xs) ≡ false
  unfolding find_row select_rows update_rows
  only-ended found updated change [] c passes same ends one e reached = refl
  only-ended found updated change (x ∷ xs) c passes same ends one e reached =
      elim (Bool-cases (test x)) [
        | inl tested ↦
            let single : count_rows test xs ≤ 0 = ground arith in
            let others =
              no_live-update_rows updated change xs same (λ y e. let dead = ends y in cc)
                (no_row xs single) in
            elim (Bool-cases (found x)) [
              | inl passed ↦
                  let this : x ≡ c = some_inj (rw passed at e) in
                  let reached_here = subst (λ z. updated z ≡ true) (sym this) reached in
                  ground (arith, ends x)
              | inr passed ↦
                  let elsewhere =
                    has_row-found found test xs c (rw passed at e)
                      (passes c (find_row-test found xs c (rw passed at e))) in
                  let absent = no_test xs single in cc
            ]
        | inr untested ↦
            let missed : found x ≡ false = ground (arith, passes x) in
            let fewer : count_rows test xs ≤ 1 = ground arith in
            let rest =
              only-ended found updated change xs c passes same ends fewer (rw missed at e)
                reached in
            ground (arith, same x)
      ]

  -- An update of the one row that passes the test ends it.
  pub only-IsOver :
      (found updated : A → Bool) (change : A → A) (xs : List A) (c : A)
      → ((x : A) → found x ≡ true → test x ≡ true)
      → ((x : A) → test (change x) ≡ test x)
      → ((x : A) → live (change x) ≡ false)
      → count_rows test xs ≤ 1
      → find_row found xs ≡ some c
      → updated c ≡ true
      → IsOver (update_rows updated change xs)
  only-IsOver found updated change xs c passes same ends one e reached = (
    subst (λ b. b ≡ true) (sym (has_row-update_rows updated change xs same))
        (has_row-found found test xs c e (passes c (find_row-test found xs c e))),
    only-ended found updated change xs c passes same ends one e reached,
  )
