-- ===== src/Base/Rows.antt =====
-- The rows of a table as a list: selection by a WHERE clause, and update in place.
use Prim.Native.Nat.{suc}
use mathlib.Core.Path.{◌≡◌, refl, ap, subst}
use mathlib.Core.Logic.{inl, inr}
use mathlib.Core.Bool.{Bool, true, false}
use mathlib.Core.Option
use mathlib.Core.Option.{Option, none, some}
use mathlib.Core.List.{List, [], ◌∷◌}
use native.Mathlib.Omega.{arith}
use seatd_v.Base.Tests.{if◌then◌else◌, is_some, Bool-cases}
use seatd_v.Base.Lists.{length, All}

module _ {ℓ} {A : Type ℓ} where
  pub some_inj : {x y : A} → some x ≡ some y → x ≡ y
  some_inj h = cc

  -- SELECT … WHERE test LIMIT 1, in storage order.
  unfoldable pub find_row : (A → Bool) → List A → Option A
  find_row test [] = none
  find_row test (x ∷ xs) = if test x then some x else find_row test xs

  -- EXISTS (SELECT … WHERE test)
  abbrev pub has_row : (A → Bool) → List A → Bool
  has_row test xs = is_some (find_row test xs)

  -- UPDATE … SET change WHERE test
  unfoldable pub update_rows : (A → Bool) → (A → A) → List A → List A
  update_rows test change [] = []
  update_rows test change (x ∷ xs) = (if test x then change x else x) ∷ update_rows test change xs

  -- SELECT … WHERE test
  unfoldable pub select_rows : (A → Bool) → List A → List A
  select_rows test [] = []
  select_rows test (x ∷ xs) = if test x then x ∷ select_rows test xs else select_rows test xs

  pub find_row-test :
      (test : A → Bool) (xs : List A) (x : A) → find_row test xs ≡ some x → test x ≡ true
  unfolding find_row
  find_row-test test [] x h = cc
  find_row-test test (y ∷ xs) x h = ground (arith, find_row-test test xs x)

  pub find_row-All {κ} :
      (P : A → Type κ) (test : A → Bool) (xs : List A) (x : A)
      → find_row test xs ≡ some x
      → All P xs
      → P x
  unfolding find_row
  find_row-All P test [] x h a = cc
  find_row-All P test (y ∷ xs) x h a = elim (Bool-cases (test y)) [
    | inl e ↦ subst P (some_inj (rw e at h)) a.0
    | inr e ↦ find_row-All P test xs x (rw e at h) a.1
  ]

  pub length-update_rows :
      (test : A → Bool) (change : A → A) (xs : List A)
      → length (update_rows test change xs) ≡ length xs
  unfolding update_rows
  length-update_rows test change [] = refl
  length-update_rows test change (x ∷ xs) = ap suc (length-update_rows test change xs)

  -- An update that does not touch a test maps the row that the test finds.
  pub find_row-update_rows :
      (test updated : A → Bool) (change : A → A) (xs : List A)
      → ((x : A) → test (change x) ≡ test x)
      → find_row test (update_rows updated change xs)
        ≡ Option.map (λ x. if updated x then change x else x) (find_row test xs)
  unfolding find_row update_rows
  find_row-update_rows test updated change [] keeps = refl
  find_row-update_rows test updated change (x ∷ xs) keeps =
      ground (arith, keeps x, find_row-update_rows test updated change xs keeps)

  -- Where no row passes a test, none passes a narrower one.
  pub find_row-narrower :
      (test narrow : A → Bool) (xs : List A)
      → ((x : A) → narrow x ≡ true → test x ≡ true)
      → has_row test xs ≡ false
      → find_row narrow xs ≡ none
  unfolding find_row
  find_row-narrower test narrow [] sub h = refl
  find_row-narrower test narrow (x ∷ xs) sub h =
      ground (arith, sub x, find_row-narrower test narrow xs sub)
