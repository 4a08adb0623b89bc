-- ===== src/Base/Counts.antt =====
-- How many rows pass a test, before and after an update.
use Prim.Native.Nat.{ℕ, suc, ◌≤◌}
use mathlib.Core.Path.{◌≡◌, refl, sym, subst}
use mathlib.Core.Logic.{inl, inr}
use mathlib.Core.Bool.{Bool, true, false}
use mathlib.Core.Option.{none, some}
use mathlib.Core.List.{List, [], ◌∷◌}
use native.Mathlib.Omega.{arith}
use seatd_v.Base.Tests.{◌==◌, if◌then◌else◌, Bool-cases}
use seatd_v.Base.Lists.{length}
use seatd_v.Base.Rows.{find_row, update_rows, select_rows, some_inj}
use seatd_v.Base.Keyed.{find_key, IsKeyed}

module _ {ℓ} {A : Type ℓ} where
  abbrev pub count_rows : (A → Bool) → List A → ℕ
  count_rows test xs = length (select_rows test xs)

  count_rows-cons :
      (test : A → Bool) (x : A) (xs : List A)
      → count_rows test (x ∷ xs) ≡ (if test x then suc (count_rows test xs) else count_rows test xs)
  unfolding select_rows
  count_rows-cons test x xs = ground arith

  pub count_rows-cons-le :
      (test : A → Bool) (x : A) (xs : List A) → count_rows test xs ≤ count_rows test (x ∷ xs)
  count_rows-cons-le test x xs = ground (arith, count_rows-cons test x xs)

  module _ (test updated : A → Bool) (change : A → A) where
    -- An update that lets no row fail the test
    pub count_rows-update_rows-le :
        (xs : List A)
        → ((x : A) → test x ≡ true → updated x ≡ true → test (change x) ≡ true)
        → count_rows test xs ≤ count_rows test (update_rows updated change xs)
    unfolding select_rows update_rows
    count_rows-update_rows-le [] keeps = omega arith
    count_rows-update_rows-le (x ∷ xs) keeps =
        ground (arith, keeps x, count_rows-update_rows-le xs keeps)

    module _ (key : A → ℕ) (k : ℕ) (pins : (x : A) → updated x ≡ true → key x ≡ k) where
      update_rows-absent :
          (xs : List A) → find_key key k xs ≡ none → update_rows updated change xs ≡ xs
      unfolding update_rows find_row
      update_rows-absent [] h = refl
      update_rows-absent (x ∷ xs) h = ground (arith, pins x, update_rows-absent xs)

      -- An update of the row with a key
      pub count_rows-update_rows_one :
          (xs : List A)
          → IsKeyed key xs
          → count_rows test xs ≤ suc (count_rows test (update_rows updated change xs))
      unfolding select_rows update_rows
      count_rows-update_rows_one [] u = omega arith
      count_rows-update_rows_one (x ∷ xs) u = elim (Bool-cases (updated x)) [
        | inl e ↦
            let absent = update_rows-absent xs (rw (pins x e) at u.0) in ground (arith, absent)
        | inr e ↦ let rest = count_rows-update_rows_one xs u.1 in ground arith
      ]

      -- and of one that did not pass, or passes after it
      pub count_rows-update_rows_kept :
          (xs : List A) (r : A)
          → IsKeyed key xs
          → find_key key k xs ≡ some r
          → (test r ≡ true → test (change r) ≡ true)
          → count_rows test xs ≤ count_rows test (update_rows updated change xs)
      unfolding select_rows update_rows find_row
      count_rows-update_rows_kept [] r u h keeps = omega arith
      count_rows-update_rows_kept (x ∷ xs) r u h keeps = elim (Bool-cases (key x == k)) [
        | inl e ↦
            let is_r : x ≡ r = some_inj (rw e at h) in
            let kept = subst (λ r. test r ≡ true → test (change r) ≡ true) (sym is_r) keeps in
            let same : key x ≡ k = ground arith in
            let absent = update_rows-absent xs (rw same at u.0) in ground (arith, kept)
        | inr e ↦
            let rest = count_rows-update_rows_kept xs r u.1 (rw e at h) keeps in
            ground (arith, pins x)
      ]

      -- and of one that passed and does not after it
      pub count_rows-update_rows_lost :
          (xs : List A) (r : A)
          → IsKeyed key xs
          → find_key key k xs ≡ some r
          → updated r ≡ true
          → test r ≡ true
          → test (change r) ≡ false
          → count_rows test xs ≡ suc (count_rows test (update_rows updated change xs))
      unfolding select_rows update_rows find_row
      count_rows-update_rows_lost [] r u h reached passed lost = cc
      count_rows-update_rows_lost (x ∷ xs) r u h reached passed lost =
          elim (Bool-cases (key x == k)) [
            | inl e ↦
                let is_r : x ≡ r = some_inj (rw e at h) in
                let reached' = subst (λ r. updated r ≡ true) (sym is_r) reached in
                let passed' = subst (λ r. test r ≡ true) (sym is_r) passed in
                let lost' = subst (λ r. test (change r) ≡ false) (sym is_r) lost in
                let same : key x ≡ k = ground arith in
                let absent = update_rows-absent xs (rw same at u.0) in
                ground (arith, reached', passed', lost')
            | inr e ↦
                let rest = count_rows-update_rows_lost xs r u.1 (rw e at h) reached passed lost in
                ground (arith, pins x)
          ]
