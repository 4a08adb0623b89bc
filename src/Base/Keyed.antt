-- ===== src/Base/Keyed.antt =====
-- Rows with a primary key: a lookup by key, and what an insert and an update do to it.
use Prim.Native.Nat.{ℕ}
use mathlib.Core.Path.{◌≡◌, refl}
use mathlib.Core.Logic.{inl, inr}
use mathlib.Core.Bool.{Bool, true, false}
use mathlib.Core.Option
use mathlib.Core.Option.{Option, none, some}
use mathlib.Core.List.{List, [], ◌∷◌}
use native.Mathlib.Omega.{arith}
use seatd_v.Base.Tests.{◌==◌, if◌then◌else◌, Bool-cases}
use seatd_v.Base.Rows.{some_inj, find_row, update_rows}

module _ {ℓ} {A : Type ℓ} (key : A → ℕ) where
  -- The row with a given key.
  abbrev pub find_key : ℕ → List A → Option A
  find_key k = find_row (λ x. key x == k)

  -- PRIMARY KEY
  abbrev pub IsKeyed : List A → Type ℓ
  IsKeyed [] = Unit
  IsKeyed (x ∷ xs) = (find_row (λ y. key y == key x) xs ≡ none) × IsKeyed xs

  pub find_key-cons :
      (k : ℕ) (x : A) (xs : List A)
      → find_key k (x ∷ xs) ≡ (if key x == k then some x else find_key k xs)
  unfolding find_row
  find_key-cons k x xs = refl

  pub find_key-eq_key : (k : ℕ) (xs : List A) (x : A) → find_key k xs ≡ some x → key x ≡ k
  unfolding find_row
  find_key-eq_key k [] x h = cc
  find_key-eq_key k (y ∷ xs) x h = elim (Bool-cases (key y == k)) [
    | inl e ↦ ground arith
    | inr e ↦ find_key-eq_key k xs x (rw e at h)
  ]

  -- An update that keeps the keys maps the rows that a key finds.
  pub find_key-update_rows :
      (test : A → Bool) (change : A → A) (k : ℕ) (xs : List A)
      → ((x : A) → key (change x) ≡ key x)
      → find_key k (update_rows test change xs)
        ≡ Option.map (λ x. if test x then change x else x) (find_key k xs)
  unfolding find_row update_rows
  find_key-update_rows test change k [] keeps = refl
  find_key-update_rows test change k (x ∷ xs) keeps =
      ground (arith, keeps x, find_key-update_rows test change k xs keeps)

  pub update_rows-IsKeyed :
      (test : A → Bool) (change : A → A) (xs : List A)
      → ((x : A) → key (change x) ≡ key x)
      → IsKeyed xs
      → IsKeyed (update_rows test change xs)
  unfolding update_rows
  update_rows-IsKeyed test change [] keeps u = tt
  update_rows-IsKeyed test change (x ∷ xs) keeps u = ground (
    arith,
    keeps x,
    find_key-update_rows test change (key x) xs keeps,
    update_rows-IsKeyed test change xs keeps,
  )

  -- A WHERE clause that pins the key finds the row with that key, if it finds any.
  pub find_row-find_key :
      (test : A → Bool) (k : ℕ) (xs : List A) (x : A)
      → ((y : A) → test y ≡ true → key y ≡ k)
      → IsKeyed xs
      → find_row test xs ≡ some x
      → find_key k xs ≡ some x
  unfolding find_row
  find_row-find_key test k [] x pins u h = cc
  find_row-find_key test k (y ∷ xs) x pins u h =
      ground (arith, pins y, find_row-find_key test k xs x pins)

  -- A row that some clause finds is the row with its key.
  pub find_row-find_own_key :
      (test : A → Bool) (xs : List A) (x : A)
      → IsKeyed xs
      → find_row test xs ≡ some x
      → find_key (key x) xs ≡ some x
  unfolding find_row
  find_row-find_own_key test [] x u h = cc
  find_row-find_own_key test (y ∷ xs) x u h = elim (Bool-cases (test y)) [
    | inl e ↦ (let same : y ≡ x = some_inj (rw e at h) in ground arith)
    | inr e ↦ (let rest = find_row-find_own_key test xs x u.1 (rw e at h) in ground arith)
  ]

  -- And it finds that row exactly if the row passes the whole test.
  pub find_key-find_row :
      (test : A → Bool) (k : ℕ) (xs : List A) (x : A)
      → ((y : A) → test y ≡ true → key y ≡ k)
      → find_key k xs ≡ some x
      → test x ≡ true
      → find_row test xs ≡ some x
  unfolding find_row
  find_key-find_row test k [] x pins h p = cc
  find_key-find_row test k (y ∷ xs) x pins h p =
      ground (arith, pins y, find_key-find_row test k xs x pins)

  -- What holds of every row that some key finds holds of every row.
  pub find_row-eq-none :
      (test : A → Bool) (xs : List A)
      → ((k : ℕ) (x : A) → find_key k xs ≡ some x → test x ≡ false)
      → IsKeyed xs
      → find_row test xs ≡ none
  unfolding find_row
  find_row-eq-none test [] none_passes u = refl
  find_row-eq-none test (x ∷ xs) none_passes u = ground (
    arith,
    none_passes (key x) x,
    find_row-eq-none test xs (λ k y h. none_passes k y (ground (arith, find_key-eq_key k xs y h)))
        u.1,
  )
