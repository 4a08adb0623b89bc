-- ===== src/Realtime/Hub/Scopes.antt =====
-- The map from scopes to sets of clients of internal/realtime/hub.go, as an association list in which
-- no scope keeps an empty set.
use seatd_v.Base.{
  ℕ, suc, ◌+◌, ◌≡◌, refl, ap, sym, ◌∙◌, Bool, true, ◌&&◌, List, [], ◌∷◌, ◌==◌, if◌then◌else◌,
  length, Bool-cases, inl, inr, arith,
}

pub record Scope : Type 0 where
  pub organisation_id : ℕ
  pub location_id : ℕ

abbrev pub same_scope : Scope → Scope → Bool
same_scope s t = s.organisation_id == t.organisation_id && s.location_id == t.location_id

abbrev pub Clients : Type 0
Clients = List (Scope × List ℕ)

-- clients[scope], where a missing scope has no clients
unfoldable pub lookup : Scope → Clients → List ℕ
lookup s [] = []
lookup s ((t, l) ∷ m) = let rest = lookup s m in if same_scope t s then l else rest

-- clients[scope][client] = struct{}{}, for a client that is new
unfoldable pub add : Scope → ℕ → Clients → Clients
add s k [] = (s, k ∷ []) ∷ []
add s k ((t, l) ∷ m) =
    let rest = add s k m in if same_scope t s then (t, k ∷ l) ∷ m else (t, l) ∷ rest

-- delete(scoped, client)
unfoldable pub erase : ℕ → List ℕ → List ℕ
erase k [] = []
erase k (x ∷ l) = let rest = erase k l in if x == k then rest else x ∷ rest

-- `if len(scoped) == 0 { delete(h.clients, client.scope) }`
abbrev pub unless_empty : Scope → List ℕ → Clients → Clients
unless_empty t [] m = m
unless_empty t (x ∷ l) m = (t, x ∷ l) ∷ m

unfoldable pub remove : Scope → ℕ → Clients → Clients
remove s k [] = []
remove s k ((t, l) ∷ m) =
    let rest = remove s k m in
    if same_scope t s then unless_empty t (erase k l) m else (t, l) ∷ rest

unfoldable pub total : Clients → ℕ
total [] = 0
total ((t, l) ∷ m) = length l + total m

-- How often a client stands in a set.
unfoldable pub count : ℕ → List ℕ → ℕ
count k [] = 0
count k (x ∷ l) = let rest = count k l in if x == k then suc rest else rest

-- Each scope has one entry.
abbrev pub AreDistinct : Clients → Type 0
AreDistinct [] = Unit
AreDistinct ((t, l) ∷ m) = (lookup t m ≡ []) × AreDistinct m

pub same_scope-eq : (s t : Scope) → same_scope s t ≡ true → s ≡ t
same_scope-eq s t h =
    let o : s.organisation_id ≡ t.organisation_id = ground arith in
    let l : s.location_id ≡ t.location_id = ground arith in
    λ i. record { organisation_id = o i; location_id = l i }

pub lookup-add :
    (s t : Scope) (k : ℕ) (m : Clients)
    → lookup t (add s k m) ≡ (if same_scope s t then k ∷ lookup t m else lookup t m)
unfolding lookup add
lookup-add s t k [] = refl
lookup-add s t k ((u, l) ∷ m) = ground (arith, lookup-add s t k m)

pub total-add : (s : Scope) (k : ℕ) (m : Clients) → total (add s k m) ≡ suc (total m)
unfolding total add
total-add s k [] = refl
total-add s k ((u, l) ∷ m) = ground (arith, total-add s k m)

pub add-AreDistinct : (s : Scope) (k : ℕ) (m : Clients) → AreDistinct m → AreDistinct (add s k m)
unfolding lookup add
add-AreDistinct s k [] h = (refl, tt)
add-AreDistinct s k ((u, l) ∷ m) (h, d) =
    ground (arith, add-AreDistinct s k m d, lookup-add s u k m, h)

lookup-unless_empty :
    (s t : Scope) (l : List ℕ) (m : Clients)
    → lookup t m ≡ []
    → lookup s (unless_empty t l m) ≡ (if same_scope t s then l else lookup s m)
unfolding lookup
lookup-unless_empty s t [] m h = elim (Bool-cases (same_scope t s)) [
  | inl e ↦ rw e (ap (λ (s : Scope). lookup s m) (sym (same_scope-eq t s e)) ∙ h)
  | inr e ↦ rw e refl
]
lookup-unless_empty s t (x ∷ l) m h = refl

pub lookup-remove :
    (s t : Scope) (k : ℕ) (m : Clients)
    → AreDistinct m
    → lookup t (remove s k m) ≡ (if same_scope s t then erase k (lookup t m) else lookup t m)
unfolding lookup remove erase
lookup-remove s t k [] d = ground arith
lookup-remove s t k ((u, l) ∷ m) (h, d) =
    ground (arith, lookup-remove s t k m d, lookup-unless_empty t u (erase k l) m h)

unless_empty-AreDistinct :
    (t : Scope) (l : List ℕ) (m : Clients)
    → lookup t m ≡ []
    → AreDistinct m
    → AreDistinct (unless_empty t l m)
unless_empty-AreDistinct t [] m h d = d
unless_empty-AreDistinct t (x ∷ l) m h d = (h, d)

pub remove-AreDistinct :
    (s : Scope) (k : ℕ) (m : Clients) → AreDistinct m → AreDistinct (remove s k m)
unfolding lookup remove erase
remove-AreDistinct s k [] h = h
remove-AreDistinct s k ((u, l) ∷ m) (h, d) = elim (Bool-cases (same_scope u s)) [
  | inl e ↦ rw e (unless_empty-AreDistinct u (erase k l) m h d)
  | inr e ↦ rw e (ground (arith, lookup-remove s u k m d, h), remove-AreDistinct s k m d)
]

pub count-erase : (j k : ℕ) (l : List ℕ) → count j (erase k l) ≡ (if j == k then 0 else count j l)
unfolding count erase
count-erase j k [] = ground arith
count-erase j k (x ∷ l) = ground (arith, count-erase j k l)

length-erase : (k : ℕ) (l : List ℕ) → length (erase k l) + count k l ≡ length l
unfolding count erase
length-erase k [] = refl
length-erase k (x ∷ l) = ground (arith, length-erase k l)

total-unless_empty :
    (t : Scope) (l : List ℕ) (m : Clients) → total (unless_empty t l m) ≡ length l + total m
unfolding total
total-unless_empty t [] m = ground arith
total-unless_empty t (x ∷ l) m = refl

pub total-remove :
    (s : Scope) (k : ℕ) (m : Clients) → total (remove s k m) + count k (lookup s m) ≡ total m
unfolding total lookup remove count
total-remove s k [] = refl
total-remove s k ((u, l) ∷ m) =
    ground (arith, total-remove s k m, total-unless_empty u (erase k l) m, length-erase k l)
