-- ===== src/Realtime/Hub/Effects.antt =====
-- What the steps of internal/realtime/hub.go do to one client.
use mathlib.Core.Option
use seatd_v.Base.{
  ℕ, ◌≡◌, refl, ap, sym, ◌∙◌, true, false, Option, none, some, List, [], ◌∷◌, ◌==◌, subst, some_inj,
  if◌then◌else◌, Bool-cases, inl, inr, arith, find_key-update_rows, find_key-eq_key,
}
use seatd_v.Realtime.Hub.{
  Message, Client, Hub, client_at, change, close, can_send, queued, dropping, unsubscribe,
  unsubscribe_once, send_to, send_all,
}
use seatd_v.Realtime.Hub.Scopes.{count}

pub client_at-change_other :
    (j k : ℕ) (f : Client → Client) (hub : Hub)
    → ((c : Client) → (f c).id ≡ c.id)
    → (j == k) ≡ false
    → client_at (change k f hub) j ≡ client_at hub j
client_at-change_other j k f hub keeps e =
    find_key-update_rows (λ c. c.id) (λ c. c.id == k) f j hub.heap keeps
    ∙ same (client_at hub j) (λ c. find_key-eq_key (λ c. c.id) j hub.heap c)
  where
    same :
        (o : Option Client)
        → ((c : Client) → o ≡ some c → c.id ≡ j)
        → Option.map (λ c. if c.id == k then f c else c) o ≡ o
    same none h = refl
    same (some c) h = ground (arith, h c refl, e)

pub client_at-change :
    (k : ℕ) (c : Client) (f : Client → Client) (hub : Hub)
    → ((c : Client) → (f c).id ≡ c.id)
    → client_at hub k ≡ some c
    → client_at (change k f hub) k ≡ some (f c)
client_at-change k c f hub keeps h = ground (
  arith,
  find_key-update_rows (λ c. c.id) (λ c. c.id == k) f k hub.heap keeps,
  find_key-eq_key (λ c. c.id) k hub.heap c h,
  h,
)

-- What a client is after a message was sent to it.
abbrev pub ended : Client → Client
ended c = close (record c { once = true })

abbrev pub received : Message → Client → Client
received message c = if can_send c then queued message c else ended c

-- The branches of Unsubscribe.
pub unsubscribe-elim :
    (P : Hub → Type 0) (k : ℕ) (hub : Hub)
    → P hub
    → ((c : Client) → client_at hub k ≡ some c → c.once ≡ false → P (unsubscribe_once c hub))
    → P (unsubscribe k hub)
unfolding unsubscribe
unsubscribe-elim P k hub kept left = branch (client_at hub k) refl
  where
    branch : (o : Option Client) → client_at hub k ≡ o → P (unsubscribe k hub)
    branch none h = rw h kept
    branch (some c) h =
        rw h elim (Bool-cases c.once) [ inl e ↦ rw e kept | inr e ↦ rw e (left c h e) ]

-- The branches of the body of the loop of Publish.
pub send_to-elim :
    (P : Hub → Type 0) (k : ℕ) (message : Message) (hub : Hub)
    → (client_at hub k ≡ none → P hub)
    → ((c : Client)
        → client_at hub k ≡ some c
        → can_send c ≡ true
        → P (change k (queued message) hub))
    → ((c : Client)
        → client_at hub k ≡ some c
        → can_send c ≡ false
        → P (unsubscribe k (dropping hub)))
    → P (send_to message k hub)
unfolding send_to
send_to-elim P k message hub kept sent full = branch (client_at hub k) refl
  where
    branch : (o : Option Client) → client_at hub k ≡ o → P (send_to message k hub)
    branch none h = rw h (kept h)
    branch (some c) h =
        rw h
          elim (Bool-cases (can_send c)) [ inl e ↦ rw e (sent c h e) | inr e ↦ rw e (full c h e) ]

pub unsubscribe_other :
    (j k : ℕ) (hub : Hub) → (j == k) ≡ false → client_at (unsubscribe k hub) j ≡ client_at hub j
unfolding unsubscribe_once
unsubscribe_other j k hub e =
    unsubscribe-elim (λ after. client_at after j ≡ client_at hub j) k hub refl
      λ c h _.
        client_at-change_other j c.id ended hub (λ c. ground arith)
          (ground (arith, find_key-eq_key (λ c. c.id) k hub.heap c h))

unsubscribe_runs :
    (k : ℕ) (c : Client) (hub : Hub)
    → client_at hub k ≡ some c
    → c.once ≡ false
    → unsubscribe k hub ≡ unsubscribe_once c hub
unfolding unsubscribe
unsubscribe_runs k c hub h e = rw h (rw e refl)

unsubscribe_open :
    (k : ℕ) (c : Client) (hub : Hub)
    → client_at hub k ≡ some c
    → c.once ≡ false
    → client_at (unsubscribe k hub) k ≡ some (ended c)
unfolding unsubscribe_once
unsubscribe_open k c hub h e =
    let same = find_key-eq_key (λ c. c.id) k hub.heap c h in
    rw (unsubscribe_runs k c hub h e) (
      subst (λ i. client_at (change c.id ended hub) i ≡ some (ended c)) same
        (client_at-change c.id c ended hub (λ c. ground arith)
          (subst (λ i. client_at hub i ≡ some c) (sym same) h)))

send_to_other :
    (j k : ℕ) (message : Message) (hub : Hub)
    → (j == k) ≡ false
    → client_at (send_to message k hub) j ≡ client_at hub j
send_to_other j k message hub e =
    send_to-elim (λ after. client_at after j ≡ client_at hub j) k message hub (λ _. refl)
      (λ c h r. client_at-change_other j k (queued message) hub (λ c. refl) e)
      (λ c h r. unsubscribe_other j k (dropping hub) e)

send_to_open :
    (k : ℕ) (c : Client) (message : Message) (hub : Hub)
    → client_at hub k ≡ some c
    → c.once ≡ false
    → client_at (send_to message k hub) k ≡ some (received message c)
send_to_open k c message hub h e =
    send_to-elim (λ after. client_at after k ≡ some (received message c)) k message hub
      (λ n. absurd (ground (arith, n, h)))
      (λ d h' r.
        let can : can_send c ≡ true = ap can_send (some_inj (sym h ∙ h')) ∙ r in
        rw can (client_at-change k c (queued message) hub (λ c. refl) h))
      (λ d h' r.
        let cannot : can_send c ≡ false = ap can_send (some_inj (sym h ∙ h')) ∙ r in
        rw cannot (unsubscribe_open k c (dropping hub) h e))

pub send_all_absent :
    (k : ℕ) (message : Message) (ks : List ℕ) (hub : Hub)
    → count k ks ≡ 0
    → client_at (send_all message ks hub) k ≡ client_at hub k
unfolding send_all count
send_all_absent k message [] hub none_of = refl
send_all_absent k message (j ∷ js) hub none_of =
    send_all_absent k message js (send_to message j hub) (ground arith)
    ∙ send_to_other k j message hub (ground arith)

-- A client that stands once in the list gets the message once, whatever happens to the others.
pub send_all_once :
    (k : ℕ) (c : Client) (message : Message) (ks : List ℕ) (hub : Hub)
    → count k ks ≡ 1
    → client_at hub k ≡ some c
    → c.once ≡ false
    → client_at (send_all message ks hub) k ≡ some (received message c)
unfolding send_all count
send_all_once k c message [] hub once h e = absurd (ground arith)
send_all_once k c message (j ∷ js) hub once h e = elim (Bool-cases (j == k)) [
  | inl here ↦
      let same : j ≡ k = ground arith in
      send_all_absent k message js (send_to message j hub) (ground arith)
      ∙ subst (λ i. client_at (send_to message i hub) k ≡ some (received message c)) (sym same)
          (send_to_open k c message hub h e)
  | inr there ↦
      send_all_once k c message js (send_to message j hub) (ground arith)
        (send_to_other k j message hub (ground arith) ∙ h) e
]
