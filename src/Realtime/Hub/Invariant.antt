-- ===== src/Realtime/Hub/Invariant.antt =====
-- The hub of internal/realtime/hub.go from its creation on: what its map and its counters say.
use mathlib.Core.Option
use seatd_v.Base.{
  ℕ, suc, ◌+◌, ◌≡◌, ◌≤◌, ◌<◌, refl, ap, sym, ◌∙◌, true, false, not, ◌&&◌, String, Option, none,
  some, List, [], ◌∷◌, ◌==◌, subst, some_inj, if◌then◌else◌, Bool-cases, inl, inr, ◌⊎◌, find_row,
  find_key-update_rows, arith, length, length-append, length-update_rows, find_key-eq_key,
}
use seatd_v.Store.{Envelope}
use seatd_v.Realtime.Hub.{
  Message, Client, Hub, new_hub, client_at, change, queued, dropping, subscribe, unsubscribe,
  unsubscribe_once, send_to, send_all, publish, scope_of, message_from_event, receive, taken, Call,
  step, run, subscribes, unsubscribes, publishes, receives,
}
use seatd_v.Realtime.Hub.Effects.{
  client_at-change, client_at-change_other, ended, unsubscribe-elim, send_to-elim,
}
use seatd_v.Realtime.Hub.Scopes.{
  Scope, count, same_scope, AreDistinct, lookup, total, remove, lookup-add, add-AreDistinct,
  total-add, lookup-remove, remove-AreDistinct, count-erase, total-remove,
}

-- How often a client stands in the set of a scope.
abbrev pub standing : Scope → Option Client → ℕ
standing s none = 0
standing s (some c) = if not c.once && same_scope c.scope s then 1 else 0

pub record IsWellFormed (hub : Hub) : Type 0 where
  pub numbered : (k : ℕ) (c : Client) → client_at hub k ≡ some c → k < length hub.heap
  pub distinct : AreDistinct hub.clients
  pub registered :
      (k : ℕ) (s : Scope) → count k (lookup s hub.clients) ≡ standing s (client_at hub k)
  pub sealed : (k : ℕ) (c : Client) → client_at hub k ≡ some c → c.closed ≡ c.once
  pub fits : (k : ℕ) (c : Client) → client_at hub k ≡ some c → length c.queue ≤ c.buffer
  pub counted :
      total hub.clients + hub.metrics.connections_closed ≡ hub.metrics.connections_accepted
  pub dropped : hub.metrics.messages_dropped ≡ hub.metrics.backpressure_closes

pub new_hub-IsWellFormed : IsWellFormed new_hub
unfolding lookup total count find_row
new_hub-IsWellFormed = record {
  numbered = λ k c h. absurd (ground arith);
  distinct = tt;
  registered = λ k s. refl;
  sealed = λ k c h. absurd (ground arith);
  fits = λ k c h. absurd (ground arith);
  counted = refl;
  dropped = refl;
}

-- Where a client comes from that is found after a change.
abbrev Origin : ℕ → (Client → Client) → Hub → ℕ → Client → Type 0
Origin k f hub j c =
    (b : Client) × (client_at hub j ≡ some b)
    × (((j == k) ≡ true × (c ≡ f b)) ⊎ ((j == k) ≡ false × (c ≡ b)))

change-Origin :
    (k : ℕ) (f : Client → Client) (hub : Hub)
    → ((c : Client) → (f c).id ≡ c.id)
    → (j : ℕ) (c : Client) → client_at (change k f hub) j ≡ some c
    → Origin k f hub j c
change-Origin k f hub keeps j c h = origin (client_at hub j) refl
  where
    origin : (o : Option Client) → client_at hub j ≡ o → Origin k f hub j c
    origin none e =
        absurd (
          ground
            (arith, find_key-update_rows (λ c. c.id) (λ c. c.id == k) f j hub.heap keeps, e, h))
    origin (some b) e = elim (Bool-cases (j == k)) [
      | inl same ↦ (
        b,
        e,
        inl (
          same,
          ground (
            arith,
            find_key-update_rows (λ c. c.id) (λ c. c.id == k) f j hub.heap keeps,
            find_key-eq_key (λ c. c.id) j hub.heap b e,
            e,
            h,
          ),
        ),
      )
      | inr other ↦
          (b, e, inr (other, some_inj (sym h ∙ client_at-change_other j k f hub keeps other ∙ e)))
    ]

standing-map :
    (k : ℕ) (f : Client → Client)
    → ((c : Client) → (f c).scope ≡ c.scope)
    → ((c : Client) → (f c).once ≡ c.once)
    → (s : Scope) (o : Option Client)
    → standing s (Option.map (λ c. if c.id == k then f c else c) o) ≡ standing s o
standing-map k f scope once s none = refl
standing-map k f scope once s (some c) = elim (Bool-cases (c.id == k)) [
  | inl e ↦ rw e (rw (scope c) (rw (once c) refl))
  | inr e ↦ rw e refl
]

-- A change of one client that keeps its number, its scope and whether it was closed, and the bound of
-- its queue.
change-IsWellFormed :
    (k : ℕ) (f : Client → Client) (hub : Hub)
    → ((c : Client) → (f c).id ≡ c.id)
    → ((c : Client) → (f c).scope ≡ c.scope)
    → ((c : Client) → (f c).once ≡ c.once)
    → ((c : Client) → (f c).closed ≡ c.closed)
    → ((c : Client)
        → client_at hub k ≡ some c
        → length c.queue ≤ c.buffer
        → length (f c).queue ≤ (f c).buffer)
    → IsWellFormed hub
    → IsWellFormed (change k f hub)
change-IsWellFormed k f hub id scope once closed fit w = record {
  numbered = λ j c h.
      let (b, at, _) = change-Origin k f hub id j c h in
      ground (arith, w.numbered j b at, length-update_rows (λ c. c.id == k) f hub.heap);
  distinct = w.distinct;
  registered = λ j s.
      w.registered j s
      ∙ sym (
          ap (standing s) (find_key-update_rows (λ c. c.id) (λ c. c.id == k) f j hub.heap id)
          ∙ standing-map k f scope once s (client_at hub j));
  sealed = λ j c h.
      let (b, at, origin) = change-Origin k f hub id j c h in
      ground (arith, w.sealed j b at, once b, closed b, origin);
  fits = λ j c h.
      let (b, at, origin) = change-Origin k f hub id j c h in
      elim origin [
        | inl (same, e) ↦
            subst (λ (c : Client). length c.queue ≤ c.buffer) (sym e)
              (fit b (subst (λ i. client_at hub i ≡ some b) (ground arith) at) (w.fits j b at))
        | inr (_, e) ↦ subst (λ (c : Client). length c.queue ≤ c.buffer) (sym e) (w.fits j b at)
      ];
  counted = w.counted;
  dropped = w.dropped;
}

new_number : (hub : Hub) → IsWellFormed hub → client_at hub (length hub.heap) ≡ none
new_number hub w = missing (client_at hub (length hub.heap)) refl
  where
    missing :
        (o : Option Client)
        → client_at hub (length hub.heap) ≡ o
        → client_at hub (length hub.heap) ≡ none
    missing none e = e
    missing (some c) e = absurd (ground (arith, w.numbered (length hub.heap) c e))

-- The count of each client after closeOnce took one out of the map.
module _ (hub : Hub) (w : IsWellFormed hub) (c : Client)
    (stored : client_at hub c.id ≡ some c) where
  abbrev left : Hub
  left = record hub { clients = remove c.scope c.id hub.clients }

  none_left :
      (s : Scope)
      → count c.id (lookup s left.clients) ≡ standing s (client_at (change c.id ended left) c.id)
  none_left s =
      let after = client_at-change c.id c ended left (λ c. ground arith) stored in
      ground (
        arith,
        lookup-remove c.scope s c.id hub.clients w.distinct,
        count-erase c.id c.id (lookup s hub.clients),
        w.registered c.id s,
        ap (standing s) stored,
        ap (standing s) after,
      )

  ended_registered :
      (j : ℕ) (s : Scope)
      → count j (lookup s left.clients) ≡ standing s (client_at (change c.id ended left) j)
  ended_registered j s = elim (Bool-cases (j == c.id)) [
    | inl same ↦
        subst
          (λ i. count i (lookup s left.clients) ≡ standing s (client_at (change c.id ended left) i))
          (ground arith) (none_left s)
    | inr other ↦ ground (
      arith,
      other,
      lookup-remove c.scope s c.id hub.clients w.distinct,
      count-erase j c.id (lookup s hub.clients),
      w.registered j s,
      client_at-change_other j c.id ended left (λ c. ground arith) other,
    )
  ]

subscribe-IsWellFormed :
    (scope : Scope) (actor_ref : String) (device_id buffer : ℕ) (hub : Hub)
    → IsWellFormed hub
    → IsWellFormed (subscribe scope actor_ref device_id buffer hub)
unfolding subscribe find_row count
subscribe-IsWellFormed scope actor_ref device_id buffer hub w = record {
  numbered = λ j c h. ground (arith, w.numbered j c);
  distinct = add-AreDistinct scope (length hub.heap) hub.clients w.distinct;
  registered = λ j s.
      ground (
        arith,
        lookup-add scope s (length hub.heap) hub.clients,
        w.registered j s,
        new_number hub w,
      );
  sealed = λ j c h. ground (arith, w.sealed j c);
  fits = λ j c h. ground (arith, w.fits j c);
  counted = ground (arith, w.counted, total-add scope (length hub.heap) hub.clients);
  dropped = w.dropped;
}

unsubscribe-IsWellFormed : (k : ℕ) (hub : Hub) → IsWellFormed hub → IsWellFormed (unsubscribe k hub)
unfolding unsubscribe_once
unsubscribe-IsWellFormed k hub w = unsubscribe-elim IsWellFormed k hub w λ c h e.
    let stored : client_at hub c.id ≡ some c =
      subst (λ i. client_at hub i ≡ some c) (sym (find_key-eq_key (λ c. c.id) k hub.heap c h)) h in
    let left = record hub { clients = remove c.scope c.id hub.clients } in
    record {
      numbered = λ j d at.
          let (b, before, _) = change-Origin c.id ended left (λ c. ground arith) j d at in
          ground
            (arith, w.numbered j b before, length-update_rows (λ d. d.id == c.id) ended hub.heap);
      distinct = remove-AreDistinct c.scope c.id hub.clients w.distinct;
      registered = λ j s. ended_registered hub w c stored j s;
      sealed = λ j d at.
          let (b, before, origin) = change-Origin c.id ended left (λ c. ground arith) j d at in
          ground (arith, w.sealed j b before, origin);
      fits = λ j d at.
          let (b, before, origin) = change-Origin c.id ended left (λ c. ground arith) j d at in
          ground (arith, w.fits j b before, origin);
      counted = ground (
        arith,
        w.counted,
        total-remove c.scope c.id hub.clients,
        w.registered c.id c.scope,
        stored,
      );
      dropped = w.dropped;
    }

dropping-IsWellFormed : (hub : Hub) → IsWellFormed hub → IsWellFormed (dropping hub)
dropping-IsWellFormed hub w = record {
  numbered = w.numbered;
  distinct = w.distinct;
  registered = w.registered;
  sealed = w.sealed;
  fits = w.fits;
  counted = w.counted;
  dropped = ap suc w.dropped;
}

send_to-IsWellFormed :
    (message : Message) (k : ℕ) (hub : Hub)
    → IsWellFormed hub
    → IsWellFormed (send_to message k hub)
send_to-IsWellFormed message k hub w =
    send_to-elim IsWellFormed k message hub (λ _. w)
      (λ c h can.
        change-IsWellFormed k (queued message) hub (λ c. refl) (λ c. refl) (λ c. refl) (λ c. refl)
          (λ d at _. ground (arith, sym h ∙ at, can, length-append d.queue (message ∷ []))) w)
      (λ c h can. unsubscribe-IsWellFormed k (dropping hub) (dropping-IsWellFormed hub w))

send_all-IsWellFormed :
    (message : Message) (ks : List ℕ) (hub : Hub)
    → IsWellFormed hub
    → IsWellFormed (send_all message ks hub)
unfolding send_all
send_all-IsWellFormed message [] hub w = w
send_all-IsWellFormed message (k ∷ ks) hub w =
    send_all-IsWellFormed message ks (send_to message k hub) (send_to-IsWellFormed message k hub w)

receive-IsWellFormed : (k : ℕ) (hub : Hub) → IsWellFormed hub → IsWellFormed (receive k hub)
unfolding receive
receive-IsWellFormed k hub w =
    change-IsWellFormed k (λ c. record c { queue = taken c.queue }) hub (λ c. refl) (λ c. refl)
      (λ c. refl) (λ c. refl) (λ d at fit. shorter d.queue d.buffer fit) w
  where
    shorter : (q : List Message) (n : ℕ) → length q ≤ n → length (taken q) ≤ n
    shorter [] n h = h
    shorter (m ∷ ms) n h = ground arith

publish-IsWellFormed :
    (event : Envelope) (hub : Hub) → IsWellFormed hub → IsWellFormed (publish event hub)
unfolding publish
publish-IsWellFormed event hub w =
    send_all-IsWellFormed (message_from_event event) (lookup (scope_of event) hub.clients) _
      (record {
        numbered = w.numbered;
        distinct = w.distinct;
        registered = w.registered;
        sealed = w.sealed;
        fits = w.fits;
        counted = w.counted;
        dropped = w.dropped;
      })

-- Any sequence of calls keeps a hub well formed: the map holds each open client once, in its own
-- scope, and no closed one; no channel holds more than its buffer; the clients of the map and the
-- closed connections make up the accepted ones; as many messages were dropped as connections closed
-- for backpressure.
pub run-IsWellFormed :
    (hub : Hub) (calls : List Call) → IsWellFormed hub → IsWellFormed (run hub calls)
unfolding run step
run-IsWellFormed hub [] w = w
run-IsWellFormed hub (c ∷ cs) w = run-IsWellFormed (step hub c) cs (step-IsWellFormed c)
  where
    step-IsWellFormed : (c : Call) → IsWellFormed (step hub c)
    step-IsWellFormed (subscribes s a d b) = subscribe-IsWellFormed s a d b hub w
    step-IsWellFormed (unsubscribes k) = unsubscribe-IsWellFormed k hub w
    step-IsWellFormed (publishes e) = publish-IsWellFormed e hub w
    step-IsWellFormed (receives k) = receive-IsWellFormed k hub w
