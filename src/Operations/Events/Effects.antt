-- ===== src/Operations/Events/Effects.antt =====
-- What the writing of an operational event has done when it returns.
use seatd_v.Base.{
  ℕ, ◌≡◌, ◌≢◌, suc, refl, ap, subst, Option-cases, inl, inr, String, Option, none, some, List, [],
  ◌∷◌, arith,
}
use seatd_v.Store.{
  Bytes, Database, EventRow, OutboxRow, waiting, Env, Tx, ok, after_handle, after_action,
}
use seatd_v.Operations.Errors.{Context, encoding_data, encoding_envelope}
use seatd_v.Operations.Events.{
  OperationalEvent, or_default, or_topic, encoded, outbox_row, event_row, insert_event,
  insert_outbox, write_outbox, write_operational_event, envelope_of,
}

-- A row that waits for the worker, for one destination.
pub record IsQueued (event : OperationalEvent) (event_id : ℕ) (topic destination : String)
    (payload : Bytes) (o : OutboxRow) : Type 0 where
  pub of_event : o.event_id ≡ event_id
  pub of_organisation : o.organisation_id ≡ event.organisation_id
  pub of_location : o.location_id ≡ event.location_id
  pub on_topic : o.topic ≡ topic
  pub for_destination : o.destination ≡ destination
  pub waits : o.status ≡ waiting
  pub not_tried : o.attempts ≡ 0
  pub carries : o.payload ≡ payload

-- One row for each destination, in turn, and no other.
abbrev pub Queued :
    OperationalEvent → ℕ → String → Bytes → List String → List OutboxRow → List OutboxRow → Type 0
Queued event id topic payload [] before after = after ≡ before
Queued event id topic payload (d ∷ ds) before after =
    (o : OutboxRow) × IsQueued event id topic d payload o
    × Queued event id topic payload ds (o ∷ before) after

abbrev pub IsEvent : OperationalEvent → EventRow → Type 0
IsEvent event e =
    (e.organisation_id ≡ event.organisation_id)
    × (e.location_id ≡ event.location_id)
    × (e.event_type ≡ event.event_type)
    × (e.entity_type ≡ event.entity_type)
    × (e.entity_id ≡ event.entity_id)
    × (e.entity_version ≡ event.entity_version)
    × (e.actor_ref ≡ or_default event.actor_ref "system")
    × (e.command_id ≡ event.command_id)

pub encoded_returns :
    {A : Type 0} (o : Option A) (c : Context) (env : Env) (t : Tx) {a : A} {u : Tx}
    → encoded o c env t ≡ ok (a, u)
    → (o ≡ some a) × (u ≡ t)
encoded_returns none c env t h = (cc, cc)
encoded_returns (some b) c env t h = (cc, cc)

module _ (env : Env) (event : OperationalEvent) where
  insert_outbox_at :
      (t u : Tx) (id : ℕ) (topic destination : String) (payload stored : Bytes) {x : Unit {0}}
      → env.to_jsonb payload ≡ some stored
      → insert_outbox event id topic destination payload env t ≡ ok (x, u)
      → u.db ≡ record t.db {
        outbox =
            outbox_row event id topic destination stored (env.ids t.drawn) env.now ∷ t.db.outbox;
      }
  unfolding insert_outbox
  insert_outbox_at t u id topic destination payload stored e h = ground arith

  insert_outbox_encodes :
      (t u : Tx) (id : ℕ) (topic destination : String) (payload : Bytes) {x : Unit {0}}
      → insert_outbox event id topic destination payload env t ≡ ok (x, u)
      → env.to_jsonb payload ≢ none
  unfolding insert_outbox
  insert_outbox_encodes t u id topic destination payload h e = ground arith

  -- Only the outbox grows, by one row for each destination.
  write_outbox_returns :
      (t u : Tx) (id : ℕ) (topic : String) (ds : List String) (payload stored : Bytes)
      {x : Unit {0}}
      → env.to_jsonb payload ≡ some stored
      → write_outbox event id topic ds payload env t ≡ ok (x, u)
      → (added : List OutboxRow) × (u.db ≡ record t.db { outbox = added })
        × Queued event id topic stored ds t.db.outbox added
  unfolding write_outbox
  write_outbox_returns t u id topic [] payload stored e h = (t.db.outbox, ground arith, refl)
  write_outbox_returns t u id topic (d ∷ ds) payload stored e h =
      after_handle _ (insert_outbox event id topic d payload) _ env t h λ x t' h' k.
        let row = outbox_row event id topic d stored (env.ids t.drawn) env.now in
        let grown = insert_outbox_at t t' id topic d payload stored e h' in
        let (added, rest, queued) = write_outbox_returns t' u id topic ds payload stored e k in
        (
          added,
          ground arith,
          (row, ground arith, rw (ap (λ (db : Database). db.outbox) grown) at queued),
        )

  insert_event_at :
      (t u : Tx) (id now : ℕ) (content payload stored_content stored : Bytes) {x : Unit {0}}
      → env.to_jsonb content ≡ some stored_content
      → env.to_jsonb payload ≡ some stored
      → insert_event event id now content payload env t ≡ ok (x, u)
      → u.db ≡ record t.db { events = event_row event id now stored_content stored ∷ t.db.events }
  unfolding insert_event
  insert_event_at t u id now content payload stored_content stored e e' h = ground arith

  insert_event_encodes :
      (t u : Tx) (id now : ℕ) (content payload : Bytes) {x : Unit {0}}
      → insert_event event id now content payload env t ≡ ok (x, u)
      → (env.to_jsonb content ≢ none) × (env.to_jsonb payload ≢ none)
  unfolding insert_event
  insert_event_encodes t u id now content payload h = ground arith

  -- One event row, one outbox row for each destination, and no other change.
  pub record Emits (db db' : Database) : Type 0 where
    pub row : EventRow
    pub is_event : IsEvent event row
    pub added : List OutboxRow
    pub stored : db' ≡ record db { events = row ∷ db.events; outbox = added }
    pub queued :
        Queued event row.id
          (or_default event.topic event.entity_type)
          row.payload
          (or_topic event.destinations (or_default event.topic event.entity_type))
          db.outbox
          added

  -- The case that both texts are stored.
  emitting :
      (t t₁ u : Tx) (id : ℕ) (content payload stored_content stored : Bytes) {x y : Unit {0}}
      → env.to_jsonb content ≡ some stored_content
      → env.to_jsonb payload ≡ some stored
      → insert_event event id env.wall content payload env t ≡ ok (x, t₁)
      → write_outbox event id
          (or_default event.topic event.entity_type)
          (or_topic event.destinations (or_default event.topic event.entity_type))
          payload
          env
          t₁
        ≡ ok (y, u)
      → Emits t.db u.db
  emitting t t₁ u id content payload stored_content stored e e' h k =
      let inserted =
        insert_event_at t t₁ id env.wall content payload stored_content stored e e' h in
      let (added, rest, queued) =
        write_outbox_returns t₁ u id (or_default event.topic event.entity_type)
          (or_topic event.destinations (or_default event.topic event.entity_type)) payload stored e'
          k in
      record {
        row = event_row event id env.wall stored_content stored;
        is_event = ground arith;
        added = added;
        stored = ground arith;
        queued = rw (ap (λ (db : Database). db.outbox) inserted) at queued;
      }

  pub write_operational_event_returns :
      (t u : Tx) {x : Unit {0}} → write_operational_event event env t ≡ ok (x, u) → Emits t.db u.db
  unfolding write_operational_event
  write_operational_event_returns t u h =
      after_action (encoded (env.encode_data event.content) encoding_data) _ env t h
        λ content t₁ h₁ k₁.
          after_action
            (encoded
              (env.encode_envelope (
                envelope_of event content (env.ids t₁.drawn) env.wall env.traceparent
                  env.tracestate))
              encoding_envelope)
            _ env (record t₁ { drawn = suc t₁.drawn }) k₁
            λ payload t₂ h₂ k₂.
              after_handle _ (insert_event event (env.ids t₁.drawn) env.wall content payload) _ env
                t₂ k₂
                λ x t₃ h₃ k₃.
                  let unchanged =
                    (encoded_returns (env.encode_data event.content) encoding_data env t h₁).1 in
                  let drawn =
                    (encoded_returns
                      (env.encode_envelope (
                        envelope_of event content (env.ids t₁.drawn) env.wall env.traceparent
                          env.tracestate))
                      encoding_envelope env (record t₁ { drawn = suc t₁.drawn }) h₂).1 in
                  let same : t₂.db ≡ t.db = cc (unchanged, drawn) in
                  elim (Option-cases (env.to_jsonb content)) [
                    | inl e ↦ absurd (
                        (insert_event_encodes t₂ t₃ (env.ids t₁.drawn) env.wall content payload
                            h₃).0
                          e)
                    | inr (c, e) ↦ elim (Option-cases (env.to_jsonb payload)) [
                      | inl e' ↦ absurd (
                          (insert_event_encodes t₂ t₃ (env.ids t₁.drawn) env.wall content payload
                              h₃).1
                            e')
                      | inr (p, e') ↦
                          subst (λ db. Emits db u.db) same
                            (emitting t₂ t₃ u (env.ids t₁.drawn) content payload c p e e' h₃ k₃)
                    ]
                  ]
